-- ===== src/Protocol/Messages.antt =====
-- internal/protocol/messages.go: the payloads that are validated. A pointer is an option; the
-- fields for logs alone are left out.
use qoqtun.Prelude.{Bytes, Option, List}
use qoqtun.Prelude.Int.{ℤ}

pub record ClientHello : Type 0 where
  pub client_id : Bytes
  pub protocol_version : ℤ
  pub name : Bytes
  pub note : Bytes
  pub capabilities : List Bytes

pub record UdpPolicy : Type 0 where
  pub max_sessions : ℤ
  pub max_packet : ℤ
  pub session_idle_timeout : Bytes

pub record Policy : Type 0 where
  pub allowed_ports : List Bytes
  pub max_tunnels : ℤ
  pub max_conns : ℤ
  pub max_conns_tunnel : ℤ
  pub bandwidth_bps : ℤ
  pub bandwidth_tunnel_bps : ℤ
  pub udp : UdpPolicy
  pub allowed_targets : List Bytes

pub record Heartbeat : Type 0 where
  pub interval_s : ℤ
  pub timeout_s : ℤ
  pub miss_threshold : ℤ

pub record ServerHello : Type 0 where
  pub session_id : Bytes
  pub policy : Policy
  pub heartbeat : Heartbeat

pub record LocalTarget : Type 0 where
  pub ip : Bytes
  pub port : ℤ

-- `http` is the host of the HTTP configuration, if there is one.
pub record RegisterTunnel : Type 0 where
  pub name : Bytes
  pub kind : Bytes
  pub remote_port : ℤ
  pub local : LocalTarget
  pub http : Option Bytes

pub record OpenData : Type 0 where
  pub conn_id : Bytes
  pub tunnel_id : Bytes
