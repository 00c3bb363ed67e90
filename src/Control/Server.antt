-- ===== src/Control/Server.antt =====
-- internal/control/server.go and security.go: the state of the control plane. The mutexes make each
-- access to one of the maps a step; a handler is taken as a whole. Connections are numbers. `sent`
-- lists the frames that were written, the newest first, each with its connection, and `closed` the
-- connections that the control plane closed; a manager lists those that it closed itself. A
-- bandwidth bucket is its rate. The limiter of golang.org/x/time/rate is a parameter.
use qoqtun.Prelude.{ℕ, Bool, false, Option, none, some, List, [], ◌∷◌, Bytes, bytes_eq, nat_eq}
use qoqtun.Prelude.Int.{ℤ, pos}
use qoqtun.Prelude.Maps.{Map, lookup, insert, delete}
use qoqtun.Net.{Net}
use qoqtun.Protocol.Messages.{Policy, Heartbeat, ServerHello, LocalTarget}
use qoqtun.Protocol.Validate.{Problem}
use qoqtun.Config.Server.{ServerConfig}
use qoqtun.Session.{Registry}
use qoqtun.Tunnel.Manager.{Manager, new_manager}
use qoqtun.Tunnel.Vhost.{VhostTable}
use qoqtun.Tunnel.Acl.{targets_allow}
use qoqtun.Control.VhostListener.{VhostListener}
use qoqtun.Control.DataQuota.{Quotas, cleanup_security, tunnel_teardown}
use qoqtun.Control.HalfOpen.{HalfOpenTracker}
use qoqtun.Control.Ports.{Reservations}
use qoqtun.Security.IpGate.{IpGate}
use qoqtun.Metrics

-- `rate.NewLimiter` with a rate in thousandths per second and a burst, and `Allow` at a time.
pub record Limits : Type 1 where
  pub Limiter : Type 0
  pub new_limiter : ℕ → ℕ → Limiter
  pub allow : ℕ → Limiter → Bool × Limiter

-- The codes of internal/protocol/errors.go; `invalid` is that of a validator.
pub data Code : Type 0 where
  auth_failed protocol_error version_unsupported rate_limited target_not_allowed : Code
  port_in_use port_not_allowed tunnel_limit name_invalid name_conflict internal : Code
  invalid : Problem → Code

pub data Frame : Type 0 where
  server_hello : ServerHello → Frame
  -- A tunnel and its public port, a removed tunnel, and a refusal of either.
  registered : Bytes → ℤ → Frame
  unregistered : Bytes → Frame
  refused : Code → Frame
  -- A connection to claim, and its tunnel.
  open_connection : Bytes → Bytes → Frame
  pong : Bytes → Frame
  error : Code → Frame
  -- `WriteHTTPError` on a public connection.
  http_error : ℕ → Frame

-- The data channel of a UDP tunnel.
pub record Channel : Type 0 where
  pub client_id : Bytes
  pub tunnel_id : Bytes
  pub conn : ℕ

pub record Server (Limiter : Type 0) : Type 0 where
  pub cfg : Option ServerConfig
  pub policy : Policy
  pub max_half_open : ℤ
  pub vhost_port : ℤ
  pub sessions : Registry
  pub managers : Map Bytes Manager
  pub hosts : VhostTable
  pub listener : VhostListener
  pub quotas : Quotas
  pub client_bw : Map Bytes ℤ
  pub tunnel_bw : Map Bytes ℤ
  pub reg_lim : Map Bytes Limiter
  pub gate : IpGate Limiter
  pub half_open : HalfOpenTracker
  pub reservations : Reservations
  pub data_conns : Map Bytes ℕ
  pub channels : List Channel
  pub stats : Metrics.Registry
  pub sent : List (ℕ × Frame)
  pub closed : List ℕ

-- What the rest of the system answers to a handler: the clock, the text of a failed bind, and the
-- random id of a connection, unless the generator fails.
pub record Outside : Type 0 where
  pub now : ℕ
  pub bind_error : Option Bytes
  pub fresh_id : Option Bytes

-- `policyFromConfig`
unfoldable pub policy_from_config : Option ServerConfig → Policy
policy_from_config none = record {
  allowed_ports = [];
  max_tunnels = pos 0;
  max_conns = pos 0;
  max_conns_tunnel = pos 0;
  bandwidth_bps = pos 0;
  bandwidth_tunnel_bps = pos 0;
  udp = record { max_sessions = pos 0; max_packet = pos 0; session_idle_timeout = [] };
  allowed_targets = [];
}
policy_from_config (some c) = record {
  allowed_ports = c.policy.allowed_ports;
  max_tunnels = c.policy.max_tunnels_per_client;
  max_conns = c.policy.max_conns_per_client;
  max_conns_tunnel = pos 0;
  bandwidth_bps = c.policy.bandwidth_bps_per_client;
  bandwidth_tunnel_bps = pos 0;
  udp = record {
    max_sessions = c.policy.udp_max_sessions_per_tunnel;
    max_packet = c.policy.udp_max_packet;
    session_idle_timeout = c.policy.udp_session_idle_timeout;
  };
  allowed_targets = c.policy.allowed_targets;
}

-- `heartbeatFromConfig`
unfoldable pub heartbeat_from_config : Option ServerConfig → Heartbeat
heartbeat_from_config none = record {
  interval_s = pos 15;
  timeout_s = pos 10;
  miss_threshold = pos 2;
}
heartbeat_from_config (some c) = record {
  interval_s = c.heartbeat.interval_s;
  timeout_s = c.heartbeat.timeout_s;
  miss_threshold = c.heartbeat.miss_threshold;
}

unfoldable pub manager_in : Bytes → Map Bytes Manager → Manager
manager_in id ms = elim (lookup id ms) [ none ↦ new_manager | some m ↦ m ]

module _ {Limiter : Type 0} where
  abbrev pub send : ℕ → Frame → Server Limiter → Server Limiter
  send c f s = record s { sent = (c, f) ∷ s.sent }

  abbrev pub close_conn : ℕ → Server Limiter → Server Limiter
  close_conn c s = record s { closed = c ∷ s.closed }

  -- `managerFor`
  abbrev pub manager_for : Bytes → Server Limiter → Manager
  manager_for id s = manager_in id s.managers

  abbrev pub put_manager : Bytes → Manager → Server Limiter → Server Limiter
  put_manager id m s = record s { managers = insert id m s.managers }

  -- `clientBucket` and `tunnelBucket`: a bucket is made on its first use.
  unfoldable pub client_bucket : Bytes → Server Limiter → ℤ
  client_bucket id s = elim (lookup id s.client_bw) [ none ↦ s.policy.bandwidth_bps | some b ↦ b ]

  unfoldable pub tunnel_bucket : Bytes → Server Limiter → ℤ
  tunnel_bucket id s = elim (lookup id s.tunnel_bw) [
    | none ↦ s.policy.bandwidth_tunnel_bps
    | some b ↦ b
  ]

  unfoldable pub use_buckets : Bytes → Bytes → Server Limiter → Server Limiter
  use_buckets id tunnel_id s = record s {
    client_bw = insert id (client_bucket id s) s.client_bw;
    tunnel_bw = insert tunnel_id (tunnel_bucket tunnel_id s) s.tunnel_bw;
  }

  -- `cleanupSecurity`
  unfoldable pub cleanup_client : Bytes → Server Limiter → Server Limiter
  cleanup_client id s = record s {
    quotas = cleanup_security id s.quotas;
    client_bw = delete id s.client_bw;
    reg_lim = delete id s.reg_lim;
  }

  -- `tunnelTeardown`
  unfoldable pub teardown : Bytes → Server Limiter → Server Limiter
  teardown tunnel_id s = record s {
    quotas = tunnel_teardown tunnel_id s.quotas;
    tunnel_bw = delete tunnel_id s.tunnel_bw;
  }

module _ (lim : Limits) where
  -- `registerRatePerSec` and `registerBurst`
  unfoldable pub register_limiter : Bytes → Server lim.Limiter → lim.Limiter
  register_limiter id s = elim (lookup id s.reg_lim) [ none ↦ lim.new_limiter 5000 32 | some l ↦ l ]

  -- `checkRegisterRate`
  unfoldable pub check_register_rate : Bytes → ℕ → Server lim.Limiter → Bool × Server lim.Limiter
  check_register_rate id now s =
      let r = lim.allow now (register_limiter id s) in
      (r.0, record s { reg_lim = insert id r.1 s.reg_lim })

  -- `checkTargetAllowed`
  unfoldable pub target_allowed : (net : Net) → LocalTarget → Server lim.Limiter → Bool
  target_allowed net t s = elim s.policy.allowed_targets [
    | [] ↦ false
    | e ∷ es ↦ elim (net.parse_ip t.ip) [
      | none ↦ false
      | some ip ↦ targets_allow net (e ∷ es) ip t.port
    ]
  ]
