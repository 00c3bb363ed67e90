-- ===== src/Config/Server.antt =====
-- internal/config/server.go: the configuration of the server, and its defaults.
use qoqtun.Prelude.{Bool, true, List, [], ◌∷◌, Bytes, codes}
use qoqtun.Prelude.Int.{ℤ, pos}

pub record Listen : Type 0 where
  pub control_addr : Bytes
  pub enroll_addr : Bytes
  pub enroll_enabled : Bool
  pub http_vhost_port : ℤ

pub record PolicyConfig : Type 0 where
  pub allowed_ports : List Bytes
  pub max_tunnels_per_client : ℤ
  pub max_conns_per_client : ℤ
  pub max_conns_per_tunnel : ℤ
  pub bandwidth_bps_per_client : ℤ
  pub bandwidth_bps_per_tunnel : ℤ
  pub allowed_targets : List Bytes
  pub udp_max_sessions_per_tunnel : ℤ
  pub udp_max_packet : ℤ
  pub udp_session_idle_timeout : Bytes

pub record HeartbeatConfig : Type 0 where
  pub interval_s : ℤ
  pub timeout_s : ℤ
  pub miss_threshold : ℤ

pub record PkiConfig : Type 0 where
  pub ca_validity_years : ℤ
  pub client_cert_validity_days : ℤ
  pub token_ttl : Bytes

pub record LoggingConfig : Type 0 where
  pub level : Bytes
  pub format : Bytes
  pub file : Bytes

pub record ServerConfig : Type 0 where
  pub state_dir : Bytes
  pub listen : Listen
  pub policy : PolicyConfig
  pub heartbeat : HeartbeatConfig
  pub pki : PkiConfig
  pub logging : LoggingConfig

-- `DefaultServerConfig`: the directory of the state has no default.
unfoldable pub default_server_config : ServerConfig
default_server_config = record {
  state_dir = [];
  listen = record {
    control_addr = codes "0.0.0.0:7000";
    enroll_addr = codes "0.0.0.0:7001";
    enroll_enabled = true;
    http_vhost_port = pos 0;
  };
  policy = record {
    allowed_ports = codes "20000-29999" ∷ [];
    max_tunnels_per_client = pos 16;
    max_conns_per_client = pos 256;
    max_conns_per_tunnel = pos 128;
    bandwidth_bps_per_client = pos 0;
    bandwidth_bps_per_tunnel = pos 0;
    allowed_targets = codes "10.0.0.0/8:*" ∷ [];
    udp_max_sessions_per_tunnel = pos 256;
    udp_max_packet = pos 1500;
    udp_session_idle_timeout = codes "60s";
  };
  heartbeat = record { interval_s = pos 15; timeout_s = pos 10; miss_threshold = pos 2 };
  pki = record {
    ca_validity_years = pos 10;
    client_cert_validity_days = pos 90;
    token_ttl = codes "1h";
  };
  logging = record { level = codes "info"; format = codes "json"; file = [] };
}
