-- ===== src/Config/Client.antt =====
-- internal/config/client.go and ValidateClient of internal/config/validate.go. The jitter is a
-- floating-point number, whose type and tests are a parameter.
pub mod Registers
use qoqtun.Prelude.{
  ℕ, Bool, true, false, ◌&&◌, ◌||◌, not, Option, none, some, List, [], ◌∷◌, ◌*◌, ◌==◌,
  if◌then◌else◌, length, Bytes, codes, bytes_eq, nat_eq, is_some, leb,
}
use qoqtun.Prelude.Int.{ℤ, pos, int_eq, ltz}
use qoqtun.Prelude.Strings.{is_lower, is_digit, to_lower}
use qoqtun.Net.{Net}
use qoqtun.Tunnel.Host.{all_bytes}
use qoqtun.Protocol.Validate.{valid_hostname, valid_tunnel_name}
use qoqtun.Config.Server.{LoggingConfig}
use qoqtun.Config.Rules.{valid_log_level, valid_log_format, or_default}
use qoqtun.Config.Validate.{System, split_addr, valid_host_or_ip, valid_log_file}

pub record TunnelConfig : Type 0 where
  pub name : Bytes
  pub kind : Bytes
  pub remote_port : ℤ
  pub local_ip : Bytes
  pub local_port : ℤ
  pub http_host : Bytes
  pub enabled : Bool
  pub idle_timeout : Bytes

-- `c.Reconnect.Jitter == 0`, the default 0.2, and whether a number is below 0 or above 1.
pub record Floats : Type 1 where
  pub Float : Type 0
  pub is_zero : Float → Bool
  pub fifth : Float
  pub outside_unit : Float → Bool

pub record ReconnectConfig (Float : Type 0) : Type 0 where
  pub initial_backoff : Bytes
  pub max_backoff : Bytes
  pub jitter : Float

pub record ClientConfig (Float : Type 0) : Type 0 where
  pub server_addr : Bytes
  pub ca_fingerprint : Bytes
  pub reconnect : ReconnectConfig Float
  pub heartbeat_enabled : Bool
  pub logging : LoggingConfig
  pub tunnels : List TunnelConfig

-- The field that is refused.
pub data Refused : Type 0 where
  server_addr ca_fingerprint initial_backoff max_backoff jitter level format file : Refused
  tunnel_name duplicate_name remote_port needs_host kind local_ip local_port : Refused
  http_host idle_timeout : Refused

unfoldable pub reject_when : Bool → Refused → Option Refused
reject_when true e = some e
reject_when false e = none

infixr 40 ◌next◌
unfoldable pub ◌next◌ : Option Refused → Option Refused → Option Refused
none next q = q
some e next q = some e

-- `checkRange`
abbrev pub out_of_range : ℤ → ℤ → ℤ → Bool
out_of_range v lo hi = ltz v lo || ltz hi v

-- `hex64`
abbrev pub is_hex_byte : ℕ → Bool
is_hex_byte c = is_digit c || leb b'a' c && leb c b'f' || leb b'A' c && leb c b'F'

unfoldable pub is_hex64 : Bytes → Bool
is_hex64 s = length s == 64 && all_bytes is_hex_byte s

-- The names seen so far.
unfoldable pub has_name : Bytes → List Bytes → Bool
has_name n [] = false
has_name n (m ∷ ms) = n == m || has_name n ms

-- The switch on the type of a tunnel.
unfoldable pub check_kind : TunnelConfig → Option Refused
unfolding reject_when
check_kind t =
    if t.kind == codes "tcp" || t.kind == codes "udp" || t.kind == codes "https"
    then reject_when (out_of_range t.remote_port (pos 1) (pos 65535)) remote_port
    else if t.kind == codes "http"
    then reject_when
        (not (t.remote_port == pos 0) && out_of_range t.remote_port (pos 1) (pos 65535)) remote_port
      next reject_when (length t.http_host == 0 && t.remote_port == pos 0) needs_host
    else some kind

unfoldable pub default_client_config : (floats : Floats) → ClientConfig floats.Float
default_client_config floats = record {
  server_addr = [];
  ca_fingerprint = [];
  reconnect = record {
    initial_backoff = codes "1s";
    max_backoff = codes "60s";
    jitter = floats.fifth;
  };
  heartbeat_enabled = true;
  logging = record { level = codes "info"; format = codes "text"; file = [] };
  tunnels = [];
}

-- The defaults that `ValidateClient` fills in. The heartbeat is switched on where the level of the
-- log is left out.
unfoldable pub fill_client_defaults :
    (floats : Floats) → ClientConfig floats.Float → ClientConfig floats.Float
fill_client_defaults floats c = record c {
  reconnect = record {
    initial_backoff = or_default c.reconnect.initial_backoff (codes "1s");
    max_backoff = or_default c.reconnect.max_backoff (codes "60s");
    jitter = if floats.is_zero c.reconnect.jitter then floats.fifth else c.reconnect.jitter;
  };
  heartbeat_enabled = c.heartbeat_enabled || length c.logging.level == 0;
  logging = record c.logging {
    level = or_default c.logging.level (codes "info");
    format = or_default c.logging.format (codes "text");
  };
}

module _ (sys : System) (net : Net) where
  -- `validLocalIP`
  unfoldable pub valid_local_ip : Bytes → Bool
  valid_local_ip s = not (length s == 0) && elim (net.parse_ip s) [
    | none ↦ valid_hostname s
    | some ip ↦
        not (net.is_unspecified ip)
        && not (net.is_multicast ip)
        && not (net.is_link_local_unicast ip)
  ]

  -- The body of the loop over the tunnels.
  unfoldable pub check_tunnel : TunnelConfig → Option Refused
  unfolding reject_when check_kind valid_local_ip
  check_tunnel t =
      check_kind t
      next reject_when (not (valid_local_ip t.local_ip)) local_ip
      next reject_when (out_of_range t.local_port (pos 1) (pos 65535)) local_port
      next reject_when (not (length t.http_host == 0) && not (valid_hostname t.http_host)) http_host
      next reject_when
          (not (length t.idle_timeout == 0) && not (is_some (sys.parse_duration t.idle_timeout)))
          idle_timeout

  unfoldable pub check_tunnels : List Bytes → List TunnelConfig → Option Refused
  unfolding check_tunnel reject_when has_name
  check_tunnels seen [] = none
  check_tunnels seen (t ∷ ts) =
      reject_when (not (valid_tunnel_name t.name)) tunnel_name
      next reject_when (has_name t.name seen) duplicate_name
      next check_tunnel t
      next check_tunnels (t.name ∷ seen) ts

  unfoldable pub check_server_addr : Bytes → Option Refused
  unfolding reject_when
  check_server_addr a = elim (split_addr sys net a) [
    | none ↦ some server_addr
    | some (host, port) ↦ reject_when (not (valid_host_or_ip sys net host)) server_addr
  ]

  -- `maxB > 10*time.Minute`
  unfoldable pub check_max_backoff : Bytes → Option Refused
  unfolding reject_when
  check_max_backoff s = elim (sys.parse_duration s) [
    | none ↦ some max_backoff
    | some d ↦ reject_when (ltz (pos (10 * 60 * 1000000000)) d) max_backoff
  ]

  -- `ValidateClient` on a configuration whose defaults are filled in.
  unfoldable pub check_client : (floats : Floats) → ClientConfig floats.Float → Option Refused
  unfolding reject_when check_server_addr check_max_backoff check_tunnels is_hex64
  check_client floats c =
      check_server_addr c.server_addr
      next reject_when (not (length c.ca_fingerprint == 0) && not (is_hex64 c.ca_fingerprint))
          ca_fingerprint
      next reject_when (not (is_some (sys.parse_duration c.reconnect.initial_backoff)))
          initial_backoff
      next check_max_backoff c.reconnect.max_backoff
      next reject_when (floats.outside_unit c.reconnect.jitter) jitter
      next reject_when (not (valid_log_level c.logging.level)) level
      next reject_when (not (valid_log_format c.logging.format)) format
      next reject_when (not (valid_log_file sys net c.logging.file)) file
      next check_tunnels [] c.tunnels

  -- `ValidateClient`: what is wrong, and the configuration that it leaves.
  unfoldable pub validate_client :
      (floats : Floats) → ClientConfig floats.Float → Option Refused × ClientConfig floats.Float
  unfolding check_client fill_client_defaults
  validate_client floats c =
      (check_client floats (fill_client_defaults floats c), fill_client_defaults floats c)
