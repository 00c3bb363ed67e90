-- ===== src/Protocol/Validate.antt =====
-- internal/protocol/validate.go: the validation of messages. A validator returns the first problem
-- that it finds; each stands for one message of the source's protocol error.
pub mod Accepted
use qoqtun.Prelude.{
  ℕ, zero, suc, Bool, true, false, ◌&&◌, ◌||◌, not, Option, none, some, List, [], ◌∷◌, ◌==◌, ltb,
  leb, nat_eq, Bytes, codes, bytes_eq, length,
}
use qoqtun.Prelude.Int.{ℤ, pos, ltz, int_eq}
use qoqtun.Prelude.Strings.{is_digit, is_lower, is_upper, split}
use qoqtun.Net.{Net}
use qoqtun.Protocol.Ranges.{valid_target}
use qoqtun.Protocol.Messages.{
  ClientHello, Policy, Heartbeat, ServerHello, LocalTarget, RegisterTunnel, OpenData,
}
use qoqtun.Protocol.Frame.{protocol_version}
use qoqtun.Tunnel.Host.{all_bytes, first_is, last_is}

pub data Problem : Type 0 where
  missing missing_client_id client_id_too_long version_unsupported name_too_long
        capability_too_long :
      Problem
  missing_session_id bad_max_tunnels bad_max_conns negative_bandwidth : Problem
  bad_max_sessions bad_max_packet bad_allowed_target : Problem
  bad_interval bad_timeout bad_miss_threshold : Problem
  bad_name bad_kind bad_remote_port no_vhost_host no_dedicated_port bad_local_port bad_local_ip :
      Problem
  forbidden_local_ip host_too_long missing_conn_id missing_tunnel_id : Problem

-- `value <= 0 || value > hi` and its kin: outside the closed range.
abbrev pub outside : ℤ → ℤ → ℤ → Bool
outside lo hi n = ltz n lo || ltz hi n

-- The first problem of two checks.
infixr 40 ◌then◌
unfoldable pub ◌then◌ : Option Problem → Option Problem → Option Problem
none then q = q
some p then q = some p

unfoldable pub reject_if : Bool → Problem → Option Problem
reject_if true p = some p
reject_if false p = none

unfoldable pub capabilities_fit : List Bytes → Bool
capabilities_fit [] = true
capabilities_fit (c ∷ cs) = leb (length c) 64 && capabilities_fit cs

-- `ValidateClientHello`
unfoldable pub validate_client_hello : Option ClientHello → Option Problem
validate_client_hello none = some missing
validate_client_hello (some h) =
    reject_if (length h.client_id == 0) missing_client_id
    then reject_if (ltb 128 (length h.client_id)) client_id_too_long
    then reject_if (not (h.protocol_version == protocol_version)) version_unsupported
    then reject_if (ltb 64 (length h.name)) name_too_long
    then reject_if (not (capabilities_fit h.capabilities)) capability_too_long

-- `validateHeartbeat`
unfoldable pub validate_heartbeat : Heartbeat → Option Problem
validate_heartbeat h =
    reject_if (outside (pos 1) (pos 300) h.interval_s) bad_interval
    then reject_if (outside (pos 1) (pos 60) h.timeout_s) bad_timeout
    then reject_if (outside (pos 1) (pos 10) h.miss_threshold) bad_miss_threshold

-- `validHostname`: a label has letters, digits and inner dashes.
abbrev pub is_label_byte : ℕ → Bool
is_label_byte c = is_lower c || is_upper c || is_digit c || c == b'-'

unfoldable pub valid_label : Bytes → Bool
valid_label l =
    not (length l == 0)
    && leb (length l) 63
    && (all_bytes is_label_byte l && not (first_is b'-' l) && not (last_is b'-' l))

unfoldable pub valid_labels : List Bytes → Bool
valid_labels [] = true
valid_labels (l ∷ ls) = valid_label l && valid_labels ls

unfoldable pub valid_hostname : Bytes → Bool
valid_hostname h =
    not (length h == 0)
    && leb (length h) 253
    && valid_label (split b'.' h).0
    && valid_labels (split b'.' h).1

-- `tunnelNameRe`
abbrev pub is_name_byte : ℕ → Bool
is_name_byte c = is_lower c || is_upper c || is_digit c || c == b'_' || c == b'-'

unfoldable pub valid_tunnel_name : Bytes → Bool
valid_tunnel_name s = leb 1 (length s) && leb (length s) 64 && all_bytes is_name_byte s

unfoldable pub known_kind : Bytes → Bool
known_kind k = k == codes "tcp" || k == codes "udp" || k == codes "http" || k == codes "https"

-- `r.HTTP == nil || r.HTTP.Host == ""`
unfoldable pub lacks_host : Option Bytes → Bool
lacks_host none = true
lacks_host (some h) = length h == 0

unfoldable pub host_too_big : Option Bytes → Bool
host_too_big none = false
host_too_big (some h) = ltb 255 (length h)

-- `ValidateOpenData`
unfoldable pub validate_open_data : Option OpenData → Option Problem
validate_open_data none = some missing
validate_open_data (some d) =
    reject_if (length d.conn_id == 0) missing_conn_id
    then reject_if (length d.tunnel_id == 0) missing_tunnel_id

module _ (net : Net) where
  unfoldable pub valid_targets : List Bytes → Bool
  valid_targets [] = true
  valid_targets (t ∷ ts) = valid_target net t && valid_targets ts

  -- `ValidatePolicy`
  unfoldable pub validate_policy : Policy → Option Problem
  validate_policy p =
      reject_if (outside (pos 1) (pos 1024) p.max_tunnels) bad_max_tunnels
      then reject_if (outside (pos 1) (pos 100000) p.max_conns) bad_max_conns
      then reject_if (ltz p.bandwidth_bps (pos 0)) negative_bandwidth
      then reject_if (outside (pos 0) (pos 65536) p.udp.max_sessions) bad_max_sessions
      then reject_if (outside (pos 0) (pos 65507) p.udp.max_packet) bad_max_packet
      then reject_if (not (valid_targets p.allowed_targets)) bad_allowed_target

  -- `ValidateServerHello`
  unfoldable pub validate_server_hello : Option ServerHello → Option Problem
  validate_server_hello none = some missing
  validate_server_hello (some h) =
      reject_if (length h.session_id == 0) missing_session_id
      then validate_policy h.policy
      then validate_heartbeat h.heartbeat

  unfoldable pub forbidden : net.Ip → Bool
  forbidden ip =
      net.is_unspecified ip
      || net.is_multicast ip
      || net.is_link_local_unicast ip
      || net.is_link_local_multicast ip

  -- `validateLocalTarget`
  unfoldable pub validate_local_ip : Bytes → Option Problem
  validate_local_ip s = elim (net.parse_ip s) [
    | none ↦ reject_if (not (valid_hostname s)) bad_local_ip
    | some ip ↦ reject_if (forbidden ip) forbidden_local_ip
  ]

  unfoldable pub validate_local_target : LocalTarget → Option Problem
  validate_local_target t =
      reject_if (outside (pos 1) (pos 65535) t.port) bad_local_port then validate_local_ip t.ip

  -- `ValidateRegisterTunnel`
  unfoldable pub validate_register_tunnel : Option RegisterTunnel → Option Problem
  validate_register_tunnel none = some missing
  validate_register_tunnel (some r) =
      reject_if (not (valid_tunnel_name r.name)) bad_name
      then reject_if (not (known_kind r.kind)) bad_kind
      then reject_if (outside (pos 0) (pos 65535) r.remote_port) bad_remote_port
      then reject_if (r.kind == codes "http" && r.remote_port == pos 0 && lacks_host r.http)
          no_vhost_host
      then reject_if (r.kind == codes "https" && r.remote_port == pos 0) no_dedicated_port
      then validate_local_target r.local
      then reject_if (host_too_big r.http) host_too_long
