-- ===== src/Config/Rules.antt =====
-- internal/config/validate.go: the tests of the values of a server configuration, and the defaults
-- that are filled in before them.
use qoqtun.Prelude.{
  Bool, true, false, ◌&&◌, ◌||◌, not, Option, none, some, List, [], ◌∷◌, ◌++◌, ◌==◌, if◌then◌else◌,
  length, Bytes, codes, bytes_eq, nat_eq,
}
use qoqtun.Prelude.Int.{ℤ, pos, int_eq, ltz, lez}
use qoqtun.Prelude.Strings.{atoi, cut_first, has_byte, trim_space, to_lower}
use qoqtun.Config.Server.{ServerConfig, PolicyConfig, HeartbeatConfig}

-- The field that is refused.
pub data Invalid : Type 0 where
  state_dir control_addr enroll_addr vhost_port allowed_ports control_in_ports enroll_in_ports :
      Invalid
  max_tunnels max_conns max_conns_tunnel bandwidth bandwidth_tunnel allowed_targets : Invalid
  udp_max_sessions udp_max_packet udp_idle interval timeout miss_threshold : Invalid
  ca_validity cert_validity token_ttl log_level log_format log_file : Invalid

unfoldable pub refuse_if : Bool → Invalid → Option Invalid
refuse_if true e = some e
refuse_if false e = none

infixr 40 ◌also◌
unfoldable pub ◌also◌ : Option Invalid → Option Invalid → Option Invalid
none also q = q
some e also q = some e

-- `checkRange`
unfoldable pub check_range : ℤ → ℤ → ℤ → Invalid → Option Invalid
unfolding refuse_if
check_range v lo hi e = refuse_if (ltz v lo || ltz hi v) e

-- `parsePortRange`: "N" or "N-M".
unfoldable pub range_parts : Bytes → Option (Bytes × Bytes)
range_parts s = elim (cut_first b'-' s) [
  | none ↦ some (s, s)
  | some (lo, hi) ↦
      (if has_byte b'-' hi || length lo == 0 || length hi == 0 then none else some (lo, hi))
]

unfoldable pub checked_range : Option ℤ → Option ℤ → Option (ℤ × ℤ)
checked_range none b = none
checked_range (some a) none = none
checked_range (some a) (some b) =
    if ltz a (pos 1) || ltz (pos 65535) b || ltz b a then none else some (a, b)

unfoldable pub parse_port_range : Bytes → Option (ℤ × ℤ)
unfolding checked_range range_parts
parse_port_range s = elim (range_parts (trim_space s)) [
  | none ↦ none
  | some (lo, hi) ↦ checked_range (atoi lo) (atoi hi)
]

-- `rangeContainsPort`
abbrev pub range_contains : ℤ → ℤ → ℤ → Bool
range_contains lo hi p = lez lo p && lez p hi

-- The loop over `allowed_ports`; an enrollment port of 0 is none.
unfoldable pub check_ports : ℤ → ℤ → List Bytes → Option Invalid
check_ports ctl enroll [] = none
check_ports ctl enroll (p ∷ ps) =
    let rest = check_ports ctl enroll ps in
    elim (parse_port_range p) [
      | none ↦ some allowed_ports
      | some (lo, hi) ↦
          (if range_contains lo hi ctl
            then some control_in_ports
            else if not (enroll == pos 0) && range_contains lo hi enroll
            then some enroll_in_ports
            else rest)
    ]

-- `strings.FieldsFunc` at slashes has a "..".
unfoldable pub has_dots : Bytes → Bytes → Bool
has_dots seg [] = seg == codes ".."
has_dots seg (c ∷ s) =
    let next = seg == codes ".." || has_dots [] s in
    let more = has_dots (seg ++ c ∷ []) s in if c == b'/' || c == 92 then next else more

-- `validLogLevel` and `validLogFormat`
unfoldable pub valid_log_level : Bytes → Bool
valid_log_level l =
    let k = to_lower l in
    k == codes "debug"
    || k == codes "info"
    || k == codes "warn"
    || k == codes "warning"
    || k == codes "error"

unfoldable pub valid_log_format : Bytes → Bool
valid_log_format f = let k = to_lower f in k == codes "json" || k == codes "text" || length k == 0

abbrev pub or_default : Bytes → Bytes → Bytes
or_default s d = if length s == 0 then d else s

abbrev pub or_number : ℤ → ℤ → ℤ
or_number n d = if n == pos 0 then d else n

abbrev pub or_list : List Bytes → List Bytes → List Bytes
or_list [] d = d
or_list (e ∷ es) d = e ∷ es

-- The defaults that `ValidateServer` fills in before it looks.
unfoldable pub fill_defaults : ServerConfig → ServerConfig
fill_defaults c = record c {
  policy = record c.policy {
    allowed_ports = or_list c.policy.allowed_ports (codes "20000-29999" ∷ []);
    max_tunnels_per_client = or_number c.policy.max_tunnels_per_client (pos 16);
    max_conns_per_client = or_number c.policy.max_conns_per_client (pos 256);
    max_conns_per_tunnel = or_number c.policy.max_conns_per_tunnel (pos 128);
    allowed_targets = or_list c.policy.allowed_targets (codes "10.0.0.0/8:*" ∷ []);
    udp_max_sessions_per_tunnel = or_number c.policy.udp_max_sessions_per_tunnel (pos 256);
    udp_max_packet = or_number c.policy.udp_max_packet (pos 1500);
    udp_session_idle_timeout = or_default c.policy.udp_session_idle_timeout (codes "60s");
  };
  heartbeat = record {
    interval_s = or_number c.heartbeat.interval_s (pos 15);
    timeout_s = or_number c.heartbeat.timeout_s (pos 10);
    miss_threshold = or_number c.heartbeat.miss_threshold (pos 2);
  };
  logging = record c.logging { level = or_default c.logging.level (codes "info") };
  pki = record {
    ca_validity_years = or_number c.pki.ca_validity_years (pos 10);
    client_cert_validity_days = or_number c.pki.client_cert_validity_days (pos 90);
    token_ttl = or_default c.pki.token_ttl (codes "1h");
  };
}

unfoldable pub check_policy : PolicyConfig → Option Invalid
unfolding check_range refuse_if
check_policy p =
    check_range p.max_tunnels_per_client (pos 1) (pos 1024) max_tunnels
    also check_range p.max_conns_per_client (pos 1) (pos 100000) max_conns
    also check_range p.max_conns_per_tunnel (pos 1) (pos 100000) max_conns_tunnel
    also refuse_if (ltz p.bandwidth_bps_per_client (pos 0)) bandwidth
    also refuse_if (ltz p.bandwidth_bps_per_tunnel (pos 0)) bandwidth_tunnel

unfoldable pub check_udp : PolicyConfig → Option Invalid
unfolding check_range
check_udp p =
    check_range p.udp_max_sessions_per_tunnel (pos 1) (pos 1048576) udp_max_sessions
    also check_range p.udp_max_packet (pos 1) (pos 65507) udp_max_packet

unfoldable pub check_heartbeat : HeartbeatConfig → Option Invalid
unfolding check_range
check_heartbeat h =
    check_range h.interval_s (pos 5) (pos 300) interval
    also check_range h.timeout_s (pos 1) (pos 300) timeout
    also check_range h.miss_threshold (pos 1) (pos 100) miss_threshold

-- A port of an address.
unfoldable pub port_of_text : Bytes → Option ℤ
port_of_text s = elim (atoi s) [
  | none ↦ none
  | some p ↦ (if ltz p (pos 1) || ltz (pos 65535) p then none else some p)
]
