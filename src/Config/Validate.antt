-- ===== src/Config/Validate.antt =====
-- internal/config/validate.go: what is accepted as the configuration of a server. The parts of
-- packages net, netip, time and filepath that it calls are parameters.
pub mod Parts
pub mod Ports
pub mod Hello
use qoqtun.Prelude.{
  ℕ, Bool, true, false, ◌&&◌, ◌||◌, not, Option, none, some, List, [], ◌∷◌, ◌++◌, ◌==◌,
  if◌then◌else◌, length, Bytes, codes, bytes_eq, nat_eq, is_some, ◌*◌,
}
use qoqtun.Prelude.Int.{ℤ, pos, int_eq, ltz, lez}
use qoqtun.Prelude.Strings.{atoi, cut_first, cut_last, has_byte, trim_space, to_lower}
use qoqtun.Net.{Net}
use qoqtun.Protocol.Validate.{valid_hostname}
use qoqtun.Config.Server.{
  ServerConfig, Listen, PolicyConfig, HeartbeatConfig, PkiConfig, LoggingConfig,
}
use qoqtun.Config.Rules.{
  Invalid, refuse_if, ◌also◌, check_range, range_parts, checked_range, parse_port_range,
  range_contains, check_ports, has_dots, valid_log_level, valid_log_format, or_default, or_number,
  or_list, fill_defaults, check_policy, check_udp, check_heartbeat, port_of_text, state_dir,
  control_addr, enroll_addr, vhost_port, allowed_ports, control_in_ports, enroll_in_ports,
  max_tunnels, max_conns, max_conns_tunnel, bandwidth, bandwidth_tunnel, allowed_targets,
  udp_max_sessions, udp_max_packet, udp_idle, interval, timeout, miss_threshold, ca_validity,
  cert_validity, token_ttl, log_level, log_format, log_file,
}

pub record System : Type 0 where
  -- `net.SplitHostPort`, `netip.ParsePrefix`, `time.ParseDuration`, `filepath.IsAbs`, `Clean`
  pub split_host_port : Bytes → Option (Bytes × Bytes)
  pub is_prefix : Bytes → Bool
  pub parse_duration : Bytes → Option ℤ
  pub is_abs : Bytes → Bool
  pub clean : Bytes → Bytes

module _ (sys : System) (net : Net) where
  -- `splitHostPort`
  unfoldable pub split_addr : Bytes → Option (Bytes × ℤ)
  unfolding port_of_text
  split_addr addr = if length addr == 0 then none else elim (sys.split_host_port addr) [
    | none ↦ none
    | some (host, port) ↦ elim (port_of_text port) [ none ↦ none | some p ↦ some (host, p) ]
  ]

  -- `validHostOrIP`
  unfoldable pub valid_host_or_ip : Bytes → Bool
  valid_host_or_ip s = not (length s == 0) && (is_some (net.parse_ip s) || valid_hostname s)

  -- `validateAbsPath`
  unfoldable pub valid_abs_path : Bytes → Bool
  unfolding has_dots
  valid_abs_path p = not (length p == 0) && sys.is_abs p && not (has_dots [] p)

  -- `parseTarget`
  unfoldable pub valid_target : Bytes → Bool
  valid_target t = elim (cut_last b':' (trim_space t)) [
    | none ↦ false
    | some (cidr, ports) ↦
        not (length cidr == 0)
        && not (length ports == 0)
        && sys.is_prefix cidr
        && (ports == codes "*" || is_some (parse_port_range ports))
  ]

  unfoldable pub check_targets : List Bytes → Option Invalid
  unfolding valid_target
  check_targets [] = none
  check_targets (t ∷ ts) =
      let rest = check_targets ts in if valid_target t then rest else some allowed_targets

  -- `validLogFile`
  unfoldable pub valid_log_file : Bytes → Bool
  valid_log_file f = length f == 0 || not (length (sys.clean f) == 0 || sys.clean f == codes ".")

  unfoldable pub valid_ttl : Bytes → Bool
  valid_ttl s = elim (sys.parse_duration s) [
    | none ↦ false
    | some d ↦ ltz (pos 0) d && lez d (pos (24 * 3600 * 1000000000))
  ]

  -- An address that may be left out has port 0.
  unfoldable pub enroll_port : Bytes → Option ℤ
  unfolding split_addr valid_host_or_ip
  enroll_port addr = if length addr == 0 then some (pos 0) else elim (split_addr addr) [
    | none ↦ none
    | some (host, p) ↦ (if valid_host_or_ip host then some p else none)
  ]

  unfoldable pub control_port : Bytes → Option ℤ
  unfolding split_addr valid_host_or_ip
  control_port addr = elim (split_addr addr) [
    | none ↦ none
    | some (host, p) ↦ (if valid_host_or_ip host then some p else none)
  ]

  -- What follows the addresses.
  unfoldable pub check_rest : ℤ → ℤ → ServerConfig → Option Invalid
  unfolding refuse_if check_policy check_udp check_heartbeat check_range
  check_rest ctl enroll c =
      refuse_if
        (not (c.listen.http_vhost_port == pos 0)
          && (ltz c.listen.http_vhost_port (pos 1) || ltz (pos 65535) c.listen.http_vhost_port))
        vhost_port
      also check_ports ctl enroll c.policy.allowed_ports
      also check_policy c.policy
      also refuse_if (length c.policy.allowed_targets == 0) allowed_targets
      also check_targets c.policy.allowed_targets
      also check_udp c.policy
      also refuse_if (not (is_some (sys.parse_duration c.policy.udp_session_idle_timeout))) udp_idle
      also check_heartbeat c.heartbeat
      also check_range c.pki.ca_validity_years (pos 1) (pos 100) ca_validity
      also check_range c.pki.client_cert_validity_days (pos 1) (pos 825) cert_validity
      also refuse_if (not (valid_ttl c.pki.token_ttl)) token_ttl
      also refuse_if (not (valid_log_level c.logging.level)) log_level
      also refuse_if (not (valid_log_format c.logging.format)) log_format
      also refuse_if (not (valid_log_file c.logging.file)) log_file

  unfoldable pub check_ports_of : ServerConfig → Option Invalid
  unfolding check_rest control_port enroll_port
  check_ports_of c = elim (control_port c.listen.control_addr) [
    | none ↦ some control_addr
    | some ctl ↦ elim (enroll_port c.listen.enroll_addr) [
      | none ↦ some enroll_addr
      | some enroll ↦ check_rest ctl enroll c
    ]
  ]

  -- `ValidateServer` on a configuration whose defaults are filled in.
  unfoldable pub check_filled : ServerConfig → Option Invalid
  unfolding refuse_if check_ports_of valid_abs_path
  check_filled c = refuse_if (not (valid_abs_path c.state_dir)) state_dir also check_ports_of c

  -- `ValidateServer`: the configuration that it leaves, and what is wrong with it.
  unfoldable pub validate_server : ServerConfig → Option Invalid × ServerConfig
  unfolding check_filled fill_defaults
  validate_server c = (check_filled (fill_defaults c), fill_defaults c)
