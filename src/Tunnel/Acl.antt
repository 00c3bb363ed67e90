-- ===== src/Tunnel/Acl.antt =====
-- internal/tunnel/acl.go: the targets that a client's tunnels may reach.
pub mod Decided
use qoqtun.Prelude.{
  zero, suc, Bool, false, ◌&&◌, ◌||◌, Option, none, some, List, [], ◌∷◌, ◌++◌, if◌then◌else◌, ◌==◌,
  nat_eq, Bytes, codes, bytes_eq, length,
}
use qoqtun.Prelude.Int.{ℤ, pos, negsuc, ltz, lez, int_eq}
use qoqtun.Prelude.Strings.{cut_first, cut_last, atoi, decimal}
use qoqtun.Net.{Net}

-- `targetRule`; the port -1 stands for any.
pub record TargetRule (net : Net) : Type 0 where
  pub network : net.Network
  pub port_lo : ℤ
  pub port_hi : ℤ

module _ (net : Net) where
  -- The network of the part before the port; a bare IP is its own network.
  unfoldable pub parse_network : Bytes → Option net.Network
  parse_network cidr = elim (net.parse_cidr cidr) [
    | some n ↦ some n
    | none ↦ elim (net.parse_ip cidr) [
      | none ↦ none
      | some ip ↦
          net.parse_cidr (net.ip_string ip ++ b'/' ∷ decimal (if net.is_v4 ip then 32 else 128))
    ]
  ]

  unfoldable pub bad_ports : ℤ → ℤ → Bool
  bad_ports lo hi = ltz lo (pos 1) || ltz (pos 65535) hi || ltz hi lo

  unfoldable pub checked_ports : Option ℤ → Option ℤ → Option (ℤ × ℤ)
  checked_ports (some lo) (some hi) = if bad_ports lo hi then none else some (lo, hi)
  checked_ports _ _ = none

  -- The part after the last colon.
  unfoldable pub parse_ports : Bytes → Option (ℤ × ℤ)
  parse_ports s = if s == codes "*" then some (pos 1, negsuc 0) else elim (cut_first b'-' s) [
    | some (l, r) ↦ checked_ports (atoi l) (atoi r)
    | none ↦ checked_ports (atoi s) (atoi s)
  ]

  unfoldable pub rule_of : Option net.Network → Option (ℤ × ℤ) → Option (TargetRule net)
  rule_of (some n) (some (lo, hi)) = some (record { network = n; port_lo = lo; port_hi = hi })
  rule_of _ _ = none

  -- `parseTarget`
  unfoldable pub parse_target : Bytes → Option (TargetRule net)
  parse_target s = elim (cut_last b':' s) [
    | none ↦ none
    | some (cidr, port_spec) ↦
        (if length cidr == 0 || length port_spec == 0
          then none
          else rule_of (parse_network cidr) (parse_ports port_spec))
  ]

  -- `ParseTargets`
  unfoldable pub parse_targets : List Bytes → Option (List (TargetRule net))
  parse_targets [] = some []
  parse_targets (e ∷ es) = elim (parse_target e) [
    | none ↦ none
    | some r ↦ elim (parse_targets es) [ none ↦ none | some rs ↦ some (r ∷ rs) ]
  ]

  -- The test of one rule in `Allows`.
  unfoldable pub rule_allows : TargetRule net → net.Ip → ℤ → Bool
  rule_allows r ip port =
      net.contains r.network ip
      && (r.port_hi == negsuc 0 || (lez r.port_lo port && lez port r.port_hi))

  -- `Allows`
  unfoldable pub allows : List (TargetRule net) → net.Ip → ℤ → Bool
  allows [] ip port = false
  allows (r ∷ rs) ip port = rule_allows r ip port || allows rs ip port

  -- `TargetsAllow`
  unfoldable pub targets_allow : List Bytes → net.Ip → ℤ → Bool
  targets_allow entries ip port = elim (parse_targets entries) [
    | none ↦ false
    | some rules ↦ allows rules ip port
  ]
