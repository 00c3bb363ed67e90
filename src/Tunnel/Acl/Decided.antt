-- ===== src/Tunnel/Acl/Decided.antt =====
-- internal/tunnel/acl.go: what the access list decides, and where it differs from the validation of
-- the policy in internal/protocol/validate.go.
use qoqtun.Prelude.{
  ℕ, ◌≤◌, ◌<◌, ◌≡◌, refl, Bool, true, false, ◌&&◌, ◌||◌, Option, none, some, List, [], ◌∷◌, ◌++◌,
  arith, if◌then◌else◌, ◌==◌, nat_eq, Bytes, codes, bytes_eq, length, is_some, bytes_beq, ap,
  Bool-cases, Option-cases, inl, inr, ==_eq, ◌⊎◌, length-append, ==_sym,
}
use qoqtun.Prelude.Int.{ℤ, pos, negsuc, int_eq, ◌≤ℤ◌}
use qoqtun.Prelude.Strings.{
  has_byte, cut_first, cut_last, atoi, decimal, is_digit, unsigned, with_sign, digits_value,
}
use qoqtun.Prelude.Decimal.{
  all_digits-decimal, has_byte-digits, has_byte-append, cut_first-append, cut_last-append,
  atoi-decimal,
}
use qoqtun.Net.{Net}
use qoqtun.Protocol.Ranges.{
  parse_port_range, valid_target, scan_int, skip_space, scan_number, leading_digits, scan_range,
  check_range, bad_range,
}
use qoqtun.Protocol.Ranges.Parsed.{parse_port_range-decimal}
use qoqtun.Tunnel.Acl.{
  TargetRule, parse_network, bad_ports, checked_ports, parse_ports, rule_of, parse_target,
  parse_targets, rule_allows, allows, targets_allow,
}

module _ (net : Net) where
  unfoldable pub all_parse : List Bytes → Bool
  all_parse [] = true
  all_parse (e ∷ es) = is_some (parse_target net e) && all_parse es

  unfoldable pub entry_allows : Bytes → net.Ip → ℤ → Bool
  entry_allows e ip port = elim (parse_target net e) [
    | none ↦ false
    | some r ↦ rule_allows net r ip port
  ]

  unfoldable pub some_allows : List Bytes → net.Ip → ℤ → Bool
  some_allows [] ip port = false
  some_allows (e ∷ es) ip port = entry_allows e ip port || some_allows es ip port

  parse_targets-all : (es : List Bytes) → is_some (parse_targets net es) ≡ all_parse es
  unfolding parse_targets all_parse
  parse_targets-all [] = refl
  parse_targets-all (e ∷ es) = elim (Option-cases (parse_targets net es)) [
    | inl bad ↦ ground (arith, parse_targets-all es)
    | inr (rs, good) ↦ ground (arith, parse_targets-all es)
  ]

  allows-some :
      (es : List Bytes) (rs : List (TargetRule net)) (ip : net.Ip) (port : ℤ)
      → parse_targets net es ≡ some rs
      → allows net rs ip port ≡ some_allows es ip port
  unfolding parse_targets allows some_allows entry_allows
  allows-some [] rs ip port h = ground arith
  allows-some (e ∷ es) rs ip port h = elim (Option-cases (parse_targets net es)) [
    | inl bad ↦ ground arith
    | inr (rs', good) ↦ ground (arith, allows-some es rs' ip port good)
  ]

  -- A target is admitted exactly if every entry of the list parses and some entry, on its own,
  -- admits the address and the port: one bad entry denies everything.
  pub targets_allow_decided :
      (es : List Bytes) (ip : net.Ip) (port : ℤ)
      → targets_allow net es ip port ≡ (all_parse es && some_allows es ip port)
  unfolding targets_allow
  targets_allow_decided es ip port = elim (Option-cases (parse_targets net es)) [
    | inl bad ↦ ground (arith, parse_targets-all es)
    | inr (rs, good) ↦ ground (arith, parse_targets-all es, allows-some es rs ip port good)
  ]

  checked_ports_bounds :
      (a b : Option ℤ) (lo hi : ℤ)
      → checked_ports net a b ≡ some (lo, hi)
      → (pos 1 ≤ℤ lo) × (lo ≤ℤ hi) × (hi ≤ℤ pos 65535)
  unfolding checked_ports bad_ports
  checked_ports_bounds (some a) (some b) lo hi e = ground arith
  checked_ports_bounds (some a) none lo hi e = ground arith
  checked_ports_bounds none b lo hi e = ground arith

  parse_ports_bounds :
      (s : Bytes) (lo hi : ℤ)
      → parse_ports net s ≡ some (lo, hi)
      → (s == codes "*") ≡ false
      → (pos 1 ≤ℤ lo) × (lo ≤ℤ hi) × (hi ≤ℤ pos 65535)
  unfolding parse_ports
  parse_ports_bounds s lo hi e ne = elim (Option-cases (cut_first b'-' s)) [
    | inl whole ↦ ground (arith, checked_ports_bounds (atoi s) (atoi s) lo hi)
    | inr ((l, r), parts) ↦ ground (arith, checked_ports_bounds (atoi l) (atoi r) lo hi)
  ]

  not_star : (s : Bytes) → has_byte 42 s ≡ false → (s == codes "*") ≡ false
  unfolding has_byte
  not_star s h = elim (Bool-cases (s == codes "*")) [
    | inl e ↦ ground (arith, ap (has_byte 42) (==_eq s (codes "*") e))
    | inr e ↦ e
  ]

  no_byte : (b n : ℕ) → is_digit b ≡ false → has_byte b (decimal n) ≡ false
  no_byte b n h = has_byte-digits b (decimal n) h (all_digits-decimal n)

  -- The text of a range holds no byte but digits and the dash.
  range_text :
      (b lo hi : ℕ)
      → is_digit b ≡ false
      → (b == b'-') ≡ false
      → has_byte b (decimal lo ++ b'-' ∷ decimal hi) ≡ false
  unfolding has_byte
  range_text b lo hi d ne = ground (
    arith,
    has_byte-append b (decimal lo) (b'-' ∷ decimal hi),
    no_byte b lo d,
    no_byte b hi d,
    ==_sym b b'-',
  )

  dash_range :
      (lo hi : ℕ)
      → 1 ≤ lo
      → lo ≤ hi
      → hi ≤ 65535
      → parse_ports net (decimal lo ++ b'-' ∷ decimal hi) ≡ some (pos lo, pos hi)
  unfolding parse_ports checked_ports bad_ports
  dash_range lo hi a b c =
      rw
        (
          parse_ports,
          not_star (decimal lo ++ b'-' ∷ decimal hi) (range_text 42 lo hi refl refl),
          cut_first-append b'-' (decimal lo) (decimal hi) (no_byte b'-' lo refl),
          atoi-decimal lo (omega arith),
          atoi-decimal hi (omega arith),
        )
        (ground arith)

  parse_network-cidr :
      (cidr : Bytes) (n : net.Network)
      → net.parse_cidr cidr ≡ some n
      → parse_network net cidr ≡ some n
  unfolding parse_network
  parse_network-cidr cidr n h = rw (parse_network, h) refl

  -- A policy entry of a network and a range of ports passes the validation of the policy, and the
  -- access list reads it as that network and that range.
  pub target_agrees :
      (cidr : Bytes) (n : net.Network) (lo hi : ℕ)
      → 0 < length cidr
      → net.parse_cidr cidr ≡ some n
      → 1 ≤ lo
      → lo ≤ hi
      → hi ≤ 65535
      → (valid_target net (cidr ++ b':' ∷ (decimal lo ++ b'-' ∷ decimal hi)) ≡ true)
        × (parse_target net (cidr ++ b':' ∷ (decimal lo ++ b'-' ∷ decimal hi))
            ≡ some (record { network = n; port_lo = pos lo; port_hi = pos hi }))
  unfolding valid_target parse_target rule_of
  target_agrees cidr n lo hi some_cidr h a b c =
      let ports = decimal lo ++ b'-' ∷ decimal hi in
      let cut = cut_last-append b':' cidr ports (range_text b':' lo hi refl refl) in
      let filled : 0 < length ports =
        omega (arith, length-append (decimal lo) (b'-' ∷ decimal hi)) in
      (
        rw (valid_target, cut, h, (parse_port_range-decimal lo hi a b c).0) (ground arith),
        rw (parse_target, cut, parse_network-cidr cidr n h, dash_range lo hi a b c) (ground arith),
      )

  abbrev pub IsPortRange : ℤ → ℤ → Type 0
  IsPortRange lo hi =
      ((lo ≡ pos 1) × (hi ≡ negsuc 0)) ⊎ ((pos 1 ≤ℤ lo) × (lo ≤ℤ hi) × (hi ≤ℤ pos 65535))

  parse_ports_range :
      (s : Bytes) (lo hi : ℤ) → parse_ports net s ≡ some (lo, hi) → IsPortRange lo hi
  parse_ports_range s lo hi e = elim (Bool-cases (s == codes "*")) [
    | inl star ↦ inl (unfold parse_ports in ground arith)
    | inr range ↦ inr (parse_ports_bounds s lo hi e range)
  ]

  rule_of_range :
      (n : Option net.Network) (p : Option (ℤ × ℤ)) (r : TargetRule net)
      → rule_of net n p ≡ some r
      → p ≡ some (r.port_lo, r.port_hi)
  unfolding rule_of
  rule_of_range (some n) (some (lo, hi)) r h = ground arith
  rule_of_range (some n) none r h = ground arith
  rule_of_range none p r h = ground arith

  -- A rule that parses admits any port, or a range that lies within the ports.
  pub parse_target_bounds :
      (e : Bytes) (r : TargetRule net)
      → parse_target net e ≡ some r
      → IsPortRange r.port_lo r.port_hi
  unfolding parse_target
  parse_target_bounds e r h = elim (Option-cases (cut_last b':' e)) [
    | inl none_cut ↦ ground arith
    | inr ((cidr, ports), cut) ↦
        parse_ports_range ports r.port_lo r.port_hi
          (rule_of_range (parse_network net cidr) (parse_ports net ports) r (ground arith))
  ]

  parse_target-trailing : (cidr : Bytes) → parse_target net (cidr ++ codes ":80x") ≡ none
  unfolding parse_target parse_ports checked_ports rule_of has_byte bytes_beq cut_first atoi
  parse_target-trailing cidr =
      rw (parse_target, cut_last-append b':' cidr (codes "80x") refl)
        (by_network (parse_network net cidr))
    where
      by_network :
          (n : Option net.Network)
          → (if length cidr == 0 || false then none else rule_of net n none) ≡ none
      by_network none = ground arith
      by_network (some n) = ground arith

  scanned : parse_port_range (codes "80x") ≡ some (pos 80, pos 80)
  unfolding parse_port_range scan_int skip_space scan_number leading_digits scan_range check_range
      bad_range cut_first unsigned with_sign digits_value
  scanned = refl

  -- An entry whose port is followed by other text passes the validation of the policy, which reads
  -- a number and leaves the rest; the access list refuses it, and with it every target of the list.
  pub trailing_text_denies :
      (cidr : Bytes) (n : net.Network) (es : List Bytes) (ip : net.Ip) (port : ℤ)
      → 0 < length cidr
      → net.parse_cidr cidr ≡ some n
      → (valid_target net (cidr ++ codes ":80x") ≡ true)
        × (targets_allow net ((cidr ++ codes ":80x") ∷ es) ip port ≡ false)
  unfolding valid_target all_parse has_byte
  trailing_text_denies cidr n es ip port some_cidr h = (
    rw (valid_target, cut_last-append b':' cidr (codes "80x") refl, h) (ground (arith, scanned)),
    ground (
      arith,
      targets_allow_decided ((cidr ++ codes ":80x") ∷ es) ip port,
      parse_target-trailing cidr,
    ),
  )
