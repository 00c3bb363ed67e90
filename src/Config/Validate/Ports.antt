-- ===== src/Config/Validate/Ports.antt =====
-- internal/config/validate.go: the ports that an accepted configuration leaves to clients, as
-- `portAllowed` of internal/tunnel/server.go reads them.
use qoqtun.Prelude.{
  Bool, true, false, ◌&&◌, ◌||◌, not, Option, none, some, List, [], ◌∷◌, ◌==◌, if◌then◌else◌,
  length, Bytes, codes, bytes_eq, bytes_beq_iff, nat_eq, Bool-cases,
}
use qoqtun.Prelude.Int.{ℤ, pos, int_eq, int_beq_iff, lez}
use qoqtun.Prelude.Strings.{atoi, cut_first, has_byte, trim_space, space_size, trim_join}
use qoqtun.Prelude.Trim.{atoi-solid, cut_first-solid, trim_space-solid}
use qoqtun.Tunnel.Manager.{entry_allows, port_allowed}
use qoqtun.Net.{Net}
use qoqtun.Config.Server.{ServerConfig}
use qoqtun.Config.Rules.{
  Invalid, fill_defaults, allowed_ports, control_in_ports, enroll_in_ports, parse_port_range,
  range_parts, checked_range, range_contains, check_ports,
}
use qoqtun.Config.Validate.{
  System, check_filled, check_ports_of, control_port, enroll_port, validate_server, check_rest,
}
use qoqtun.Config.Validate.Parts.{also-first, also-then}
use mathlib.Core.Path.{◌≡◌, refl}
use mathlib.Core.Logic.{inl, inr}
use native.Mathlib.Omega.{arith}

checked_range-same :
    (a b lo hi : ℤ) (port : ℤ)
    → checked_range (some a) (some b) ≡ some (lo, hi)
    → range_contains a b port ≡ true
    → range_contains lo hi port ≡ true
unfolding checked_range
checked_range-same a b lo hi port h k = ground (arith)

entry_pair-agrees :
    (e l r : Bytes) (a b lo hi port : ℤ)
    → cut_first b'-' e ≡ some (l, r)
    → atoi l ≡ some a
    → atoi r ≡ some b
    → range_contains a b port ≡ true
    → parse_port_range e ≡ some (lo, hi)
    → range_contains lo hi port ≡ true
unfolding parse_port_range range_parts
entry_pair-agrees e l r a b lo hi port c al ar k h =
    let solid = cut_first-solid b'-' e l r refl c (atoi-solid l a al) (atoi-solid r b ar) in
    let p = rw (parse_port_range, range_parts, trim_space-solid e solid, c) at h in
    elim (Bool-cases (has_byte b'-' r || length l == 0 || length r == 0)) [
      | inl bad ↦ let q = rw bad at p in ground arith
      | inr good ↦ let q = rw (good, al, ar) at p in checked_range-same a b lo hi port q k
    ]

entry_one-agrees :
    (e : Bytes) (lo hi port : ℤ)
    → cut_first b'-' e ≡ none
    → atoi e ≡ some port
    → parse_port_range e ≡ some (lo, hi)
    → range_contains lo hi port ≡ true
unfolding parse_port_range range_parts
entry_one-agrees e lo hi port c al h =
    let trim = trim_space-solid e (atoi-solid e port al) in
    let p = rw (parse_port_range, range_parts, trim, c, trim, al) at h in
    checked_range-same port port lo hi port p (ground arith)

star-refused : parse_port_range (codes "*") ≡ none
unfolding parse_port_range cut_first trim_space space_size trim_join atoi
star-refused = refl

-- A range that validation reads is the one that `portAllowed` reads.
pub entry-agrees :
    (e : Bytes) (lo hi port : ℤ)
    → parse_port_range e ≡ some (lo, hi)
    → entry_allows e port ≡ true
    → range_contains lo hi port ≡ true
unfolding entry_allows
entry-agrees e lo hi port h k = elim (Bool-cases (e == codes "*")) [
  | inl any ↦
      let star = (bytes_beq_iff e (codes "*")).0 any in
      let none_some : none ≡ some (lo, hi) = rw (star, star-refused) at h in ground arith
  | inr range ↦ by_cut (cut_first b'-' e) refl (rw (entry_allows, range) at k)
]
  where
    by_cut :
        (o : Option (Bytes × Bytes))
        → cut_first b'-' e ≡ o
        → (elim o as (λ x. Bool) [
          | some (l, r) ↦ elim (atoi l) [
            | none ↦ false
            | some a ↦ elim (atoi r) [ none ↦ false | some b ↦ lez a port && lez port b ]
          ]
          | none ↦ elim (atoi e) [ none ↦ false | some p ↦ p == port ]
        ])
          ≡ true
        → range_contains lo hi port ≡ true
    by_cut none c t = by_one (atoi e) refl t
      where
        by_one :
            (o : Option ℤ)
            → atoi e ≡ o
            → (elim o as (λ x. Bool) [ none ↦ false | some p ↦ p == port ]) ≡ true
            → range_contains lo hi port ≡ true
        by_one none al t = ground arith
        by_one (some p) al t =
            entry_one-agrees e lo hi port c (rw ((int_beq_iff p port).0 t) at al) h
    by_cut (some (l, r)) c t = by_two (atoi l) (atoi r) refl refl t
      where
        by_two :
            (x y : Option ℤ)
            → atoi l ≡ x
            → atoi r ≡ y
            → (elim x as (λ x. Bool) [
              | none ↦ false
              | some a ↦ elim y as (λ x. Bool) [ none ↦ false | some b ↦ lez a port && lez port b ]
            ])
              ≡ true
            → range_contains lo hi port ≡ true
        by_two none y al ar t = ground arith
        by_two (some a) none al ar t = ground arith
        by_two (some a) (some b) al ar t = entry_pair-agrees e l r a b lo hi port c al ar t h

-- An accepted list of ports lets no client have a port that the ranges are checked for.
check_ports-outside :
    (ctl enroll port : ℤ) (ps : List Bytes)
    → ((lo hi : ℤ)
        → (range_contains lo hi ctl || not (enroll == pos 0) && range_contains lo hi enroll) ≡ false
        → range_contains lo hi port ≡ false)
    → check_ports ctl enroll ps ≡ none
    → port_allowed ps port ≡ false
unfolding check_ports port_allowed
check_ports-outside ctl enroll port [] out h = refl
check_ports-outside ctl enroll port (p ∷ ps) out h =
    by_range (parse_port_range p) refl h (check_ports-outside ctl enroll port ps out)
  where
    by_range :
        (o : Option (ℤ × ℤ))
        → parse_port_range p ≡ o
        → (elim o as (λ x. Option Invalid) [
          | none ↦ some allowed_ports
          | some (lo, hi) ↦
              (if range_contains lo hi ctl
                then some control_in_ports
                else if not (enroll == pos 0) && range_contains lo hi enroll
                then some enroll_in_ports
                else check_ports ctl enroll ps)
        ])
          ≡ none
        → (check_ports ctl enroll ps ≡ none → port_allowed ps port ≡ false)
        → port_allowed (p ∷ ps) port ≡ false
    by_range none e t ih = ground arith
    by_range (some (lo, hi)) e t ih = elim (Bool-cases (entry_allows p port)) [
      | inl has ↦
          let inside = entry-agrees p lo hi port e has in
          let outside = out lo hi (ground arith) in ground arith
      | inr lacks ↦ ground (arith, ih)
    ]

module _ (sys : System) (net : Net) where
  check_rest-ports :
      (ctl enroll : ℤ) (c : ServerConfig)
      → check_rest sys net ctl enroll c ≡ none
      → check_ports ctl enroll c.policy.allowed_ports ≡ none
  unfolding check_rest
  check_rest-ports ctl enroll c h = also-first _ _ (also-then _ _ h)

  accepted-rest :
      (ctl enroll : ℤ) (c : ServerConfig)
      → check_filled sys net c ≡ none
      → control_port sys net c.listen.control_addr ≡ some ctl
      → enroll_port sys net c.listen.enroll_addr ≡ some enroll
      → check_rest sys net ctl enroll c ≡ none
  unfolding check_filled check_ports_of
  accepted-rest ctl enroll c h cp ep =
      let rest : check_ports_of sys net c ≡ none = also-then _ _ h in
      rw (check_ports_of, cp, ep) at rest

  -- When a configuration is accepted, the policy that it is left with allows no client the port
  -- of the control listener, nor that of the enrollment listener if it has one.
  pub validated-reserves :
      (c : ServerConfig) (ctl enroll : ℤ)
      → (validate_server sys net c).0 ≡ none
      → control_port sys net c.listen.control_addr ≡ some ctl
      → enroll_port sys net c.listen.enroll_addr ≡ some enroll
      → (port_allowed (validate_server sys net c).1.policy.allowed_ports ctl ≡ false)
        × (enroll == pos 0
              || not (port_allowed (validate_server sys net c).1.policy.allowed_ports enroll)
            ≡ true)
  unfolding validate_server fill_defaults
  validated-reserves c ctl enroll h cp ep =
      let ports =
        check_rest-ports ctl enroll (fill_defaults c)
          (accepted-rest ctl enroll (fill_defaults c) h cp ep) in
      (
        check_ports-outside ctl enroll ctl _ (λ lo hi o. ground arith) ports,
        elim (Bool-cases (enroll == pos 0)) [
          | inl without ↦ ground arith
          | inr with ↦
              let outside =
                check_ports-outside ctl enroll enroll _ (λ lo hi o. ground arith) ports in
              ground (arith, outside)
        ],
      )
