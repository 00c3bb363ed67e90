-- ===== src/Config/Client/Registers.antt =====
-- internal/config/validate.go and internal/protocol/validate.go: the tunnels of an accepted
-- configuration of a client against what the server validates.
use qoqtun.Prelude.{
  ◌≡◌, refl, Bool, true, false, ◌&&◌, ◌||◌, not, Option, none, some, List, [], ◌∷◌, ◌++◌, arith,
  ◌==◌, nat_eq, bytes_eq, length, Bytes, codes, Option-cases, inl, inr, leb,
}
use qoqtun.Prelude.Int.{ℤ, pos, negsuc, int_eq, ltz, int_beq}
use qoqtun.Net.{Net}
use qoqtun.Protocol.Validate.{
  ◌then◌, reject_if, validate_register_tunnel, validate_local_target, validate_local_ip,
  valid_hostname, valid_tunnel_name, known_kind, lacks_host, host_too_big, forbidden, outside,
}
use qoqtun.Client.Requests.{spec_of, request_of}
use qoqtun.Config.Validate.{System}
use qoqtun.Config.Client.{
  Floats, ClientConfig, TunnelConfig, Refused, tunnel_name, reject_when, ◌next◌, check_kind,
  valid_local_ip, check_tunnel, check_tunnels, check_client, validate_client, fill_client_defaults,
}
use native.Mathlib.Omega.{arith}

next-then : (p q : Option Refused) → (p next q) ≡ none → q ≡ none
unfolding ◌next◌
next-then none q h = h
next-then (some e) q h = ground arith

next-first : (p q : Option Refused) → (p next q) ≡ none → p ≡ none
unfolding ◌next◌
next-first none q h = refl
next-first (some e) q h = ground arith

name_valid : (b : Bool) → reject_when (not b) tunnel_name ≡ none → b ≡ true
unfolding reject_when
name_valid true h = refl
name_valid false h = ground arith

host_fits : (h : Bytes) → valid_hostname h ≡ true → leb (length h) 253 ≡ true
unfolding valid_hostname
host_fits h ok = ground arith

nonzero : (p : ℤ) → ltz p (pos 1) ≡ false → int_beq p (pos 0) ≡ false
unfolding int_beq
nonzero (pos n) h = ground arith
nonzero (negsuc n) h = ground arith

zero_inside : (p : ℤ) → int_beq p (pos 0) ≡ true → outside (pos 0) (pos 65535) p ≡ false
unfolding int_beq
zero_inside (pos n) h = ground arith
zero_inside (negsuc n) h = ground arith

one_inside :
    (p : ℤ) → (ltz p (pos 1) || ltz (pos 65535) p) ≡ false → outside (pos 0) (pos 65535) p ≡ false
one_inside (pos n) h = ground arith
one_inside (negsuc n) h = ground arith

kind-accepted :
    (t : TunnelConfig)
    → check_kind t ≡ none
    → (known_kind t.kind ≡ true)
      × (outside (pos 0) (pos 65535) t.remote_port ≡ false)
      × ((t.kind == codes "http"
            && t.remote_port == pos 0
            && lacks_host (request_of (spec_of t)).http)
          ≡ false)
      × ((t.kind == codes "https" && t.remote_port == pos 0) ≡ false)
unfolding check_kind ◌next◌ reject_when known_kind lacks_host request_of spec_of
kind-accepted t ok =
    ground (arith, nonzero t.remote_port, zero_inside t.remote_port, one_inside t.remote_port)

module _ (sys : System) (net : Net) where
  local_ip-accepted :
      (s : Bytes)
      → ((ip : net.Ip) → net.is_link_local_multicast ip ≡ true → net.is_multicast ip ≡ true)
      → valid_local_ip sys net s ≡ true
      → validate_local_ip net s ≡ none
  unfolding valid_local_ip validate_local_ip forbidden reject_if
  local_ip-accepted s sub ok = elim (Option-cases (net.parse_ip s)) [
    | inl name ↦ ground (arith, name)
    | inr (ip, address) ↦ ground (arith, sub ip, address)
  ]

  -- A tunnel that passes makes a request that passes.
  tunnel-accepted :
      (t : TunnelConfig)
      → ((ip : net.Ip) → net.is_link_local_multicast ip ≡ true → net.is_multicast ip ≡ true)
      → valid_tunnel_name t.name ≡ true
      → check_tunnel sys net t ≡ none
      → validate_register_tunnel net (some (request_of (spec_of t))) ≡ none
  unfolding check_tunnel check_kind ◌next◌ reject_when validate_register_tunnel request_of spec_of
      ◌then◌ reject_if known_kind lacks_host host_too_big validate_local_target
  tunnel-accepted t sub name ok =
      let (known, inside, host, dedicated) = kind-accepted t (next-first _ _ ok) in
      let address = local_ip-accepted t.local_ip sub in
      ground (arith, known, inside, host, dedicated, address, host_fits t.http_host)

  tunnels-checked :
      (front back : List TunnelConfig) (t : TunnelConfig) (seen : List Bytes)
      → check_tunnels sys net seen (front ++ t ∷ back) ≡ none
      → (valid_tunnel_name t.name ≡ true) × (check_tunnel sys net t ≡ none)
  unfolding check_tunnels
  tunnels-checked [] back t seen ok =
      (name_valid _ (next-first _ _ ok), next-first _ _ (next-then _ _ (next-then _ _ ok)))
  tunnels-checked (s ∷ front) back t seen ok =
      tunnels-checked front back t (s.name ∷ seen)
        (next-then _ _ (next-then _ _ (next-then _ _ ok)))

  client-checked :
      (floats : Floats) (c : ClientConfig floats.Float)
      → check_client sys net floats c ≡ none
      → check_tunnels sys net [] c.tunnels ≡ none
  unfolding check_client
  client-checked floats c ok = next-then _ _ (
      next-then _ _ (
        next-then _ _
          (next-then _ _ (next-then _ _ (next-then _ _ (next-then _ _ (next-then _ _ ok)))))))

  -- Each tunnel of an accepted configuration of a client makes a request that passes the
  -- validation of the server, if every link-local multicast address is a multicast address.
  pub accepted-registers :
      (floats : Floats) (c : ClientConfig floats.Float) (front back : List TunnelConfig)
      (t : TunnelConfig)
      → ((ip : net.Ip) → net.is_link_local_multicast ip ≡ true → net.is_multicast ip ≡ true)
      → (validate_client sys net floats c).0 ≡ none
      → (validate_client sys net floats c).1.tunnels ≡ front ++ t ∷ back
      → validate_register_tunnel net (some (request_of (spec_of t))) ≡ none
  unfolding validate_client
  accepted-registers floats c front back t sub ok listed =
      let all = client-checked floats (fill_client_defaults floats c) ok in
      let (name, good) = tunnels-checked front back t [] (rw listed at all) in
      tunnel-accepted t sub name good
