-- ===== src/Tunnel/Manager/Ports.antt =====
-- internal/tunnel/server.go: what registration and removal do to ports and connections.
use qoqtun.Prelude.{
  suc, ◌≡◌, refl, Bool, true, not, none, some, List, [], ◌∷◌, arith, if◌then◌else◌, ◌==◌, nat_eq,
  Bytes, bytes_eq, inl, inr, ◌⊎◌, ◌↔◌, codes, length, Bool-cases, Option-cases, ==_eq, ==_refl,
  ◌&&◌,
}
use qoqtun.Prelude.Int.{ℤ, pos, int_eq, ◌≤ℤ◌, ◌<ℤ◌, lez}
use qoqtun.Prelude.Strings.{cut_first, atoi}
use qoqtun.Prelude.Maps.{lookup, lookup-insert, lookup-delete, lookup-retain}
use qoqtun.Tunnel.Manager.{
  Tunnel, Manager, port_allowed, entry_allows, tunnel_name, RegisterError, listen_failed, ok, err,
  at_limit, valid_port, fresh_tunnel, register, unregister, tunnel_by_id,
}
use qoqtun.Tunnel.Manager.Invariant.{IsValid}
use qoqtun.Tunnel.Manager.Steps.{register_cases}

-- An entry of the policy covers a port: it is "*", or its one number is the port, or the port is
-- between its two.
abbrev pub EntryCovers : Bytes → ℤ → Type 0
EntryCovers e port =
    (e ≡ codes "*")
    ⊎ ((cut_first b'-' e ≡ none) × (atoi e ≡ some port))
    ⊎ ((l : Bytes) × (r : Bytes) × (lo : ℤ) × (hi : ℤ) × (cut_first b'-' e ≡ some (l, r))
        × (atoi l ≡ some lo)
        × (atoi r ≡ some hi)
        × (lo ≤ℤ port)
        × (port ≤ℤ hi))

-- Some entry covers it.
abbrev pub Covers : List Bytes → ℤ → Type 0
Covers [] port = ⊥
Covers (e ∷ es) port = EntryCovers e port ⊎ Covers es port

entry_covers : (e : Bytes) (port : ℤ) → entry_allows e port ≡ true → EntryCovers e port
unfolding entry_allows
entry_covers e port h = elim (Bool-cases (e == codes "*")) [
  | inl any ↦ inl (==_eq e (codes "*") any)
  | inr named ↦ elim (Option-cases (cut_first b'-' e)) [
    | inl one ↦ elim (Option-cases (atoi e)) [
      | inl bad ↦ ground (arith, rw (entry_allows, named, one, bad) at h)
      | inr (p, number) ↦
          let q : (p == port) ≡ true = rw (entry_allows, named, one, number) at h in
          inr (inl (one, rw (==_eq p port q) at number))
    ]
    | inr ((l, r), range) ↦ elim (Option-cases (atoi l)) [
      | inl bad ↦ ground (arith, rw (entry_allows, named, range, bad) at h)
      | inr (lo, low) ↦ elim (Option-cases (atoi r)) [
        | inl bad ↦ ground (arith, rw (entry_allows, named, range, low, bad) at h)
        | inr (hi, high) ↦
            let q : (lez lo port && lez port hi) ≡ true =
              rw (entry_allows, named, range, low, high) at h in
            inr (inr (l, r, lo, hi, range, low, high, ground (arith, q), ground (arith, q)))
      ]
    ]
  ]
]

entry_allows-covered : (e : Bytes) (port : ℤ) → EntryCovers e port → entry_allows e port ≡ true
unfolding entry_allows
entry_allows-covered e port (inl any) = rw (any, entry_allows, ==_refl (codes "*")) refl
entry_allows-covered e port (inr (inl (one, number))) = elim (Bool-cases (e == codes "*")) [
  | inl any ↦ rw (entry_allows, any) refl
  | inr named ↦ rw (entry_allows, named, one, number) (==_refl port)
]
entry_allows-covered e port (inr (inr (l, r, lo, hi, range, low, high, le, ge))) =
    elim (Bool-cases (e == codes "*")) [
      | inl any ↦ rw (entry_allows, any) refl
      | inr named ↦ rw (entry_allows, named, range, low, high) (ground arith)
    ]

covers : (es : List Bytes) (port : ℤ) → port_allowed es port ≡ true → Covers es port
unfolding port_allowed
covers [] port h = ground (arith, h)
covers (e ∷ es) port h = elim (Bool-cases (entry_allows e port)) [
  | inl own ↦ inl (entry_covers e port own)
  | inr other ↦ inr (covers es port (ground (arith, h, other)))
]

port_allowed-covered : (es : List Bytes) (port : ℤ) → Covers es port → port_allowed es port ≡ true
unfolding port_allowed
port_allowed-covered [] port c = elim c [ ]
port_allowed-covered (e ∷ es) port (inl own) = rw (entry_allows-covered e port own) refl
port_allowed-covered (e ∷ es) port (inr rest) = ground (arith, port_allowed-covered es port rest)

-- `register` succeeds exactly if the client has fewer tunnels than its limit, where there is one,
-- the port is between 1 and 65535, an entry of the policy covers it, no tunnel of this manager holds
-- it, and the listener starts.
pub register_iff :
    (m : Manager) (name typ : Bytes) (port : ℤ) (allowed : List Bytes) (max_tunnels : ℤ)
    (listens : Bool)
    → ((register m name typ port allowed max_tunnels listens).0
        ≡ ok (fresh_tunnel m name typ port []))
      ↔ ((pos 0 <ℤ max_tunnels → pos (length m.tunnels) <ℤ max_tunnels)
          × (pos 1 ≤ℤ port)
          × (port ≤ℤ pos 65535)
          × Covers allowed port
          × (lookup port m.ports ≡ none)
          × (listens ≡ true))
unfolding register at_limit valid_port
register_iff m name typ port allowed max_tunnels listens = (
  λ e. (
    ground arith,
    ground arith,
    ground arith,
    covers allowed port (ground arith),
    ground arith,
    ground arith,
  ),
  λ h. ground (arith, port_allowed-covered allowed port h.3),
)

-- A refused registration changes no table; a done one adds exactly the new tunnel and its port,
-- under an id that no tunnel has: that of the next number, which is used up.
pub register_effect :
    (m : Manager) (name typ : Bytes) (port : ℤ) (allowed : List Bytes) (max_tunnels : ℤ)
    (listens : Bool) (id : Bytes) (p : ℤ)
    → IsValid m
    → let r = register m name typ port allowed max_tunnels listens in
      let t = fresh_tunnel m name typ port [] in
      ((r.0 ≡ ok t)
        × (lookup t.id m.tunnels ≡ none)
        × (t.id ≡ tunnel_name (suc m.seq))
        × (r.1.seq ≡ suc m.seq)
        × (lookup id r.1.tunnels ≡ (if t.id == id then some t else lookup id m.tunnels))
        × (lookup p r.1.ports ≡ (if port == p then some t.id else lookup p m.ports))
        × (r.1.pending ≡ m.pending))
      ⊎ ((e : RegisterError) × (r.0 ≡ err e)
          × (r.1.tunnels ≡ m.tunnels)
          × (r.1.ports ≡ m.ports)
          × (r.1.pending ≡ m.pending))
register_effect m name typ port allowed max_tunnels listens id p v =
    let t = fresh_tunnel m name typ port [] in
    register_cases
      (λ r.
        ((r.0 ≡ ok t)
          × (lookup t.id m.tunnels ≡ none)
          × (t.id ≡ tunnel_name (suc m.seq))
          × (r.1.seq ≡ suc m.seq)
          × (lookup id r.1.tunnels ≡ (if t.id == id then some t else lookup id m.tunnels))
          × (lookup p r.1.ports ≡ (if port == p then some t.id else lookup p m.ports))
          × (r.1.pending ≡ m.pending))
        ⊎ ((e : RegisterError) × (r.0 ≡ err e)
            × (r.1.tunnels ≡ m.tunnels)
            × (r.1.ports ≡ m.ports)
            × (r.1.pending ≡ m.pending)))
      m name typ port allowed max_tunnels listens (λ e. inr (e, refl, refl, refl, refl))
      (inr (listen_failed, refl, refl, refl, refl))
      (λ room good may free. inl (
        refl,
        unfold fresh_tunnel in v.fresh (suc m.seq) (omega arith),
        unfold fresh_tunnel in refl,
        refl,
        lookup-insert t.id id t m.tunnels,
        lookup-insert port p t.id m.ports,
        refl,
      ))

-- After `unregister` of a registered tunnel: the tunnel is gone and its port is free, every other
-- tunnel and port is as it was, what waited is dropped exactly if it waited for that tunnel, and
-- the listener of that tunnel is closed, of no other.
pub unregister_effect :
    (m : Manager) (id j c : Bytes) (t : Tunnel) (p : ℤ)
    → IsValid m
    → tunnel_by_id m id ≡ some t
    → (tunnel_by_id (unregister m id) j ≡ (if id == j then none else tunnel_by_id m j))
      × (lookup p (unregister m id).ports ≡ (if t.remote_port == p then none else lookup p m.ports))
      × (lookup c (unregister m id).pending ≡ elim (lookup c m.pending) [
        | none ↦ none
        | some pc ↦ (if pc.tunnel_id == id then none else some pc)
      ])
      × ((unregister m id).stopped ≡ id ∷ m.stopped)
unfolding unregister tunnel_by_id
unregister_effect m id j c t p v found = (
  ground (arith, lookup-delete id j m.tunnels),
  ground (arith, lookup-delete t.remote_port p m.ports),
  ground (arith, lookup-retain (λ _ q. not (q.tunnel_id == id)) c m.pending v.distinct_pending),
  ground (arith),
)
