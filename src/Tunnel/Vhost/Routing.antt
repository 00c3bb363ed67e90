-- ===== src/Tunnel/Vhost/Routing.antt =====
-- internal/tunnel/vhost.go: what a lookup finds, in whatever order the table is walked.
use qoqtun.Prelude.{
  ℕ, suc, ◌-◌, ◌≤◌, ◌<◌, ◌≡◌, refl, true, false, not, Option, none, some, [], ◌∷◌, arith,
  if◌then◌else◌, ◌==◌, nat_eq, Bytes, bytes_eq, length, ap, ◌∙◌, drop, Bool-cases, Option-cases,
  inl, inr, sym, ◌⊎◌, bytes_beq_iff, bytes_beq_refl,
}
use qoqtun.Prelude.Int.{ℤ, int_eq}
use qoqtun.Prelude.Maps.{
  lookup, insert, IsDistinct, lookup-insert, lookup-retain, insert-IsDistinct, lookup-insert_self,
}
use qoqtun.Prelude.Strings.{has_suffix}
use qoqtun.Tunnel.Vhost.{
  Entry, VhostTable, register, unregister_tunnel, below, improves, best_suffix, route,
}
use qoqtun.Tunnel.Manager.{Tunnel, Manager, fresh_tunnel, add_vhost_tunnel, ok}

-- No rule of the table that matches the host is longer than `n`.
abbrev pub NoneLonger : Bytes → ℕ → VhostTable → Type 0
NoneLonger host n t =
    (rule : Bytes) (e : Entry) → lookup rule t ≡ some e → below host rule ≡ true → length rule ≤ n

-- `r` is the entry of a longest matching rule.
abbrev pub IsLongest : Bytes → ℕ → VhostTable → Option Entry → Type 0
IsLongest host least t r =
    (rule : Bytes) × (e : Entry) × (r ≡ some e)
    × (lookup rule t ≡ some e)
    × (below host rule ≡ true)
    × (least < length rule)
    × NoneLonger host (length rule) t

NoneLonger-cons :
    (host rule : Bytes) (e : Entry) (n : ℕ) (t : VhostTable)
    → NoneLonger host n t
    → (below host rule ≡ true → length rule ≤ n)
    → NoneLonger host n ((rule, e) ∷ t)
unfolding lookup
NoneLonger-cons host rule e n t rest here other f found hit =
    ground (
      arith,
      bytes_eq.beq_iff rule other,
      rest other f,
      here,
      ap (below host) {x = rule} {y = other},
    )

lookup_behind :
    (j rule : Bytes) (v e : Entry) (t : VhostTable)
    → lookup j t ≡ none
    → lookup rule t ≡ some e
    → lookup rule ((j, v) ∷ t) ≡ some e
unfolding lookup
lookup_behind j rule v e t miss hit = ground (arith, bytes_eq.beq_iff j rule)

lookup_here : (j : Bytes) (v : Entry) (t : VhostTable) → lookup j ((j, v) ∷ t) ≡ some v
unfolding lookup
lookup_here j v t = ground (arith, bytes_beq_refl j)

IsLongest-cons :
    (host rule : Bytes) (e : Entry) (m n : ℕ) (t : VhostTable) (r : Option Entry)
    → lookup rule t ≡ none
    → n ≤ m
    → (below host rule ≡ true → length rule ≤ m)
    → IsLongest host m t r
    → IsLongest host n ((rule, e) ∷ t) r
IsLongest-cons host rule e m n t r miss le here (other, f, is, found, hit, lt, longest) = (
  other,
  f,
  is,
  lookup_behind rule other e f t miss found,
  hit,
  omega arith,
  NoneLonger-cons host rule e (length other) t longest (λ h. omega (arith, here h)),
)

improves_yes :
    (host rule : Bytes) (n : ℕ)
    → improves host n rule ≡ true
    → (n < length rule) × (below host rule ≡ true)
unfolding improves
improves_yes host rule n h = (ground arith, ground arith)

improves_no :
    (host rule : Bytes) (n : ℕ)
    → improves host n rule ≡ false
    → below host rule ≡ true
    → length rule ≤ n
unfolding improves
improves_no host rule n h b = ground arith

best_suffix-IsLongest :
    (host : Bytes) (n : ℕ) (b : Option Entry) (t : VhostTable)
    → IsDistinct t
    → ((best_suffix host n b t ≡ b) × NoneLonger host n t)
      ⊎ IsLongest host n t (best_suffix host n b t)
unfolding best_suffix
best_suffix-IsLongest host n b [] d = inl (refl, λ rule e found. unfold lookup in ground arith)
best_suffix-IsLongest host n b ((rule, e) ∷ t) d = elim (Bool-cases (improves host n rule)) [
  | inl better ↦
      let (lt, hit) = improves_yes host rule n better in
      rw (better, best_suffix)
        (elim (best_suffix-IsLongest host (length rule) (some e) t d.1) [
          | inl (same, longest) ↦ inr (
            rule,
            e,
            same,
            lookup_here rule e t,
            hit,
            lt,
            NoneLonger-cons host rule e (length rule) t longest (λ h. omega arith),
          )
          | inr l ↦ inr (
              IsLongest-cons host rule e (length rule) n t _ d.0 (omega arith) (λ h. omega arith) l)
        ])
  | inr not_better ↦
      rw (not_better, best_suffix)
        (elim (best_suffix-IsLongest host n b t d.1) [
          | inl (same, longest) ↦
              inl
                (same, NoneLonger-cons host rule e n t longest (improves_no host rule n not_better))
          | inr l ↦ inr (
              IsLongest-cons host rule e n n t _ d.0 (omega arith)
                (improves_no host rule n not_better) l)
        ])
]

route_exact :
    (t : VhostTable) (host : Bytes) (e : Entry) → lookup host t ≡ some e → route t host ≡ some e
unfolding route
route_exact t host e hit = ground arith

-- For a host that is no rule itself a lookup finds the entry of a longest rule that the host lies
-- below, or it finds nothing, and then the host lies below no rule but, perhaps, the empty one.
pub route-IsLongest :
    (t : VhostTable) (host : Bytes)
    → IsDistinct t
    → lookup host t ≡ none
    → ((route t host ≡ none) × NoneLonger host 0 t) ⊎ IsLongest host 0 t (route t host)
unfolding route
route-IsLongest t host d miss = rw (miss, route) (best_suffix-IsLongest host 0 none t d)

-- Two rules of one length above the same host are one rule.
below-injective :
    (host r s : Bytes) → below host r ≡ true → below host s ≡ true → length r ≡ length s → r ≡ s
unfolding below has_suffix
below-injective host r s hr hs e = ground (
  arith,
  bytes_beq_iff (drop (length host - suc (length r)) host) (b'.' ∷ r),
  bytes_beq_iff (drop (length host - suc (length s)) host) (b'.' ∷ s),
)

best_unique :
    (host : Bytes) (t u : VhostTable) (r s : Option Entry)
    → ((k : Bytes) → lookup k t ≡ lookup k u)
    → ((r ≡ none) × NoneLonger host 0 t) ⊎ IsLongest host 0 t r
    → ((s ≡ none) × NoneLonger host 0 u) ⊎ IsLongest host 0 u s
    → r ≡ s
best_unique host t u r s same (inl (er, nr)) (inl (es, ns)) = er ∙ sym es
best_unique host t u r s same (inl (er, nr)) (inr (rule, e, es, found, hit, lt, longest)) =
    absurd (omega (arith, nr rule e (same rule ∙ found) hit))
best_unique host t u r s same (inr (rule, e, er, found, hit, lt, longest)) (inl (es, ns)) =
    absurd (omega (arith, ns rule e (sym (same rule) ∙ found) hit))
best_unique host t u r s same (inr (p, e, er, fp, hp, lp, mp)) (inr (q, f, es, fq, hq, lq, mq)) =
    let one : p ≡ q =
      below-injective host p q hp hq
        (omega (arith, mp q f (same q ∙ fq) hq, mq p e (sym (same p) ∙ fp) hp)) in
    ground (arith, one, same p, ap (λ k. lookup k u) one)

-- The order in which Go walks the table does not matter: two tables with the same entries route
-- every host alike.
pub route_order :
    (t u : VhostTable) (host : Bytes)
    → IsDistinct t
    → IsDistinct u
    → ((k : Bytes) → lookup k t ≡ lookup k u)
    → route t host ≡ route u host
route_order t u host dt du same = elim (Option-cases (lookup host u)) [
  | inl miss ↦
      best_unique host t u (route t host) (route u host) same
        (route-IsLongest t host dt (same host ∙ miss)) (route-IsLongest u host du miss)
  | inr (e, hit) ↦ route_exact t host e (same host ∙ hit) ∙ sym (route_exact u host e hit)
]

-- An accepted rule had a free host, which it routes from then on; the other rules stay.
register_effect :
    (t u : VhostTable) (host tunnel_id client_id k : Bytes)
    → register t host tunnel_id client_id ≡ some u
    → (lookup host t ≡ none)
      × (route u host ≡ some (record { tunnel_id = tunnel_id; client_id = client_id }))
      × (lookup k u ≡ (
          if host == k
          then some (record { tunnel_id = tunnel_id; client_id = client_id })
          else lookup k t))
unfolding register route
register_effect t u host tunnel_id client_id k done =
    let e : Entry = record { tunnel_id = tunnel_id; client_id = client_id } in
    (
      ground arith,
      ground (arith, lookup-insert_self host e t),
      ground (arith, lookup-insert host k e t),
    )

lookup-unregister_tunnel :
    (id host : Bytes) (t : VhostTable)
    → IsDistinct t
    → lookup host (unregister_tunnel id t)
      ≡ elim (lookup host t) [ none ↦ none | some e ↦ (if e.tunnel_id == id then none else some e) ]
unfolding unregister_tunnel
lookup-unregister_tunnel id host t d =
    ground (arith, lookup-retain (λ _ e. not (e.tunnel_id == id)) host t d)

-- The fault: each client has a manager of its own, and the managers number their tunnels alike, but
-- all share one routing table, which removes by tunnel id alone. When two clients' counters stood
-- alike as each added a host, the end of the first one's tunnel removes the second one's host.
pub removes_other_client :
    (a b : Manager) (name_a name_b host_a host_b client_b : Bytes) (max_a max_b : ℤ)
    (ta tb : Tunnel) (t u : VhostTable)
    → a.seq ≡ b.seq
    → (add_vhost_tunnel a name_a host_a max_a).0 ≡ ok ta
    → (add_vhost_tunnel b name_b host_b max_b).0 ≡ ok tb
    → IsDistinct t
    → register t host_b tb.id client_b ≡ some u
    → (route u host_b ≡ some (record { tunnel_id = tb.id; client_id = client_b }))
      × (lookup host_b (unregister_tunnel ta.id u) ≡ none)
unfolding add_vhost_tunnel fresh_tunnel register
removes_other_client a b name_a name_b host_a host_b client_b max_a max_b ta tb t u alike ea eb d
      done =
    let e : Entry = record { tunnel_id = tb.id; client_id = client_b } in
    let put : u ≡ insert host_b e t = ground arith in
    let found = lookup-insert_self host_b e t in
    let one : ta.id ≡ tb.id = ground arith in
    (
      rw put (route_exact (insert host_b e t) host_b e found),
      rw (put, one)
          (ground (
            arith,
            lookup-unregister_tunnel tb.id host_b (insert host_b e t)
                (insert-IsDistinct host_b e t d),
            found,
            bytes_beq_refl tb.id,
          )),
    )
