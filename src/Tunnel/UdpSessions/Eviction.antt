-- ===== src/Tunnel/UdpSessions/Eviction.antt =====
-- internal/tunnel/udp_server.go: eviction takes the least recently active session.
use qoqtun.Prelude.{
  ℕ, ◌≤◌, ◌≡◌, refl, true, none, some, List, [], ◌∷◌, arith, if◌then◌else◌, ◌==◌, nat_eq, Bytes,
  bytes_eq, length, is_some, Option-cases, inl, inr, subst, bytes_beq_iff, bytes_beq_refl,
}
use qoqtun.Prelude.Int.{int_eq}
use qoqtun.Prelude.Maps.{lookup, delete, lookup-insert, lookup-delete}
use qoqtun.Tunnel.UdpSessions.{
  Session, UdpServerState, mem, evict_from, evict_lru, make_room, add_session, session_for,
}
use qoqtun.Tunnel.UdpSessions.Table.{IsValid}
use qoqtun.Tunnel.UdpSessions.Lru.{activity, Ascending}

-- The head of the order is the least recently active peer.
Ascending-head :
    (u : UdpServerState) (t : ℕ) (k : Bytes) (o : List Bytes) (j : Bytes)
    → IsValid u
    → Ascending u.by_peer t u.order
    → u.order ≡ k ∷ o
    → is_some (lookup j u.by_peer) ≡ true
    → activity u.by_peer k ≤ activity u.by_peer j
unfolding mem
Ascending-head u t k o j v a q h =
    let b : Ascending u.by_peer t (k ∷ o) = subst (λ x. Ascending u.by_peer t x) q a in
    ground (arith, b.0 j, v.1 j, bytes_beq_iff k j)

evict_from-present :
    (u : UdpServerState) (k : Bytes) (o : List Bytes)
    → is_some (lookup k u.by_peer) ≡ true
    → (evict_from (k ∷ o) u).by_peer ≡ delete k u.by_peer
unfolding evict_from
evict_from-present u k o h = elim (Option-cases (lookup k u.by_peer)) [
  | inl miss ↦ ground arith
  | inr (s, hit) ↦ rw (evict_from, hit) refl
]

-- What making room does to a full table.
make_room_full :
    (u : UdpServerState) (t : ℕ)
    → IsValid u
    → Ascending u.by_peer t u.order
    → length u.by_peer ≡ u.max_sessions
    → (victim : Bytes) × (is_some (lookup victim u.by_peer) ≡ true)
      × ((j : Bytes)
          → is_some (lookup j u.by_peer) ≡ true
          → activity u.by_peer victim ≤ activity u.by_peer j)
      × ((make_room u).by_peer ≡ delete victim u.by_peer)
unfolding make_room evict_lru mem
make_room_full u t v a full = by_order u.order refl
  where
    by_order :
        (o : List Bytes)
        → u.order ≡ o
        → (victim : Bytes) × (is_some (lookup victim u.by_peer) ≡ true)
          × ((j : Bytes)
              → is_some (lookup j u.by_peer) ≡ true
              → activity u.by_peer victim ≤ activity u.by_peer j)
          × ((make_room u).by_peer ≡ delete victim u.by_peer)
    by_order [] q = absurd (ground (arith, v.3, v.4, v.5))
    by_order (k ∷ o) q = (
      k,
      ground (arith, v.1 k, bytes_beq_refl k),
      (λ j h. Ascending-head u t k o j v a q h),
      ground (arith, evict_from-present u k o, v.1 k, bytes_beq_refl k),
    )

-- For a packet of a peer without a session, when the table is full: there is a session that was
-- active no later than any other, and afterwards the table has lost exactly that one and gained
-- one for the peer, active now.
pub session_for_lru :
    (key : Bytes) (now t : ℕ) (id : Bytes) (u : UdpServerState)
    → IsValid u
    → Ascending u.by_peer t u.order
    → lookup key u.by_peer ≡ none
    → length u.by_peer ≡ u.max_sessions
    → (victim : Bytes) × (is_some (lookup victim u.by_peer) ≡ true)
      × ((j : Bytes)
          → is_some (lookup j u.by_peer) ≡ true
          → activity u.by_peer victim ≤ activity u.by_peer j)
      × ((j : Bytes)
          → lookup j (session_for key now (some id) u).1.by_peer ≡ (
              if key == j
              then some (record { id = id; last_active = now })
              else if victim == j
              then none
              else lookup j u.by_peer))
unfolding session_for add_session
session_for_lru key now t id u v a miss full =
    let (victim, present, oldest, gone) = make_room_full u t v a full in
    let s : Session = record { id = id; last_active = now } in
    (
      victim,
      present,
      oldest,
      (λ j.
          rw (session_for, miss)
            (ground (
              arith,
              gone,
              lookup-insert key j s (make_room u).by_peer,
              lookup-delete victim j u.by_peer,
            ))),
    )
