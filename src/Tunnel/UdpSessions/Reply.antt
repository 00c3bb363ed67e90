-- ===== src/Tunnel/UdpSessions/Reply.antt =====
-- internal/tunnel/udp_server.go: a reply finds the peer of its session.
use qoqtun.Prelude.{
  ℕ, ◌≡◌, refl, none, some, List, [], ◌∷◌, arith, leb, nat_eq, Bytes, bytes_eq, length, Bool-cases,
  Option-cases, inl, inr, bytes_beq_iff, bytes_beq_refl,
}
use qoqtun.Prelude.Int.{int_eq}
use qoqtun.Prelude.Maps.{Map, lookup, delete, lookup-insert, lookup-delete, lookup-insert_self}
use qoqtun.Tunnel.UdpSessions.{
  Session, UdpServerState, evict_from, evict_lru, make_room, add_session, session_for,
  session_by_id, hex_id,
}

-- The id of every session of the table leads to its peer.
abbrev pub IsLinked : Map Bytes Session → Map Bytes Bytes → Type 0
IsLinked m ids = (k : Bytes) (s : Session) → lookup k m ≡ some s → lookup (hex_id s.id) ids ≡ some k

IsLinked-delete :
    (k : Bytes) (s : Session) (m : Map Bytes Session) (ids : Map Bytes Bytes)
    → IsLinked m ids
    → lookup k m ≡ some s
    → IsLinked (delete k m) (delete (hex_id s.id) ids)
IsLinked-delete k s m ids l hit j r h = ground (
  arith,
  lookup-delete k j m,
  lookup-delete (hex_id s.id) (hex_id r.id) ids,
  bytes_beq_iff (hex_id s.id) (hex_id r.id),
  bytes_beq_iff k j,
  l k s,
  l j r,
)

evict_from-IsLinked :
    (o : List Bytes) (u : UdpServerState)
    → IsLinked u.by_peer u.by_id
    → IsLinked (evict_from o u).by_peer (evict_from o u).by_id
unfolding evict_from
evict_from-IsLinked [] u l = l
evict_from-IsLinked (k ∷ o) u l = elim (Option-cases (lookup k u.by_peer)) [
  | inl miss ↦ rw (evict_from, miss) l
  | inr (s, hit) ↦ rw (evict_from, hit) (IsLinked-delete k s u.by_peer u.by_id l hit)
]

evict_from-unused :
    (o : List Bytes) (h : Bytes) (u : UdpServerState)
    → lookup h u.by_id ≡ none
    → lookup h (evict_from o u).by_id ≡ none
unfolding evict_from
evict_from-unused [] h u n = n
evict_from-unused (k ∷ o) h u n = elim (Option-cases (lookup k u.by_peer)) [
  | inl miss ↦ rw (evict_from, miss) n
  | inr (s, hit) ↦ rw (evict_from, hit) (ground (arith, lookup-delete (hex_id s.id) h u.by_id))
]

make_room-IsLinked :
    (u : UdpServerState)
    → IsLinked u.by_peer u.by_id
    → IsLinked (make_room u).by_peer (make_room u).by_id
unfolding make_room evict_lru
make_room-IsLinked u l = elim (Bool-cases (leb u.max_sessions (length u.by_peer))) [
  | inl e ↦ rw (make_room, e) (evict_from-IsLinked u.order u l)
  | inr e ↦ rw (make_room, e) l
]

make_room-unused :
    (h : Bytes) (u : UdpServerState) → lookup h u.by_id ≡ none → lookup h (make_room u).by_id ≡ none
unfolding make_room evict_lru
make_room-unused h u n = ground (arith, evict_from-unused u.order h u)

-- A session is returned for the packet of a peer when its id could be drawn or the peer had one.
-- If the ids in use lead to their peers and the id drawn is not in use, then the id returned leads
-- to the peer, and all ids in use still lead to their peers.
pub session_for_reply :
    (key : Bytes) (now : ℕ) (fresh : Bytes) (u : UdpServerState)
    → IsLinked u.by_peer u.by_id
    → lookup (hex_id fresh) u.by_id ≡ none
    → (id : Bytes) × ((session_for key now (some fresh) u).0 ≡ some id)
      × (session_by_id id (session_for key now (some fresh) u).1 ≡ some key)
      × IsLinked
          (session_for key now (some fresh) u).1.by_peer
          (session_for key now (some fresh) u).1.by_id
unfolding session_for session_by_id add_session
session_for_reply key now fresh u l n = elim (Option-cases (lookup key u.by_peer)) [
  | inr (s, hit) ↦
      rw (session_for, hit)
        (
          s.id,
          refl,
          l key s hit,
          (λ j r h. ground (
            arith,
            lookup-insert key j (record s { last_active = now }) u.by_peer,
            bytes_beq_iff key j,
            l key s,
            l j r,
          )),
        )
  | inl miss ↦
      let h = hex_id fresh in
      rw (session_for, miss)
        (
          fresh,
          refl,
          lookup-insert_self h key (make_room u).by_id,
          (λ j r q. ground (
            arith,
            lookup-insert key j (record { id = fresh; last_active = now }) (make_room u).by_peer,
            lookup-insert h (hex_id r.id) key (make_room u).by_id,
            bytes_beq_iff key j,
            bytes_beq_iff h (hex_id r.id),
            bytes_beq_refl h,
            make_room-IsLinked u l j r,
            make_room-unused h u n,
          )),
        )
]
