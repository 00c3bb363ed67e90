-- ===== src/Tunnel/UdpSessions/Lru.antt =====
-- internal/tunnel/udp_server.go: the order of the session table is by the last activity.
use qoqtun.Prelude.{
  ℕ, ◌≤◌, ◌≡◌, refl, true, Option, none, some, List, [], ◌∷◌, ◌++◌, arith, ◌==◌, leb, nat_eq, Bytes,
  bytes_eq, length, Bool-cases, Option-cases, inl, inr, bytes_beq_iff, bytes_beq_refl,
}
use qoqtun.Prelude.Int.{int_eq}
use qoqtun.Prelude.Maps.{
  Map, lookup, insert, delete, lookup-insert, lookup-delete, lookup-insert_self,
}
use qoqtun.Tunnel.UdpSessions.{
  Session, UdpServerState, mem, remove_order, touch, evict_from, evict_lru, make_room, add_session,
  session_for, expired_keys, drop_session, drop_sessions, expire_idle, close, Call, packet, tick,
  shut, step, run,
}
use qoqtun.Tunnel.UdpSessions.Table.{
  NoDup, IsValid, mem-append, mem-remove_order, make_room-IsValid, make_room-lookup,
  drop_session-IsValid, step-IsValid,
}

-- The last activity of a peer.
unfoldable pub activity : Map Bytes Session → Bytes → ℕ
activity m k = elim (lookup k m) [ none ↦ 0 | some s ↦ s.last_active ]

-- Each peer of the order was active no later than those behind it, and none after `now`.
abbrev pub Ascending : Map Bytes Session → ℕ → List Bytes → Type 0
Ascending m now [] = Unit
Ascending m now (k ∷ o) =
    ((j : Bytes) → mem j o ≡ true → activity m k ≤ activity m j)
    × (activity m k ≤ now)
    × Ascending m now o

-- Only the peers of the order matter.
Ascending-cong :
    (m m' : Map Bytes Session) (now : ℕ) (o : List Bytes)
    → ((j : Bytes) → mem j o ≡ true → activity m' j ≡ activity m j)
    → Ascending m now o
    → Ascending m' now o
unfolding mem
Ascending-cong m m' now [] same a = a
Ascending-cong m m' now (k ∷ o) same a = (
  (λ j h. ground (arith, same j, same k, a.0 j, bytes_beq_refl k)),
  ground (arith, same k, bytes_beq_refl k),
  Ascending-cong m m' now o (λ j h. ground (arith, same j)) a.2,
)

Ascending-later :
    (m : Map Bytes Session) (now later : ℕ) (o : List Bytes)
    → now ≤ later
    → Ascending m now o
    → Ascending m later o
Ascending-later m now later [] le a = a
Ascending-later m now later (k ∷ o) le a = (a.0, omega arith, Ascending-later m now later o le a.2)

Ascending-remove :
    (m : Map Bytes Session) (now : ℕ) (k : Bytes) (o : List Bytes)
    → NoDup o
    → Ascending m now o
    → Ascending m now (remove_order k o)
unfolding remove_order
Ascending-remove m now k [] d a = a
Ascending-remove m now k (j ∷ o) d a = elim (Bool-cases (j == k)) [
  | inl e ↦ rw (remove_order, e) a.2
  | inr e ↦
      rw (remove_order, e)
        (
          (λ i h. ground (arith, a.0 i, mem-remove_order i k o d.1)),
          a.1,
          Ascending-remove m now k o d.1 a.2,
        )
]

-- The peer appended was active at `now`.
Ascending-snoc :
    (m : Map Bytes Session) (now : ℕ) (k : Bytes) (o : List Bytes)
    → activity m k ≡ now
    → Ascending m now o
    → Ascending m now (o ++ k ∷ [])
unfolding mem
Ascending-snoc m now k [] q a = ((λ j h. ground arith), ground arith, tt)
Ascending-snoc m now k (j ∷ o) q a = (
  (λ i h. ground (arith, a.0 i, mem-append i k o, bytes_beq_iff k i)),
  a.1,
  Ascending-snoc m now k o q a.2,
)

evict_from-Ascending :
    (o : List Bytes) (u : UdpServerState) (t : ℕ)
    → NoDup o
    → Ascending u.by_peer t o
    → u.order ≡ o
    → Ascending (evict_from o u).by_peer t (evict_from o u).order
unfolding evict_from activity
evict_from-Ascending [] u t d a q = rw q a
evict_from-Ascending (k ∷ o) u t d a q = elim (Option-cases (lookup k u.by_peer)) [
  | inl miss ↦ rw (evict_from, miss) a.2
  | inr (s, hit) ↦
      rw (evict_from, hit)
        (Ascending-cong u.by_peer (delete k u.by_peer) t o
          (λ j h. ground (arith, lookup-delete k j u.by_peer, bytes_beq_iff k j, d.0)) a.2)
]

make_room-Ascending :
    (u : UdpServerState) (t : ℕ)
    → IsValid u
    → Ascending u.by_peer t u.order
    → Ascending (make_room u).by_peer t (make_room u).order
unfolding make_room evict_lru
make_room-Ascending u t v a = elim (Bool-cases (leb u.max_sessions (length u.by_peer))) [
  | inl e ↦ rw (make_room, e) (evict_from-Ascending u.order u t v.2 a refl)
  | inr e ↦ rw (make_room, e) a
]

session_for-Ascending :
    (key : Bytes) (t now : ℕ) (fresh : Option Bytes) (u : UdpServerState)
    → IsValid u
    → Ascending u.by_peer t u.order
    → t ≤ now
    → Ascending (session_for key now fresh u).1.by_peer now (session_for key now fresh u).1.order
unfolding session_for add_session touch activity
session_for-Ascending key t now fresh u v a le = elim (Option-cases (lookup key u.by_peer)) [
  | inr (s, hit) ↦
      let s' : Session = record s { last_active = now } in
      let m : Map Bytes Session = insert key s' u.by_peer in
      rw (session_for, hit, touch, v.1 key, hit)
        (Ascending-snoc m now key (remove_order key u.order)
          (ground (arith, lookup-insert_self key s' u.by_peer))
          (Ascending-cong u.by_peer m now (remove_order key u.order)
            (λ j h.
              ground (arith, mem-remove_order j key u.order v.2, lookup-insert key j s' u.by_peer))
            (Ascending-later u.by_peer t now (remove_order key u.order) le
              (Ascending-remove u.by_peer t key u.order v.2 a))))
  | inl miss ↦ by_fresh fresh miss
]
  where
    room : Ascending (make_room u).by_peer now (make_room u).order
    room =
        Ascending-later (make_room u).by_peer t now (make_room u).order le
          (make_room-Ascending u t v a)

    by_fresh :
        (f : Option Bytes)
        → lookup key u.by_peer ≡ none
        → Ascending (session_for key now f u).1.by_peer now (session_for key now f u).1.order
    by_fresh none miss = rw (session_for, miss) room
    by_fresh (some id) miss =
        let s : Session = record { id = id; last_active = now } in
        let m : Map Bytes Session = (make_room u).by_peer in
        let (w, lt) = make_room-IsValid u v in
        rw (session_for, miss)
          (Ascending-snoc (insert key s m) now key (make_room u).order
            (ground (arith, lookup-insert_self key s m))
            (Ascending-cong m (insert key s m) now (make_room u).order
              (λ j h. ground (
                arith,
                lookup-insert key j s m,
                w.1 j,
                bytes_beq_iff key j,
                make_room-lookup key u miss,
              ))
              room))

drop_sessions-Ascending :
    (ks : List Bytes) (t : ℕ) (u : UdpServerState)
    → IsValid u
    → Ascending u.by_peer t u.order
    → Ascending (drop_sessions ks u).by_peer t (drop_sessions ks u).order
unfolding drop_sessions drop_session activity
drop_sessions-Ascending [] t u v a = a
drop_sessions-Ascending (k ∷ ks) t u v a =
    drop_sessions-Ascending ks t (drop_session k u) (drop_session-IsValid k u v)
      (elim (Option-cases (lookup k u.by_peer)) [
        | inl miss ↦ rw (drop_session, miss) a
        | inr (s, hit) ↦
            rw (drop_session, hit)
              (Ascending-cong u.by_peer (delete k u.by_peer) t (remove_order k u.order)
                (λ j h.
                  ground (arith, lookup-delete k j u.by_peer, mem-remove_order j k u.order v.2))
                (Ascending-remove u.by_peer t k u.order v.2 a))
      ])

-- The time after a call, and calls whose times do not go back.
unfoldable pub clock : Call → ℕ → ℕ
clock (packet key now fresh) t = now
clock (tick now) t = t
clock shut t = t

unfoldable pub clock_after : List Call → ℕ → ℕ
clock_after [] t = t
clock_after (c ∷ cs) t = clock_after cs (clock c t)

abbrev pub InOrder : List Call → ℕ → Type 0
InOrder [] t = Unit
InOrder (c ∷ cs) t = (t ≤ clock c t) × InOrder cs (clock c t)

step-Ascending :
    (c : Call) (t : ℕ) (u : UdpServerState)
    → IsValid u
    → Ascending u.by_peer t u.order
    → t ≤ clock c t
    → Ascending (step c u).by_peer (clock c t) (step c u).order
unfolding step clock close expire_idle
step-Ascending (packet key now fresh) t u v a le = session_for-Ascending key t now fresh u v a le
step-Ascending (tick now) t u v a le =
    drop_sessions-Ascending (expired_keys now u.session_idle u.by_peer) t u v a
step-Ascending shut t u v a le = tt

-- When the times of the packets do not go back, the order of the table lists the sessions by
-- their last activity, whatever calls were made.
pub run-Ascending :
    (cs : List Call) (t : ℕ) (u : UdpServerState)
    → IsValid u
    → Ascending u.by_peer t u.order
    → InOrder cs t
    → Ascending (run cs u).by_peer (clock_after cs t) (run cs u).order
unfolding run clock_after
run-Ascending [] t u v a i = a
run-Ascending (c ∷ cs) t u v a i =
    run-Ascending cs (clock c t) (step c u) (step-IsValid c u v) (step-Ascending c t u v a i.0) i.1
