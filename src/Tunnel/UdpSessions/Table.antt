-- ===== src/Tunnel/UdpSessions/Table.antt =====
-- internal/tunnel/udp_server.go: the shape of the session table and its bound.
use qoqtun.Prelude.{
  ℕ, suc, ◌-◌, ◌≤◌, ◌<◌, ◌≡◌, refl, true, false, ◌&&◌, ◌||◌, not, Option, none, some, List, [], ◌∷◌,
  ◌++◌, arith, if◌then◌else◌, ◌==◌, leb, nat_eq, Bytes, bytes_eq, length, is_some, Bool-cases,
  Option-cases, inl, inr, bytes_beq_iff, bytes_beq_refl, ==_sym,
}
use qoqtun.Prelude.Int.{int_eq}
use qoqtun.Prelude.Maps.{
  Map, lookup, insert, delete, IsDistinct, lookup-insert, lookup-delete, insert-IsDistinct,
  delete-IsDistinct, length-insert, length-delete, length-delete-le,
}
use qoqtun.Tunnel.UdpSessions.{
  Session, UdpServerState, mem, remove_order, touch, evict_lru, make_room, add_session, session_for,
  expired_keys, drop_session, drop_sessions, expire_idle, close, evict_from, Call, packet, tick,
  shut, step, run,
}

-- No peer twice in the order.
abbrev pub NoDup : List Bytes → Type 0
NoDup [] = Unit
NoDup (k ∷ o) = (mem k o ≡ false) × NoDup o

-- The order lists the peers of the map, each once, and the map is within the limit.
abbrev pub IsTable : Map Bytes Session → List Bytes → ℕ → Type 0
IsTable m o limit =
    IsDistinct m
    × ((k : Bytes) → mem k o ≡ is_some (lookup k m))
    × NoDup o
    × (length o ≡ length m)
    × (length m ≤ limit)
    × (0 < limit)

abbrev pub IsValid : UdpServerState → Type 0
IsValid u = IsTable u.by_peer u.order u.max_sessions

pub mem-append : (k j : Bytes) (o : List Bytes) → mem k (o ++ j ∷ []) ≡ (mem k o || j == k)
unfolding mem
mem-append k j [] = ground arith
mem-append k j (i ∷ o) = ground (arith, mem-append k j o)

pub mem-remove_order :
    (k j : Bytes) (o : List Bytes) → NoDup o → mem k (remove_order j o) ≡ (mem k o && not (j == k))
unfolding mem remove_order
mem-remove_order k j [] d = refl
mem-remove_order k j (i ∷ o) d =
    ground
      (arith, mem-remove_order k j o d.1, bytes_beq_iff i j, bytes_beq_iff j k, bytes_beq_iff i k)

pub length-remove_order :
    (k : Bytes) (o : List Bytes)
    → length o ≡ (if mem k o then suc (length (remove_order k o)) else length (remove_order k o))
unfolding mem remove_order
length-remove_order k [] = refl
length-remove_order k (j ∷ o) = ground (arith, length-remove_order k o)

pub NoDup-append : (k : Bytes) (o : List Bytes) → NoDup o → mem k o ≡ false → NoDup (o ++ k ∷ [])
unfolding mem
NoDup-append k [] d h = ground arith
NoDup-append k (j ∷ o) d h =
    ground (arith, NoDup-append k o d.1, mem-append j k o, ==_sym k j, ==_sym j k)

pub NoDup-remove_order : (k : Bytes) (o : List Bytes) → NoDup o → NoDup (remove_order k o)
unfolding remove_order
NoDup-remove_order k [] d = d
NoDup-remove_order k (j ∷ o) d =
    ground (arith, NoDup-remove_order k o d.1, mem-remove_order j k o d.1)

pub length-snoc : (k : Bytes) (o : List Bytes) → length (o ++ k ∷ []) ≡ suc (length o)
length-snoc k [] = refl
length-snoc k (j ∷ o) = ground (arith, length-snoc k o)

pub IsTable-evict :
    (k : Bytes) (m : Map Bytes Session) (o : List Bytes) (n : ℕ)
    → IsTable m (k ∷ o) n
    → IsTable (delete k m) o n
unfolding mem
IsTable-evict k m o n v = (
  delete-IsDistinct k m v.0,
  (λ j. ground (arith, lookup-delete k j m, v.1 j, bytes_beq_iff k j)),
  v.2.1,
  ground (arith, length-delete k m v.0, v.1 k, bytes_beq_refl k),
  ground (arith, length-delete-le k m),
  v.5,
)

pub IsTable-drop :
    (k : Bytes) (m : Map Bytes Session) (o : List Bytes) (n : ℕ)
    → IsTable m o n
    → is_some (lookup k m) ≡ true
    → IsTable (delete k m) (remove_order k o) n
IsTable-drop k m o n v h = (
  delete-IsDistinct k m v.0,
  (λ j. ground (arith, lookup-delete k j m, v.1 j, mem-remove_order j k o v.2)),
  NoDup-remove_order k o v.2,
  ground (arith, length-delete k m v.0, v.1 k, length-remove_order k o),
  ground (arith, length-delete-le k m),
  v.5,
)

pub IsTable-touch :
    (k : Bytes) (s : Session) (m : Map Bytes Session) (o : List Bytes) (n : ℕ)
    → IsTable m o n
    → is_some (lookup k m) ≡ true
    → IsTable (insert k s m) (touch k o) n
unfolding touch
IsTable-touch k s m o n v h = (
  insert-IsDistinct k s m v.0,
  (λ j. ground (
    arith,
    lookup-insert k j s m,
    v.1 j,
    v.1 k,
    mem-remove_order j k o v.2,
    mem-append j k (remove_order k o),
  )),
  ground (
    arith,
    v.1 k,
    NoDup-append k (remove_order k o),
    NoDup-remove_order k o v.2,
    mem-remove_order k k o v.2,
    bytes_beq_refl k,
  ),
  ground (
    arith,
    length-insert k s m,
    v.1 k,
    length-remove_order k o,
    length-snoc k (remove_order k o),
  ),
  ground (arith, length-insert k s m),
  v.5,
)

pub IsTable-add :
    (k : Bytes) (s : Session) (m : Map Bytes Session) (o : List Bytes) (n : ℕ)
    → IsTable m o n
    → is_some (lookup k m) ≡ false
    → length m < n
    → IsTable (insert k s m) (o ++ k ∷ []) n
IsTable-add k s m o n v h lt = (
  insert-IsDistinct k s m v.0,
  (λ j. ground (arith, lookup-insert k j s m, v.1 j, mem-append j k o)),
  NoDup-append k o v.2 (ground (arith, v.1 k)),
  ground (arith, length-insert k s m, length-snoc k o),
  ground (arith, length-insert k s m),
  v.5,
)

evict_from-IsTable :
    (o : List Bytes) (u : UdpServerState)
    → IsTable u.by_peer o u.max_sessions
    → IsValid (record u { order = o })
    → IsValid (evict_from o (record u { order = o }))
unfolding evict_from mem
evict_from-IsTable [] u v w = w
evict_from-IsTable (k ∷ o) u v w = elim (Option-cases (lookup k u.by_peer)) [
  | inl miss ↦ ground (arith, v.1 k, bytes_beq_refl k)
  | inr (s, hit) ↦ rw (evict_from, hit) (IsTable-evict k u.by_peer o u.max_sessions v)
]

evict_lru-IsValid : (u : UdpServerState) → IsValid u → IsValid (evict_lru u)
unfolding evict_lru
evict_lru-IsValid u v = evict_from-IsTable u.order u v v

-- Eviction makes room for one session.
evict_from-length :
    (o : List Bytes) (u : UdpServerState)
    → IsTable u.by_peer o u.max_sessions
    → length (evict_from o u).by_peer ≤ length u.by_peer - 1
unfolding evict_from mem
evict_from-length [] u v = ground arith
evict_from-length (k ∷ o) u v = elim (Option-cases (lookup k u.by_peer)) [
  | inl miss ↦ ground (arith, v.1 k, bytes_beq_refl k)
  | inr (s, hit) ↦ rw (evict_from, hit) (ground (arith, length-delete k u.by_peer v.0))
]

evict_from-max :
    (o : List Bytes) (u : UdpServerState) → (evict_from o u).max_sessions ≡ u.max_sessions
unfolding evict_from
evict_from-max [] u = refl
evict_from-max (k ∷ o) u = ground arith

pub make_room-IsValid :
    (u : UdpServerState)
    → IsValid u
    → IsValid (make_room u) × (length (make_room u).by_peer < (make_room u).max_sessions)
unfolding make_room evict_lru
make_room-IsValid u v = elim (Bool-cases (leb u.max_sessions (length u.by_peer))) [
  | inl e ↦ rw e (
    evict_lru-IsValid u v,
    ground (arith, evict_from-length u.order u v, evict_from-max u.order u, v.4, v.5),
  )
  | inr e ↦ rw e (v, ground arith)
]

evict_from-lookup :
    (o : List Bytes) (key : Bytes) (u : UdpServerState)
    → lookup key u.by_peer ≡ none
    → lookup key (evict_from o u).by_peer ≡ none
unfolding evict_from
evict_from-lookup [] key u h = h
evict_from-lookup (k ∷ o) key u h = elim (Option-cases (lookup k u.by_peer)) [
  | inl miss ↦ rw (evict_from, miss) h
  | inr (s, hit) ↦ rw (evict_from, hit) (ground (arith, lookup-delete k key u.by_peer))
]

pub make_room-lookup :
    (key : Bytes) (u : UdpServerState)
    → lookup key u.by_peer ≡ none
    → lookup key (make_room u).by_peer ≡ none
unfolding make_room evict_lru
make_room-lookup key u h = ground (arith, evict_from-lookup u.order key u h)

pub session_for-IsValid :
    (key : Bytes) (now : ℕ) (fresh : Option Bytes) (u : UdpServerState)
    → IsValid u
    → IsValid (session_for key now fresh u).1
unfolding session_for add_session
session_for-IsValid key now fresh u v = elim (Option-cases (lookup key u.by_peer)) [
  | inr (s, hit) ↦
      rw (session_for, hit)
        (IsTable-touch key (record s { last_active = now }) u.by_peer u.order u.max_sessions v
          (rw hit refl))
  | inl miss ↦ by_fresh fresh miss
]
  where
    by_fresh :
        (f : Option Bytes) → lookup key u.by_peer ≡ none → IsValid (session_for key now f u).1
    by_fresh none miss = rw (session_for, miss) (make_room-IsValid u v).0
    by_fresh (some id) miss =
        let (w, lt) = make_room-IsValid u v in
        rw (session_for, miss)
          (IsTable-add key (record { id = id; last_active = now }) (make_room u).by_peer
            (make_room u).order (make_room u).max_sessions w
            (ground (arith, make_room-lookup key u miss)) lt)

pub drop_session-IsValid : (k : Bytes) (u : UdpServerState) → IsValid u → IsValid (drop_session k u)
unfolding drop_session
drop_session-IsValid k u v = elim (Option-cases (lookup k u.by_peer)) [
  | inl miss ↦ rw (drop_session, miss) v
  | inr (s, hit) ↦
      rw (drop_session, hit) (IsTable-drop k u.by_peer u.order u.max_sessions v (rw hit refl))
]

drop_sessions-IsValid :
    (ks : List Bytes) (u : UdpServerState) → IsValid u → IsValid (drop_sessions ks u)
unfolding drop_sessions
drop_sessions-IsValid [] u v = v
drop_sessions-IsValid (k ∷ ks) u v =
    drop_sessions-IsValid ks (drop_session k u) (drop_session-IsValid k u v)

pub step-IsValid : (c : Call) (u : UdpServerState) → IsValid u → IsValid (step c u)
unfolding step expire_idle close mem lookup
step-IsValid (packet key now fresh) u v = session_for-IsValid key now fresh u v
step-IsValid (tick now) u v = drop_sessions-IsValid (expired_keys now u.session_idle u.by_peer) u v
step-IsValid shut u v = (tt, (λ k. refl), tt, refl, omega arith, v.5)

-- Whatever packets, ticks and closing come: the order lists the peers of the table once each and
-- the table keeps within the limit.
pub run_table-IsValid : (cs : List Call) (u : UdpServerState) → IsValid u → IsValid (run cs u)
unfolding run
run_table-IsValid [] u v = v
run_table-IsValid (c ∷ cs) u v = run_table-IsValid cs (step c u) (step-IsValid c u v)
