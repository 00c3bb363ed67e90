-- ===== src/Tunnel/UdpSessions.antt =====
-- internal/tunnel/udp_server.go: the session table of one UDP tunnel. A peer is the string of its
-- address, which the maps are keyed by; the socket is not in the state. `byID` points to the
-- sessions of `byPeer`, and of a session found there only the peer is read.
pub mod Table
pub mod Lru
pub mod Eviction
pub mod Expiry
pub mod Reply
use qoqtun.Prelude.{
  ℕ, zero, suc, ◌+◌, Bool, false, ◌||◌, Option, none, some, List, [], ◌∷◌, ◌++◌, if◌then◌else◌,
  ◌==◌, ltb, leb, nat_eq, Bytes, bytes_eq, length, ◌*◌, ◌/◌, ◌%◌,
}
use qoqtun.Prelude.Int.{ℤ, pos, pos_part, ltz, lez, int_eq}
use qoqtun.Prelude.Maps.{Map, lookup, insert, delete}

pub record Session : Type 0 where
  pub id : Bytes
  pub last_active : ℕ

pub record UdpServerState : Type 0 where
  pub by_peer : Map Bytes Session
  pub by_id : Map Bytes Bytes
  pub order : List Bytes
  pub max_sessions : ℕ
  pub max_packet : ℕ
  pub session_idle : ℕ

-- `udpMaxPacket`
abbrev pub udp_max_packet : ℕ
udp_max_packet = 65507

-- `newUDPServerState` after the bind, in nanoseconds.
unfoldable pub new_udp_server_state : ℤ → ℤ → ℤ → UdpServerState
new_udp_server_state max_sessions max_packet idle = record {
  by_peer = [];
  by_id = [];
  order = [];
  max_sessions = if lez max_sessions (pos 0) then 256 else pos_part max_sessions;
  max_packet =
      if lez max_packet (pos 0) || ltz (pos udp_max_packet) max_packet
      then 1500
      else pos_part max_packet;
  session_idle = if lez idle (pos 0) then 60 * 1000000000 else pos_part idle;
}

unfoldable pub hex_digit : ℕ → ℕ
hex_digit d = if ltb d 10 then 48 + d else 87 + d

-- `hexID`
unfoldable pub hex_id : Bytes → Bytes
hex_id [] = []
hex_id (c ∷ s) = hex_digit (c / 16) ∷ hex_digit (c % 16) ∷ hex_id s

unfoldable pub mem : Bytes → List Bytes → Bool
mem k [] = false
mem k (j ∷ o) = j == k || mem k o

-- `removeOrderLocked`: the first occurrence.
unfoldable pub remove_order : Bytes → List Bytes → List Bytes
remove_order k [] = []
remove_order k (j ∷ o) = if j == k then o else j ∷ remove_order k o

-- `touchLocked`
unfoldable pub touch : Bytes → List Bytes → List Bytes
touch k o = if mem k o then remove_order k o ++ k ∷ [] else o

-- `evictLRULocked`, given the order.
unfoldable pub evict_from : List Bytes → UdpServerState → UdpServerState
evict_from [] u = u
evict_from (oldest ∷ o) u = elim (lookup oldest u.by_peer) [
  | none ↦ record u { order = o }
  | some s ↦ record u {
    order = o;
    by_peer = delete oldest u.by_peer;
    by_id = delete (hex_id s.id) u.by_id;
  }
]

unfoldable pub evict_lru : UdpServerState → UdpServerState
evict_lru u = evict_from u.order u

-- The capacity check of `sessionFor`.
unfoldable pub make_room : UdpServerState → UdpServerState
make_room u = if leb u.max_sessions (length u.by_peer) then evict_lru u else u

unfoldable pub add_session : Bytes → ℕ → Bytes → UdpServerState → UdpServerState
add_session key now id u = record u {
  by_peer = insert key (record { id = id; last_active = now }) u.by_peer;
  by_id = insert (hex_id id) key u.by_id;
  order = u.order ++ key ∷ [];
}

-- `sessionFor`: the id of the session, or `none` for a packet to drop. The outcome of
-- `NewSessionID` is an argument.
unfoldable pub session_for :
    Bytes → ℕ → Option Bytes → UdpServerState → Option Bytes × UdpServerState
session_for key now fresh u = elim (lookup key u.by_peer) [
  | some s ↦ (
    some s.id,
    record u {
      by_peer = insert key (record s { last_active = now }) u.by_peer;
      order = touch key u.order;
    },
  )
  | none ↦ elim fresh [
    | none ↦ (none, make_room u)
    | some id ↦ (some id, add_session key now id (make_room u))
  ]
]

-- `sessionByID`: the peer of the session.
unfoldable pub session_by_id : Bytes → UdpServerState → Option Bytes
session_by_id id u = lookup (hex_id id) u.by_id

-- `now.Sub(s.lastActive) > u.sessionIdle`
unfoldable pub is_idle : ℕ → ℕ → Session → Bool
is_idle now idle s = ltb (s.last_active + idle) now

-- The first loop of `expireIdle`.
unfoldable pub expired_keys : ℕ → ℕ → Map Bytes Session → List Bytes
expired_keys now idle [] = []
expired_keys now idle ((k, s) ∷ m) =
    if is_idle now idle s then k ∷ expired_keys now idle m else expired_keys now idle m

-- A round of its second loop.
unfoldable pub drop_session : Bytes → UdpServerState → UdpServerState
drop_session k u = elim (lookup k u.by_peer) [
  | none ↦ u
  | some s ↦ record u {
    by_peer = delete k u.by_peer;
    by_id = delete (hex_id s.id) u.by_id;
    order = remove_order k u.order;
  }
]

unfoldable pub drop_sessions : List Bytes → UdpServerState → UdpServerState
drop_sessions [] u = u
drop_sessions (k ∷ ks) u = drop_sessions ks (drop_session k u)

-- `expireIdle`
unfoldable pub expire_idle : ℕ → UdpServerState → ℕ × UdpServerState
expire_idle now u =
    let expired = expired_keys now u.session_idle u.by_peer in
    (length expired, drop_sessions expired u)

unfoldable pub count : UdpServerState → ℕ
count u = length u.by_peer

unfoldable pub close : UdpServerState → UdpServerState
close u = record u { by_peer = []; by_id = []; order = [] }

-- `rateAllow`, on the limiter of a package that is not the repository's.
unfoldable pub rate_allow :
    {L : Type 0} → L → (L → Bool × L) → Bytes → Map Bytes L → Bool × Map Bytes L
rate_allow {L = L} new_limiter allow ip rates =
    let l : L = elim (lookup ip rates) [ none ↦ new_limiter | some l ↦ l ] in
    let (ok, l') = allow l in (ok, insert ip l' rates)

pub data Call : Type 0 where
  packet : Bytes → ℕ → Option Bytes → Call
  tick : ℕ → Call
  shut : Call

unfoldable pub step : Call → UdpServerState → UdpServerState
step (packet key now fresh) u = (session_for key now fresh u).1
step (tick now) u = (expire_idle now u).1
step shut u = close u

unfoldable pub run : List Call → UdpServerState → UdpServerState
run [] u = u
run (c ∷ cs) u = run cs (step c u)
