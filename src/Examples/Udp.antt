-- ===== src/Examples/Udp.antt =====
-- internal/tunnel: runs of the UDP frames and session table.
use qoqtun.Prelude.{
  ◌≤◌, ◌≡◌, refl, true, none, some, List, [], ◌∷◌, ◌++◌, arith, if◌then◌else◌, ◌==◌, nat_eq, Bytes,
  codes, bytes_eq, length, is_some, bytes_beq,
}
use qoqtun.Prelude.Int.{int_eq}
use qoqtun.Prelude.Maps.{lookup, insert}
use qoqtun.Tunnel.UdpFrame.{udp_frame, read_udp_frame, got}
use qoqtun.Tunnel.UdpFrame.{read-frame}
use qoqtun.Tunnel.UdpSessions.{
  UdpServerState, Call, packet, tick, run, session_for, session_by_id, expire_idle, make_room,
}
use qoqtun.Tunnel.UdpSessions.Table.{IsValid, run_table-IsValid}
use qoqtun.Tunnel.UdpSessions.Lru.{activity, Ascending, clock_after, run-Ascending}
use qoqtun.Tunnel.UdpSessions.Eviction.{session_for_lru}
use qoqtun.Tunnel.UdpSessions.Reply.{IsLinked, session_for_reply}

abbrev an_id : Bytes
an_id = codes "0123456789abcdef"

abbrev a_frame : Bytes
a_frame = 0 ∷ 0 ∷ 0 ∷ 18 ∷ codes "0123456789abcdefhi"

read-frame_example :
    read_udp_frame (a_frame ++ codes "rest") 1500 ≡ got an_id (codes "hi") (codes "rest")
unfolding udp_frame qoqtun.Tunnel.UdpFrame.put_uint32
read-frame_example = read-frame an_id (codes "hi") a_frame (codes "rest") 1500 refl (omega arith)

-- A table of two sessions at most, which idle for ten.
abbrev empty : UdpServerState
empty = record {
  by_peer = [];
  by_id = [];
  order = [];
  max_sessions = 2;
  max_packet = 1500;
  session_idle = 10;
}

empty-IsValid : IsValid empty
unfolding lookup qoqtun.Tunnel.UdpSessions.mem
empty-IsValid = (tt, (λ k. refl), tt, refl, omega arith, omega arith)

abbrev three_peers : List Call
three_peers =
    packet (codes "p") 1 (some (codes "1"))
    ∷ packet (codes "q") 2 (some (codes "2"))
    ∷ packet (codes "r") 3 (some (codes "3"))
    ∷ tick 4
    ∷ []

run_table-IsValid_example : IsValid (run three_peers empty)
run_table-IsValid_example = run_table-IsValid three_peers empty empty-IsValid

run-Ascending_example :
    Ascending
      (run three_peers empty).by_peer
      (clock_after three_peers 0)
      (run three_peers empty).order
unfolding qoqtun.Tunnel.UdpSessions.Lru.clock
run-Ascending_example =
    run-Ascending three_peers 0 empty empty-IsValid tt
      (omega arith, (omega arith, (omega arith, (omega arith, tt))))

-- Two sessions fill the table.
abbrev two_peers : List Call
two_peers = packet (codes "p") 1 (some (codes "1")) ∷ packet (codes "q") 2 (some (codes "2")) ∷ []

abbrev reached : UdpServerState
reached = run two_peers empty

reached_no_r : lookup (codes "r") reached.by_peer ≡ none
unfolding lookup run qoqtun.Tunnel.UdpSessions.step session_for
    qoqtun.Tunnel.UdpSessions.add_session insert make_room bytes_beq
reached_no_r = refl

reached_full : length reached.by_peer ≡ reached.max_sessions
unfolding run qoqtun.Tunnel.UdpSessions.step session_for lookup
    qoqtun.Tunnel.UdpSessions.add_session insert make_room bytes_beq
reached_full = refl

session_for_lru_example :
    (victim : Bytes) × (is_some (lookup victim reached.by_peer) ≡ true)
    × ((j : Bytes)
        → is_some (lookup j reached.by_peer) ≡ true
        → activity reached.by_peer victim ≤ activity reached.by_peer j)
    × ((j : Bytes)
        → lookup j (session_for (codes "r") 3 (some (codes "3")) reached).1.by_peer ≡ (
            if codes "r" == j
            then some (record { id = codes "3"; last_active = 3 })
            else if victim == j
            then none
            else lookup j reached.by_peer))
unfolding qoqtun.Tunnel.UdpSessions.Lru.clock clock_after
session_for_lru_example =
    session_for_lru (codes "r") 3 2 (codes "3") reached
      (run_table-IsValid two_peers empty empty-IsValid)
      (run-Ascending two_peers 0 empty empty-IsValid tt (omega arith, (omega arith, tt)))
      reached_no_r reached_full

empty-IsLinked : IsLinked empty.by_peer empty.by_id
unfolding lookup
empty-IsLinked k s h = ground arith

session_for_reply_example :
    (id : Bytes) × ((session_for (codes "p") 1 (some (codes "1")) empty).0 ≡ some id)
    × (session_by_id id (session_for (codes "p") 1 (some (codes "1")) empty).1 ≡ some (codes "p"))
    × IsLinked
        (session_for (codes "p") 1 (some (codes "1")) empty).1.by_peer
        (session_for (codes "p") 1 (some (codes "1")) empty).1.by_id
unfolding lookup
session_for_reply_example = session_for_reply (codes "p") 1 (codes "1") empty empty-IsLinked refl
