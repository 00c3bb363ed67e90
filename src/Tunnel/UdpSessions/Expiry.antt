-- ===== src/Tunnel/UdpSessions/Expiry.antt =====
-- internal/tunnel/udp_server.go: `expireIdle` takes exactly the idle sessions.
use qoqtun.Prelude.{
  ℕ, ◌+◌, ◌≡◌, refl, false, none, some, List, [], ◌∷◌, arith, if◌then◌else◌, ◌==◌, ltb, nat_eq,
  Bytes, bytes_eq, Bool-cases, Option-cases, inl, inr, bytes_beq_iff,
}
use qoqtun.Prelude.Int.{int_eq}
use qoqtun.Prelude.Maps.{Map, lookup, IsDistinct, lookup-delete}
use qoqtun.Tunnel.UdpSessions.{
  Session, UdpServerState, mem, is_idle, expired_keys, drop_session, drop_sessions, expire_idle,
}

mem-expired_keys :
    (now idle : ℕ) (m : Map Bytes Session) (j : Bytes)
    → IsDistinct m
    → mem j (expired_keys now idle m)
      ≡ elim (lookup j m) [ none ↦ false | some s ↦ is_idle now idle s ]
unfolding mem expired_keys lookup
mem-expired_keys now idle [] j d = refl
mem-expired_keys now idle ((k, s) ∷ m) j d = elim (Bool-cases (is_idle now idle s)) [
  | inl e ↦ ground (arith, mem-expired_keys now idle m j d.1, bytes_beq_iff k j)
  | inr e ↦ ground (arith, mem-expired_keys now idle m j d.1, bytes_beq_iff k j)
]

lookup-drop_session :
    (k j : Bytes) (u : UdpServerState)
    → lookup j (drop_session k u).by_peer ≡ (if k == j then none else lookup j u.by_peer)
unfolding drop_session
lookup-drop_session k j u = elim (Option-cases (lookup k u.by_peer)) [
  | inl miss ↦ rw (drop_session, miss) (ground (arith, bytes_beq_iff k j))
  | inr (s, hit) ↦ rw (drop_session, hit) (lookup-delete k j u.by_peer)
]

lookup-drop_sessions :
    (ks : List Bytes) (j : Bytes) (u : UdpServerState)
    → lookup j (drop_sessions ks u).by_peer ≡ (if mem j ks then none else lookup j u.by_peer)
unfolding drop_sessions mem
lookup-drop_sessions [] j u = refl
lookup-drop_sessions (k ∷ ks) j u =
    ground (arith, lookup-drop_sessions ks j (drop_session k u), lookup-drop_session k j u)

-- After expiry a peer has its session still exactly if it was not idle for longer than the limit.
pub expire_idle_effect :
    (now : ℕ) (u : UdpServerState) (j : Bytes)
    → IsDistinct u.by_peer
    → lookup j (expire_idle now u).1.by_peer ≡ elim (lookup j u.by_peer) [
      | none ↦ none
      | some s ↦ (if ltb (s.last_active + u.session_idle) now then none else some s)
    ]
unfolding expire_idle is_idle
expire_idle_effect now u j d =
    let ks = expired_keys now u.session_idle u.by_peer in
    ground (arith, lookup-drop_sessions ks j u, mem-expired_keys now u.session_idle u.by_peer j d)
