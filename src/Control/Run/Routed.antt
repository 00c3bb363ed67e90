-- ===== src/Control/Run/Routed.antt =====
-- internal/control: over every sequence of events, each host in the routing table leads to a
-- registered tunnel of its client, as long as no client asks for a shutdown.
use qoqtun.Prelude.{
  ℕ, ◌≡◌, refl, Bool, true, false, ◌&&◌, Option, none, some, List, [], ◌∷◌, arith, ◌==◌, length,
  Bytes, bytes_eq, nat_eq, Bool-cases, Option-cases, inl, inr,
}
use qoqtun.Prelude.Int.{int_eq}
use qoqtun.Prelude.Maps.{lookup}
use qoqtun.Net.{Net}
use qoqtun.Protocol.Messages.{ClientHello}
use qoqtun.Protocol.Validate.{validate_client_hello}
use qoqtun.Protocol.Frame.{protocol_version}
use qoqtun.Session
use qoqtun.Session.{Session, RegisterResult, registered, exists}
use qoqtun.Control.HalfOpen.{try_acquire}
use qoqtun.Control.Server.{Limits, Server, Outside}
use qoqtun.Control.Connection.{
  First, unreadable, other_type, open_data, client_hello, Message, ping, register_tunnel,
  unregister_tunnel, close_connection, shutdown, unknown, replace_session, join, welcome, greet,
  new_session, end_refused, handle_hello, handle_conn, touch, kick, dispatch, read_message,
}
use qoqtun.Control.DataConns.{splice_done}
use qoqtun.Control.Run.{
  Event, connected, message, ended, public_conn, vhost_conn, spliced, channel_lost, step, run,
}
use qoqtun.Control.Run.Drops.{RoutedState}
use qoqtun.Control.Run.Handlers.{handle_register_tunnel-IsRouted, handle_unregister_tunnel-IsRouted}
use qoqtun.Control.Run.Conns.{
  made-IsRouted, handle_vhost_conn-IsRouted, handle_data_conn-IsRouted, channel_closed-IsRouted,
  on_open-IsRouted,
}
use qoqtun.Control.Run.Ends.{end_control-IsRouted}

module _ {Limiter : Type 0} where
  replace_session-IsRouted :
      (c : ℕ) (sess : Session) (s : Server Limiter)
      → RoutedState s
      → RoutedState (replace_session c sess s).1
  unfolding replace_session kick
  replace_session-IsRouted c sess s g =
      elim (Option-cases (Session.get s.sessions sess.client_id)) [
        | inl gone ↦ rw (replace_session, gone) g
        | inr (old, there) ↦
            by_result (Session.register (Session.unregister s.sessions sess.client_id).1 sess) refl
              there
      ]
    where
      by_result :
          {old : Session} (r : RegisterResult)
          → Session.register (Session.unregister s.sessions sess.client_id).1 sess ≡ r
          → Session.get s.sessions sess.client_id ≡ some old
          → RoutedState (replace_session c sess s).1
      by_result (registered r) h there = rw (replace_session, there, h) g
      by_result exists h there = rw (replace_session, there, h) g

  join-IsRouted :
      (c : ℕ) (sess : Session) (s : Server Limiter) → RoutedState s → RoutedState (join c sess s).1
  unfolding join
  join-IsRouted c sess s g = by_result (Session.register s.sessions sess) refl
    where
      by_result :
          (r : RegisterResult)
          → Session.register s.sessions sess ≡ r
          → RoutedState (join c sess s).1
      by_result (registered r) h = rw (join, h) g
      by_result exists h = rw (join, h) (replace_session-IsRouted c sess s g)

  greet-IsRouted :
      (c : ℕ) (peer : Bytes) (h : Option ClientHello) (now : ℕ) (s : Server Limiter)
      → RoutedState s
      → RoutedState (greet c peer h now s).1
  unfolding greet welcome
  greet-IsRouted c peer none now s g = g
  greet-IsRouted c peer (some h) now s g =
      let j = join c (new_session c peer now) s in
      let g' = join-IsRouted c (new_session c peer now) s g in
      elim (Option-cases (validate_client_hello (some h))) [
        | inr (p, bad) ↦ rw (greet, bad) g
        | inl good ↦ elim (Bool-cases (h.client_id == peer)) [
          | inr other ↦ rw (greet, good, other) g
          | inl own ↦ elim (Bool-cases (h.protocol_version == protocol_version)) [
            | inr old ↦ rw (greet, good, own, old) g
            | inl new ↦ elim (Bool-cases j.0) [
              | inl on ↦ rw (greet, good, own, new, on) (made-IsRouted peer j.1 g')
              | inr off ↦ rw (greet, good, own, new, off) g'
            ]
          ]
        ]
      ]

  handle_hello-IsRouted :
      (c : ℕ) (host peer : Bytes) (h : Option ClientHello) (now : ℕ) (s : Server Limiter)
      → RoutedState s
      → RoutedState (handle_hello c host peer h now s)
  unfolding handle_hello end_refused
  handle_hello-IsRouted c host peer h now s g =
      let a = try_acquire host s.max_half_open s.half_open in
      let s' : Server Limiter = record s { half_open = a.1 } in
      let g' = greet-IsRouted c peer h now s' g in
      elim (Bool-cases a.0) [
        | inr full ↦ rw (handle_hello, full) g
        | inl room ↦ elim (Bool-cases (greet c peer h now s').0) [
          | inl on ↦ rw (handle_hello, room, on) g'
          | inr off ↦ rw (handle_hello, room, off) g'
        ]
      ]

  handle_conn-IsRouted :
      (c : ℕ) (host peer : Bytes) (revoked : Bool) (first : First) (now : ℕ) (s : Server Limiter)
      → RoutedState s
      → RoutedState (handle_conn c host peer revoked first now s)
  unfolding handle_conn
  handle_conn-IsRouted c host peer revoked first now s g = elim (Bool-cases (length peer == 0)) [
    | inl unnamed ↦ rw (handle_conn, unnamed) g
    | inr named ↦ by_first revoked first named
  ]
    where
      by_first :
          (revoked : Bool) (first : First)
          → (length peer == 0) ≡ false
          → RoutedState (handle_conn c host peer revoked first now s)
      by_first true first named = rw (handle_conn, named) g
      by_first false unreadable named = rw (handle_conn, named) g
      by_first false other_type named = rw (handle_conn, named) g
      by_first false (open_data d) named =
          rw (handle_conn, named) (handle_data_conn-IsRouted peer d c now s g)
      by_first false (client_hello h) named =
          rw (handle_conn, named) (handle_hello-IsRouted c host peer h now s g)

  touch-IsRouted :
      (c : ℕ) (id : Bytes) (now : ℕ) (s : Server Limiter)
      → RoutedState s
      → RoutedState (touch c id now s)
  unfolding touch
  touch-IsRouted c id now s g = elim (Option-cases (lookup id s.sessions)) [
    | inl gone ↦ rw (touch, gone) g
    | inr (sess, there) ↦ elim (Bool-cases (sess.conn == c)) [
      | inl own ↦ rw (touch, there, own) g
      | inr other ↦ rw (touch, there, other) g
    ]
  ]

-- The event is no shutdown.
unfoldable pub stays : Event → Bool
stays (message c id shutdown within w) = false
stays _ = true

unfoldable pub all_stay : List Event → Bool
unfolding stays
all_stay [] = true
all_stay (e ∷ es) = stays e && all_stay es

module _ (lim : Limits) (net : Net) where
  dispatch-IsRouted :
      (c : ℕ) (id : Bytes) (m : Message) (within : Bool) (w : Outside) (s : Server lim.Limiter)
      → stays (message c id m within w) ≡ true
      → RoutedState s
      → RoutedState (dispatch lim net c id m w s)
  unfolding dispatch stays
  dispatch-IsRouted c id (ping none) within w s h g = g
  dispatch-IsRouted c id (ping (some echo)) within w s h g = g
  dispatch-IsRouted c id (register_tunnel r) within w s h g =
      handle_register_tunnel-IsRouted lim net c id r w s g
  dispatch-IsRouted c id (unregister_tunnel t) within w s h g =
      handle_unregister_tunnel-IsRouted lim net c id t w.now s g
  dispatch-IsRouted c id close_connection within w s h g = g
  dispatch-IsRouted c id shutdown within w s h g = absurd (ground arith)
  dispatch-IsRouted c id unknown within w s h g = g

  read_message-IsRouted :
      (c : ℕ) (id : Bytes) (m : Message) (within : Bool) (w : Outside) (s : Server lim.Limiter)
      → stays (message c id m within w) ≡ true
      → RoutedState s
      → RoutedState (read_message lim net c id m within w s).1
  unfolding read_message
  read_message-IsRouted c id m true w s h g =
      dispatch-IsRouted c id m true w (touch c id w.now s) h (touch-IsRouted c id w.now s g)
  read_message-IsRouted c id m false w s h g = touch-IsRouted c id w.now s g

  step-IsRouted :
      (e : Event) (s : Server lim.Limiter)
      → stays e ≡ true
      → RoutedState s
      → RoutedState (step lim net e s)
  unfolding step splice_done
  step-IsRouted (connected c host peer revoked first now) s h g =
      handle_conn-IsRouted c host peer revoked first now s g
  step-IsRouted (message c id m within w) s h g = read_message-IsRouted c id m within w s h g
  step-IsRouted (ended c host id now) s h g = end_control-IsRouted c host id now s g
  step-IsRouted (public_conn c id t public ip w) s h g = on_open-IsRouted lim c id t public ip w s g
  step-IsRouted (vhost_conn public stream w) s h g = handle_vhost_conn-IsRouted public stream w s g
  step-IsRouted (spliced id t conn_id rx tx now) s h g = g
  step-IsRouted (channel_lost id t conn w) s h g = channel_closed-IsRouted id t conn w s g

  -- Whatever connections, messages and ends come, in whatever order, from a state in which this
  -- holds: every manager's tables are valid, and every host in the routing table leads to a tunnel
  -- that its client has registered for that host, as long as no client asks for a shutdown.
  pub run-IsRouted :
      (es : List Event) (s : Server lim.Limiter)
      → all_stay es ≡ true
      → RoutedState s
      → RoutedState (run lim net es s)
  unfolding run all_stay
  run-IsRouted [] s h g = g
  run-IsRouted (e ∷ es) s h g =
      run-IsRouted es (step lim net e s) (ground arith) (step-IsRouted e s (ground arith) g)
