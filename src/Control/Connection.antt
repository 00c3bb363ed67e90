-- ===== src/Control/Connection.antt =====
-- internal/control/server.go and shutdown.go: a connection from its first frame to the deferred
-- calls at its end. The outcome of a message limiter and of the one write that is checked are
-- arguments.
use qoqtun.Prelude.{
  ℕ, Bool, true, false, not, Option, none, some, List, [], ◌∷◌, ◌++◌, ◌+◌, ◌*◌, ◌==◌, if◌then◌else◌,
  length, Bytes, bytes_eq, nat_eq, ltb,
}
use qoqtun.Prelude.Int.{ℤ, int_eq, pos_part}
use qoqtun.Prelude.Maps.{lookup, insert}
use qoqtun.Prelude.Strings.{decimal}
use qoqtun.Net.{Net}
use qoqtun.Protocol.Messages.{ClientHello, RegisterTunnel, OpenData, Heartbeat}
use qoqtun.Protocol.Validate.{validate_client_hello}
use qoqtun.Protocol.Frame.{protocol_version}
use qoqtun.Session
use qoqtun.Session.{Session, registered, exists}
use qoqtun.Tunnel.Manager.{Tunnel, ports_of, all_tunnels, unregister_all, second}
use qoqtun.Tunnel.Vhost
use qoqtun.Control.VhostListener.{stop_vhost}
use qoqtun.Control.Ports.{Reservations, reserve_port}
use qoqtun.Control.HalfOpen
use qoqtun.Control.Tunnels.{handle_register_tunnel, handle_unregister_tunnel}
use qoqtun.Control.DataConns.{handle_data_conn}
use qoqtun.Control.Server.{
  Limits, Server, Outside, server_hello, pong, error, send, close_conn, manager_for, put_manager,
  teardown, cleanup_client, policy_from_config, heartbeat_from_config, auth_failed, protocol_error,
  version_unsupported, rate_limited, invalid,
}

-- The first frame of a connection, once it is read; `none` is a payload that does not decode.
pub data First : Type 0 where
  unreadable other_type : First
  open_data : Option OpenData → First
  client_hello : Option ClientHello → First

pub data Message : Type 0 where
  ping : Option Bytes → Message
  register_tunnel : Option RegisterTunnel → Message
  unregister_tunnel : Option Bytes → Message
  close_connection shutdown unknown : Message

-- The loop that holds the ports of a client that is gone.
unfoldable pub reserve_ports : List ℤ → Bytes → ℕ → Reservations → Reservations
reserve_ports [] id now rs = rs
reserve_ports (p ∷ ps) id now rs = reserve_ports ps id now (reserve_port p id (60 * second) now rs)

abbrev pub new_session : ℕ → Bytes → ℕ → Session
new_session c id now = record {
  client_id = id;
  conn = c;
  tunnels = 0;
  conns = 0;
  last_active = now;
}

unfoldable pub is_last : Message → Bool
is_last shutdown = true
is_last _ = false

module _ {Limiter : Type 0} where
  -- A duplicate client id: the older session is told and closed, and its place taken.
  unfoldable pub kick : Session → Server Limiter → Server Limiter
  kick old s = close_conn old.conn (send old.conn (error auth_failed) s)

  unfoldable pub replace_session : ℕ → Session → Server Limiter → Bool × Server Limiter
  unfolding kick
  replace_session c sess s = elim (Session.get s.sessions sess.client_id) [
    | none ↦ (false, send c (error auth_failed) s)
    | some old ↦
        let s' = kick old s in
        elim (Session.register (Session.unregister s'.sessions sess.client_id).1 sess) [
          | exists ↦ (
            false,
            send c (error auth_failed)
                (record s' { sessions = (Session.unregister s'.sessions sess.client_id).1 }),
          )
          | registered r ↦ (true, record s' { sessions = r })
        ]
  ]

  unfoldable pub join : ℕ → Session → Server Limiter → Bool × Server Limiter
  unfolding replace_session
  join c sess s = elim (Session.register s.sessions sess) [
    | registered r ↦ (true, record s { sessions = r })
    | exists ↦ replace_session c sess s
  ]

  -- The session is on, with a manager, and the policy is sent.
  unfoldable pub welcome : ℕ → Bytes → ℕ → Server Limiter → Server Limiter
  welcome c id now s =
      send c
        (server_hello (record {
          session_id = id ++ b'-' ∷ decimal now;
          policy = policy_from_config s.cfg;
          heartbeat = heartbeat_from_config s.cfg;
        }))
        (put_manager id (manager_for id s) s)

  -- `handleControlConn` up to the read loop, and whether that is reached.
  unfoldable pub greet : ℕ → Bytes → Option ClientHello → ℕ → Server Limiter → Bool × Server Limiter
  unfolding join welcome
  greet c peer none now s = (false, send c (error protocol_error) s)
  greet c peer (some h) now s = elim (validate_client_hello (some h)) [
    | some p ↦ (false, send c (error (invalid p)) s)
    | none ↦
        let j = join c (new_session c peer now) s in
        (if not (h.client_id == peer)
          then (false, send c (error auth_failed) s)
          else if not (h.protocol_version == protocol_version)
          then (false, send c (error version_unsupported) s)
          else if j.0
          then (true, welcome c peer now j.1)
          else (false, j.1))
  ]

  -- The deferred loop over the tunnels of the client.
  unfoldable pub release_tunnel : Tunnel → Server Limiter → Server Limiter
  release_tunnel t s = teardown t.id (
      if length t.vhost_host == 0
      then s
      else record s { hosts = Vhost.unregister_tunnel t.id s.hosts })

  unfoldable pub release_tunnels : List Tunnel → Server Limiter → Server Limiter
  unfolding release_tunnel
  release_tunnels [] s = s
  release_tunnels (t ∷ ts) s = release_tunnels ts (release_tunnel t s)

  unfoldable pub clean_up : Bytes → ℕ → Server Limiter → Server Limiter
  clean_up id now s =
      let m = manager_for id s in
      let s' =
        release_tunnels (all_tunnels m)
          (record s { reservations = reserve_ports (ports_of m) id now s.reservations }) in
      let s'' = cleanup_client id (record s' { listener = stop_vhost s'.listener }) in
      put_manager id (unregister_all m) s''

  -- The end of a handler that reached the read loop: the calls deferred by `handleControlConn`,
  -- then those of `handleConn`.
  unfoldable pub end_control : ℕ → Bytes → Bytes → ℕ → Server Limiter → Server Limiter
  unfolding clean_up
  end_control c host id now s =
      let s' = clean_up id now s in
      record s' {
        sessions = (Session.unregister s'.sessions id).1;
        closed = c ∷ s'.closed;
        half_open = HalfOpen.release host s'.half_open;
      }

  -- The end of a handler that was refused.
  unfoldable pub end_refused : ℕ → Bytes → Server Limiter → Server Limiter
  end_refused c host s = record s {
    closed = c ∷ s.closed;
    half_open = HalfOpen.release host s.half_open;
  }

  unfoldable pub handle_hello :
      ℕ → Bytes → Bytes → Option ClientHello → ℕ → Server Limiter → Server Limiter
  unfolding greet end_refused
  handle_hello c host peer hello now s =
      let a = HalfOpen.try_acquire host s.max_half_open s.half_open in
      let g = greet c peer hello now (record s { half_open = a.1 }) in
      if not a.0 then close_conn c s else if g.0 then g.1 else end_refused c host g.1

  -- `handleConn`
  unfoldable pub handle_conn :
      ℕ → Bytes → Bytes → Bool → First → ℕ → Server Limiter → Server Limiter
  unfolding handle_hello
  handle_conn c host peer revoked first now s =
      if length peer == 0
      then close_conn c s
      else if revoked
      then close_conn c (send c (error auth_failed) s)
      else elim first [
        | unreadable ↦ close_conn c s
        | open_data d ↦ handle_data_conn peer d c now s
        | client_hello h ↦ handle_hello c host peer h now s
        | other_type ↦ close_conn c (send c (error protocol_error) s)
      ]

  -- `sess.Touch()`: the session of the connection, if it is still the registered one.
  unfoldable pub touch : ℕ → Bytes → ℕ → Server Limiter → Server Limiter
  touch c id now s = elim (lookup id s.sessions) [
    | none ↦ s
    | some sess ↦
        (if sess.conn == c
          then record s { sessions = insert id (Session.touch now sess) s.sessions }
          else s)
  ]

  -- `handleShutdownFromClient`, up to the wait for the data connections.
  unfoldable pub handle_shutdown : Bytes → Server Limiter → Server Limiter
  handle_shutdown id s = put_manager id (unregister_all (manager_for id s)) s

  -- `superviseHeartbeat` at a tick, in nanoseconds.
  unfoldable pub supervise : ℕ → Heartbeat → ℕ → ℕ → Server Limiter → Server Limiter
  supervise c hb last_active now s =
      if ltb (last_active + (2 * pos_part hb.interval_s + pos_part hb.timeout_s) * second) now
      then close_conn c s
      else s

module _ (lim : Limits) (net : Net) where
  -- A message within the limit of its connection.
  unfoldable pub dispatch : ℕ → Bytes → Message → Outside → Server lim.Limiter → Server lim.Limiter
  dispatch c id (ping none) w s = s
  dispatch c id (ping (some echo)) w s = send c (pong echo) s
  dispatch c id (register_tunnel r) w s = handle_register_tunnel lim net c id r w s
  dispatch c id (unregister_tunnel t) w s = handle_unregister_tunnel lim net c id t w.now s
  dispatch c id close_connection w s = s
  dispatch c id shutdown w s = handle_shutdown id s
  dispatch c id unknown w s = send c (error protocol_error) s

  -- A round of `readLoop`, and whether it is the last.
  unfoldable pub read_message :
      ℕ → Bytes → Message → Bool → Outside → Server lim.Limiter → Bool × Server lim.Limiter
  unfolding dispatch
  read_message c id m within w s =
      let s' = touch c id w.now s in
      if within then (is_last m, dispatch c id m w s') else (true, send c (error rate_limited) s')
