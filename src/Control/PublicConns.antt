-- ===== src/Control/PublicConns.antt =====
-- internal/control/server.go and vhost.go: a public connection from its arrival to the request that
-- the client open a data connection for it.
use qoqtun.Prelude.{ℕ, Option, none, some, ◌*◌, if◌then◌else◌, Bytes}
use qoqtun.Prelude.Int.{pos}
use qoqtun.Tunnel.Manager.{Tunnel, Manager, open_connection, tunnel_by_id, second}
use qoqtun.Tunnel.Sniff.{Stream, sniff_host, sniffed, rejected, max_sniff_bytes}
use qoqtun.Tunnel.Vhost.{Entry, route}
use qoqtun.Security.IpGate
use qoqtun.Session.{Session, get}
use qoqtun.Metrics.{conn_opened}
use qoqtun.Control.DataQuota.{acquire_data_quota, release_data_quota}
use qoqtun.Control.Server.{
  Limits, Server, Outside, Frame, http_error, send, close_conn, manager_for, put_manager,
  use_buckets,
}

module _ {Limiter : Type 0} where
  -- The end of `onOpen`: the connection waits under a random id, and its client is told.
  unfoldable pub offered :
      ℕ → Bytes → Tunnel → ℕ → Server Limiter → Option Bytes × Manager → Server Limiter
  offered c id t public s (none, m) =
      close_conn public (record s { quotas = release_data_quota id t.id s.quotas })
  offered c id t public s (some conn_id, m) =
      send c (Frame.open_connection conn_id t.id) (put_manager id m s)

  unfoldable pub offer : ℕ → Bytes → Tunnel → ℕ → Outside → Server Limiter → Server Limiter
  unfolding offered
  offer c id t public w s =
      offered c id t public s
        (open_connection (manager_for id s) t (some public) (pos (10 * second)) w.now w.fresh_id)

  -- The quotas of the client and of the tunnel.
  unfoldable pub admit : ℕ → Bytes → Tunnel → ℕ → Outside → Server Limiter → Server Limiter
  unfolding offer
  admit c id t public w s =
      let q = acquire_data_quota id t.id s.quotas in
      let s' : Server Limiter = record s { quotas = q.1 } in
      if q.0
      then offer c id t public w
          (use_buckets id t.id (record s' { stats = conn_opened id t.id s'.stats }))
      else close_conn public s'

  unfoldable pub release_gate : Bytes → Server Limiter → Server Limiter
  release_gate ip s = record s { gate = IpGate.release s.gate ip }

  -- `handleVhostConn` once the tunnel is known.
  unfoldable pub tell_client : Bytes → Bytes → ℕ → Option Session → Server Limiter → Server Limiter
  tell_client conn_id tunnel_id public none s = close_conn public s
  tell_client conn_id tunnel_id public (some sess) s =
      send sess.conn (Frame.open_connection conn_id tunnel_id) s

  unfoldable pub offered_vhost :
      Bytes → Tunnel → ℕ → Server Limiter → Option Bytes × Manager → Server Limiter
  unfolding tell_client
  offered_vhost id t public s (none, m) =
      close_conn public
        (send public (http_error 503) (record s { quotas = release_data_quota id t.id s.quotas }))
  offered_vhost id t public s (some conn_id, m) =
      tell_client conn_id t.id public (get s.sessions id) (put_manager id m s)

  unfoldable pub offer_vhost : Bytes → Tunnel → ℕ → Outside → Server Limiter → Server Limiter
  unfolding offered_vhost
  offer_vhost id t public w s =
      offered_vhost id t public s
        (open_connection (manager_for id s) t (some public) (pos (10 * second)) w.now w.fresh_id)

  unfoldable pub admit_vhost : Bytes → Tunnel → ℕ → Outside → Server Limiter → Server Limiter
  unfolding offer_vhost
  admit_vhost id t public w s =
      let q = acquire_data_quota id t.id s.quotas in
      let s' : Server Limiter = record s { quotas = q.1 } in
      if q.0
      then offer_vhost id t public w (use_buckets id t.id s')
      else close_conn public (send public (http_error 503) s')

  unfoldable pub to_tunnel : Entry → ℕ → Outside → Server Limiter → Server Limiter
  unfolding admit_vhost
  to_tunnel e public w s =
      let s' = put_manager e.client_id (manager_for e.client_id s) s in
      elim (tunnel_by_id (manager_for e.client_id s) e.tunnel_id) [
        | none ↦ close_conn public (send public (http_error 503) s')
        | some t ↦ admit_vhost e.client_id t public w s'
      ]

  -- `handleVhostConn`
  unfoldable pub handle_vhost_conn : ℕ → Stream → Outside → Server Limiter → Server Limiter
  unfolding to_tunnel
  handle_vhost_conn public stream w s = elim (sniff_host stream (pos max_sniff_bytes)) [
    | rejected e ↦ close_conn public (send public (http_error 400) s)
    | sniffed host prefix rest ↦ elim (route s.hosts host) [
      | none ↦ close_conn public (send public (http_error 421) s)
      | some e ↦ to_tunnel e public w s
    ]
  ]

module _ (lim : Limits) where
  -- `onOpen` of a tunnel of the client whose control connection is `c`. The slot of the address is
  -- given back when the handler returns.
  unfoldable pub on_open :
      ℕ → Bytes → Tunnel → ℕ → Bytes → Outside → Server lim.Limiter → Server lim.Limiter
  unfolding admit release_gate
  on_open c id t public ip w s =
      let a = IpGate.allow_conn lim.new_limiter lim.allow s.gate w.now ip in
      let s' : Server lim.Limiter = record s { gate = a.1 } in
      if a.0 then release_gate ip (admit c id t public w s') else close_conn public s'
