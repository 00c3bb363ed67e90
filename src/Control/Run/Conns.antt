-- ===== src/Control/Run/Conns.antt =====
-- internal/control: public and data connections leave the routing table in step with the managers.
use qoqtun.Prelude.{
  ℕ, ◌≡◌, refl, Option, none, some, ◌==◌, ◌*◌, Bytes, codes, bytes_eq, nat_eq, Bool-cases,
  Option-cases, inl, inr,
}
use qoqtun.Prelude.Int.{pos}
use qoqtun.Prelude.Maps.{insert}
use qoqtun.Protocol.Messages.{OpenData}
use qoqtun.Protocol.Validate.{validate_open_data}
use qoqtun.Tunnel.Manager.{
  Tunnel, Manager, claim_data, second, Claimed, paired, unknown_conn, claim_timed_out, tunnel_gone,
  tunnel_by_id,
}
use qoqtun.Tunnel.Manager.Steps.{claim_data-IsValid}
use qoqtun.Tunnel.Sniff.{Stream, Sniffed, sniff_host, sniffed, rejected, max_sniff_bytes}
use qoqtun.Tunnel.Vhost.{Entry, route}
use qoqtun.Security.IpGate
use qoqtun.Session.{Session, get}
use qoqtun.Control.DataQuota.{acquire_data_quota}
use qoqtun.Control.Server.{Limits, Server, Outside, manager_in, use_buckets}
use qoqtun.Control.PublicConns.{
  offered, offer, admit, release_gate, tell_client, offered_vhost, offer_vhost, admit_vhost,
  to_tunnel, handle_vhost_conn, on_open,
}
use qoqtun.Control.DataConns.{
  set_udp_channel, start_channel, start_data, claimed, claim, handle_data_conn, reopen,
  channel_closed,
}
use qoqtun.Control.Run.Table.{IsRouted, manager_in-IsValid, extend-IsRouted}
use qoqtun.Control.Run.Managers.{claim_data-tunnels}
use qoqtun.Control.Run.Drops.{RoutedState, open-IsRouted}

module _ {Limiter : Type 0} where
  offered-IsRouted :
      (c : ℕ) (id : Bytes) (t : Tunnel) (public : ℕ) (s : Server Limiter)
      (o : Option Bytes × Manager)
      → RoutedState s
      → IsRouted (insert id o.1 s.managers) s.hosts
      → RoutedState (offered c id t public s o)
  unfolding offered
  offered-IsRouted c id t public s (none, m) g g' = g
  offered-IsRouted c id t public s (some conn_id, m) g g' = g'

  admit-IsRouted :
      (c : ℕ) (id : Bytes) (t : Tunnel) (public : ℕ) (w : Outside) (s : Server Limiter)
      → RoutedState s
      → RoutedState (admit c id t public w s)
  unfolding admit offer use_buckets
  admit-IsRouted c id t public w s g = elim (Bool-cases (acquire_data_quota id t.id s.quotas).0) [
    | inr full ↦ rw (admit, full) g
    | inl room ↦
        rw (admit, room)
          (offered-IsRouted c id t public _ _ g (open-IsRouted id t _ _ _ _ s.managers s.hosts g))
  ]

  offered_vhost-IsRouted :
      (id : Bytes) (t : Tunnel) (public : ℕ) (s : Server Limiter) (o : Option Bytes × Manager)
      → RoutedState s
      → IsRouted (insert id o.1 s.managers) s.hosts
      → RoutedState (offered_vhost id t public s o)
  unfolding offered_vhost tell_client
  offered_vhost-IsRouted id t public s (none, m) g g' = g
  offered_vhost-IsRouted id t public s (some conn_id, m) g g' = by_session (get s.sessions id)
    where
      by_session :
          (o : Option Session)
          → RoutedState
              (tell_client conn_id t.id public o (record s { managers = insert id m s.managers }))
      by_session none = g'
      by_session (some sess) = g'

  admit_vhost-IsRouted :
      (id : Bytes) (t : Tunnel) (public : ℕ) (w : Outside) (s : Server Limiter)
      → RoutedState s
      → RoutedState (admit_vhost id t public w s)
  unfolding admit_vhost offer_vhost use_buckets
  admit_vhost-IsRouted id t public w s g =
      elim (Bool-cases (acquire_data_quota id t.id s.quotas).0) [
        | inr full ↦ rw (admit_vhost, full) g
        | inl room ↦
            rw (admit_vhost, room)
              (offered_vhost-IsRouted id t public _ _ g
                (open-IsRouted id t _ _ _ _ s.managers s.hosts g))
      ]

  -- A manager that is made on its first use has no tunnels.
  pub made-IsRouted :
      (id : Bytes) (s : Server Limiter)
      → RoutedState s
      → IsRouted (insert id (manager_in id s.managers) s.managers) s.hosts
  made-IsRouted id s g =
      extend-IsRouted id s.managers (manager_in id s.managers) s.hosts g
        (manager_in-IsValid id s.managers g.valid) (λ j t h. h)

  to_tunnel-IsRouted :
      (e : Entry) (public : ℕ) (w : Outside) (s : Server Limiter)
      → RoutedState s
      → RoutedState (to_tunnel e public w s)
  unfolding to_tunnel tunnel_by_id
  to_tunnel-IsRouted e public w s g =
      let g' = made-IsRouted e.client_id s g in
      elim (Option-cases (tunnel_by_id (manager_in e.client_id s.managers) e.tunnel_id)) [
        | inl gone ↦ rw (to_tunnel, gone) g'
        | inr (t, there) ↦ rw (to_tunnel, there) (admit_vhost-IsRouted e.client_id t public w _ g')
      ]

  pub handle_vhost_conn-IsRouted :
      (public : ℕ) (stream : Stream) (w : Outside) (s : Server Limiter)
      → RoutedState s
      → RoutedState (handle_vhost_conn public stream w s)
  unfolding handle_vhost_conn
  handle_vhost_conn-IsRouted public stream w s g =
      by_sniff (sniff_host stream (pos max_sniff_bytes)) refl
    where
      by_sniff :
          (x : Sniffed)
          → sniff_host stream (pos max_sniff_bytes) ≡ x
          → RoutedState (handle_vhost_conn public stream w s)
      by_sniff (rejected e) h = rw (handle_vhost_conn, h) g
      by_sniff (sniffed host prefix rest) h = elim (Option-cases (route s.hosts host)) [
        | inl miss ↦ rw (handle_vhost_conn, h, miss) g
        | inr (e, hit) ↦ rw (handle_vhost_conn, h, hit) (to_tunnel-IsRouted e public w s g)
      ]

  start_channel-IsRouted :
      (id : Bytes) (t : Tunnel) (public : Option ℕ) (conn : ℕ) (s : Server Limiter)
      → RoutedState s
      → RoutedState (start_channel id t public conn s)
  unfolding start_channel set_udp_channel use_buckets
  start_channel-IsRouted id t none conn s g =
      elim (Bool-cases (acquire_data_quota id t.id s.quotas).0) [
        | inl room ↦ rw (start_channel, room) g
        | inr full ↦ rw (start_channel, full) g
      ]
  start_channel-IsRouted id t (some public) conn s g =
      elim (Bool-cases (acquire_data_quota id t.id s.quotas).0) [
        | inl room ↦ rw (start_channel, room) g
        | inr full ↦ rw (start_channel, full) g
      ]

  claimed-IsRouted :
      (id conn_id : Bytes) (conn : ℕ) (s : Server Limiter) (r : Claimed × Manager)
      → IsRouted (insert id r.1 s.managers) s.hosts
      → RoutedState (claimed id conn_id conn s r)
  unfolding claimed start_data
  claimed-IsRouted id conn_id conn s (paired public t, m) g =
      elim (Bool-cases (t.typ == codes "udp")) [
        | inl udp ↦ rw (claimed, start_data, udp) (start_channel-IsRouted id t public conn _ g)
        | inr tcp ↦ rw (claimed, start_data, tcp) g
      ]
  claimed-IsRouted id conn_id conn s (unknown_conn, m) g = g
  claimed-IsRouted id conn_id conn s (claim_timed_out, m) g = g
  claimed-IsRouted id conn_id conn s (tunnel_gone, m) g = g

  pub handle_data_conn-IsRouted :
      (id : Bytes) (d : Option OpenData) (conn now : ℕ) (s : Server Limiter)
      → RoutedState s
      → RoutedState (handle_data_conn id d conn now s)
  unfolding handle_data_conn claim
  handle_data_conn-IsRouted id none conn now s g = g
  handle_data_conn-IsRouted id (some d) conn now s g =
      elim (Option-cases (validate_open_data (some d))) [
        | inr (p, bad) ↦ rw (handle_data_conn, bad) g
        | inl good ↦
            let m = manager_in id s.managers in
            rw (handle_data_conn, good)
              (claimed-IsRouted id d.conn_id conn s (claim_data m d.conn_id now) (
                extend-IsRouted id s.managers (claim_data m d.conn_id now).1 s.hosts g
                  (claim_data-IsValid m d.conn_id now (manager_in-IsValid id s.managers g.valid))
                  (λ j t h. rw (claim_data-tunnels m d.conn_id now) h)))
      ]

  reopen-IsRouted :
      (id : Bytes) (t : Tunnel) (sess : Option Session) (s : Server Limiter)
      (o : Option Bytes × Manager)
      → RoutedState s
      → IsRouted (insert id o.1 s.managers) s.hosts
      → RoutedState (reopen id t sess s o)
  unfolding reopen
  reopen-IsRouted id t none s o g g' = g
  reopen-IsRouted id t (some sess) s (none, m) g g' = g
  reopen-IsRouted id t (some sess) s (some conn_id, m) g g' = g'

  pub channel_closed-IsRouted :
      (id : Bytes) (t : Tunnel) (conn : ℕ) (w : Outside) (s : Server Limiter)
      → RoutedState s
      → RoutedState (channel_closed id t conn w s)
  unfolding channel_closed
  channel_closed-IsRouted id t conn w s g =
      reopen-IsRouted id t (get s.sessions id) _ _ g
        (open-IsRouted id t none (pos (10 * second)) w.now w.fresh_id s.managers s.hosts g)

module _ (lim : Limits) where
  pub on_open-IsRouted :
      (c : ℕ) (id : Bytes) (t : Tunnel) (public : ℕ) (ip : Bytes) (w : Outside)
      (s : Server lim.Limiter)
      → RoutedState s
      → RoutedState (on_open lim c id t public ip w s)
  unfolding on_open release_gate
  on_open-IsRouted c id t public ip w s g =
      elim (Bool-cases (IpGate.allow_conn lim.new_limiter lim.allow s.gate w.now ip).0) [
        | inl may ↦ rw (on_open, may) (admit-IsRouted c id t public w _ g)
        | inr out ↦ rw (on_open, out) g
      ]
