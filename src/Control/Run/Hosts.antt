-- ===== src/Control/Run/Hosts.antt =====
-- internal/control/server.go: a shared host that is registered gets its entry of the routing table.
use qoqtun.Prelude.{
  ℕ, suc, ◌≡◌, refl, false, not, some, ◌==◌, length, is_some, Bytes, codes, bytes_eq, nat_eq,
  Bool-cases, Option-cases, inl, inr, sym, subst,
}
use qoqtun.Prelude.Int.{pos, int_eq}
use qoqtun.Prelude.Maps.{lookup, insert, lookup-insert_self}
use qoqtun.Protocol.Messages.{RegisterTunnel}
use qoqtun.Tunnel.Host
use qoqtun.Tunnel.Host.{normalize_host}
use qoqtun.Tunnel.Manager.{
  Tunnel, Manager, at_limit, fresh_tunnel, add_vhost_tunnel, ok, err, tunnel_limit,
}
use qoqtun.Tunnel.Manager.Invariant.{IsValid}
use qoqtun.Tunnel.Manager.Steps.{add_vhost_tunnel-IsValid}
use qoqtun.Tunnel.Vhost
use qoqtun.Tunnel.Vhost.{Entry, VhostTable}
use qoqtun.Control.VhostListener.{start_vhost}
use qoqtun.Control.Server.{Server, Outside, manager_in, policy_from_config}
use qoqtun.Control.Tunnels.{
  start_listener, route_host, place_vhost, add_vhost, handle_register_vhost,
}
use qoqtun.Control.Run.Table.{Serves, manager_in-IsValid, extend-IsRouted, add_host-IsRouted}
use qoqtun.Control.Run.Managers.{fresh-absent, insert-Extends, normalize-nonempty}
use qoqtun.Control.Run.Drops.{
  RoutedState, drop-IsRouted, drop_hosts-IsRouted, host-served, absent-apart,
}

module _ {Limiter : Type 0} where
  start_listener-IsRouted :
      (c : ℕ) (id : Bytes) (t : Tunnel) (w : Outside) (s : Server Limiter)
      → RoutedState s
      → RoutedState (start_listener c id t w s)
  unfolding start_listener
  start_listener-IsRouted c id t w s g =
      elim (Bool-cases (start_vhost s.vhost_port (not (is_some w.bind_error)) s.listener).0) [
        | inl up ↦ rw (start_listener, up) g
        | inr down ↦ rw (start_listener, down) (drop_hosts-IsRouted id t.id s.managers s.hosts g)
      ]

  route_host-IsRouted :
      (c : ℕ) (id host : Bytes) (t : Tunnel) (w : Outside) (m : Manager) (s : Server Limiter)
      → RoutedState s
      → lookup id s.managers ≡ some m
      → Serves m t.id host
      → ((h : Bytes) (e : Entry)
          → lookup h s.hosts ≡ some e
          → e.client_id ≡ id
          → (t.id == e.tunnel_id) ≡ false)
      → RoutedState (route_host c id host t w s)
  unfolding route_host Vhost.register
  route_host-IsRouted c id host t w m s g there serves new =
      elim (Option-cases (lookup host s.hosts)) [
        | inr (e, taken) ↦
            rw (route_host, Vhost.register, taken)
              (drop-IsRouted id t.id s.managers s.hosts s.hosts g g.distinct_hosts (λ h e at. at)
                (λ h e at own served. new h e at own))
        | inl free ↦
            rw (route_host, Vhost.register, free)
              (start_listener-IsRouted c id t w _
                (add_host-IsRouted id host s.managers m t s.hosts g there serves))
      ]

  add_vhost-IsRouted :
      (c : ℕ) (id : Bytes) (r : RegisterTunnel) (host : Bytes) (w : Outside) (s : Server Limiter)
      → (length host == 0) ≡ false
      → RoutedState s
      → RoutedState (add_vhost c id r host w s)
  unfolding add_vhost place_vhost add_vhost_tunnel fresh_tunnel
  add_vhost-IsRouted c id r host w s named g =
      let limit = (policy_from_config s.cfg).max_tunnels in
      let m = manager_in id s.managers in
      elim (Bool-cases (at_limit m limit)) [
        | inl full ↦
            let same : add_vhost_tunnel m r.name host limit ≡ (err tunnel_limit, m) =
              rw (add_vhost_tunnel, full) refl in
            subst (λ a. RoutedState (place_vhost c id r host w s a)) (sym same) g
        | inr room ↦
            let t = fresh_tunnel m r.name (codes "http") (pos 0) host in
            let m' : Manager = record m { seq = suc m.seq; tunnels = insert t.id t m.tunnels } in
            let v = manager_in-IsValid id s.managers g.valid in
            let absent = fresh-absent m r.name (codes "http") (pos 0) host v in
            let made : add_vhost_tunnel m r.name host limit ≡ (ok t, m') =
              rw (add_vhost_tunnel, room) refl in
            let v' : IsValid m' = rw made at (add_vhost_tunnel-IsValid m r.name host limit v) in
            subst (λ a. RoutedState (place_vhost c id r host w s a)) (sym made)
              (route_host-IsRouted c id host t w m'
                (record s { managers = insert id m' s.managers })
                (extend-IsRouted id s.managers m' s.hosts g v'
                  (insert-Extends m t m.ports (suc m.seq) absent))
                (lookup-insert_self id m' s.managers)
                (t, lookup-insert_self t.id t m.tunnels, refl, named)
                (λ h e at own.
                  absent-apart m t.id e.tunnel_id h absent
                    (host-served id h e s.managers s.hosts g at own)))
      ]

  pub handle_register_vhost-IsRouted :
      (c : ℕ) (id : Bytes) (r : RegisterTunnel) (raw : Bytes) (w : Outside) (s : Server Limiter)
      → RoutedState s
      → RoutedState (handle_register_vhost c id r raw w s)
  unfolding handle_register_vhost
  handle_register_vhost-IsRouted c id r raw w s g = by_host (normalize_host raw) refl
    where
      by_host :
          (n : Host.HostResult)
          → normalize_host raw ≡ n
          → RoutedState (handle_register_vhost c id r raw w s)
      by_host (Host.err e) h = rw (handle_register_vhost, h) g
      by_host (Host.ok host) h =
          rw (handle_register_vhost, h)
            (add_vhost-IsRouted c id r host w s (normalize-nonempty raw host h) g)
