-- ===== src/Control/Run/Handlers.antt =====
-- internal/control/server.go: the handlers of tunnels keep the routing table in step with the
-- managers.
use qoqtun.Prelude.{
  ℕ, ◌≡◌, refl, true, false, not, Option, none, some, arith, ◌==◌, ◌*◌, length, is_some, Bytes,
  codes, bytes_eq, nat_eq, Bool-cases, Option-cases, inl, inr, sym, subst, ==_eq, ap, ◌∙◌,
}
use qoqtun.Prelude.Int.{pos, int_eq}
use qoqtun.Prelude.Maps.{lookup, insert}
use qoqtun.Net.{Net}
use qoqtun.Protocol.Messages.{RegisterTunnel}
use qoqtun.Protocol.Validate.{validate_register_tunnel}
use qoqtun.Tunnel.Manager.{
  Tunnel, Manager, register, unregister, open_connection, tunnel_by_id, second, Registered, ok, err,
}
use qoqtun.Tunnel.Manager.Invariant.{IsValid}
use qoqtun.Tunnel.Manager.Steps.{register-IsValid}
use qoqtun.Tunnel.Vhost.{Entry}
use qoqtun.Control.Ports.{check_port_arbitration}
use qoqtun.Control.Server.{
  Limits, Server, Outside, manager_in, check_register_rate, target_allowed, policy_from_config,
  teardown,
}
use qoqtun.Control.Tunnels.{
  open_channel, register_port, arbitrate_port, register_tunnel, forget_host, drop_tunnel,
  remove_tunnel, handle_register_tunnel, handle_unregister_tunnel, vhost_of,
}
use qoqtun.Control.Run.Table.{IsRouted, Serves, manager_in-IsValid, extend-IsRouted}
use qoqtun.Control.Run.Managers.{register-Extends}
use qoqtun.Control.Run.Drops.{RoutedState, drop-IsRouted, drop_hosts-IsRouted, open-IsRouted}
use qoqtun.Control.Run.Hosts.{handle_register_vhost-IsRouted}

module _ {Limiter : Type 0} where
  open_channel-IsRouted :
      (c : ℕ) (id : Bytes) (r : RegisterTunnel) (t : Tunnel) (w : Outside) (s : Server Limiter)
      → RoutedState s
      → RoutedState (open_channel c id r t w s)
  unfolding open_channel
  open_channel-IsRouted c id r t w s g =
      let o =
        open_connection (manager_in id s.managers) t none (pos (10 * second)) w.now w.fresh_id in
      let g' = open-IsRouted id t none (pos (10 * second)) w.now w.fresh_id s.managers s.hosts g in
      elim (Bool-cases (r.kind == codes "udp")) [
        | inr e ↦ rw (open_channel, e) g
        | inl e ↦ elim (Option-cases o.0) [
          | inl failed ↦ rw (open_channel, e, failed) g'
          | inr (conn_id, drawn) ↦ rw (open_channel, e, drawn) g'
        ]
      ]

  register_port-IsRouted :
      (c : ℕ) (id : Bytes) (r : RegisterTunnel) (w : Outside) (s : Server Limiter)
      → RoutedState s
      → RoutedState (register_port c id r w s)
  unfolding register_port
  register_port-IsRouted c id r w s g = by_result a.0 refl
    where
      a : Registered × Manager
      a =
          register (manager_in id s.managers) r.name r.kind r.remote_port
            (policy_from_config s.cfg).allowed_ports (policy_from_config s.cfg).max_tunnels
            (not (is_some w.bind_error))

      v : IsValid (manager_in id s.managers)
      v = manager_in-IsValid id s.managers g.valid

      g' : IsRouted (insert id a.1 s.managers) s.hosts
      g' =
          extend-IsRouted id s.managers a.1 s.hosts g (register-IsValid _ _ _ _ _ _ _ v)
            (register-Extends _ _ _ _ _ _ _ v)

      by_result : (x : Registered) → a.0 ≡ x → RoutedState (register_port c id r w s)
      by_result (err e) h = rw (register_port, h) g'
      by_result (ok t) h = rw (register_port, h) (open_channel-IsRouted c id r t w _ g')

  arbitrate_port-IsRouted :
      (c : ℕ) (id : Bytes) (r : RegisterTunnel) (w : Outside) (s : Server Limiter)
      → RoutedState s
      → RoutedState (arbitrate_port c id r w s)
  unfolding arbitrate_port
  arbitrate_port-IsRouted c id r w s g =
      elim (Bool-cases (check_port_arbitration r.remote_port id w.now s.reservations).0) [
        | inl may ↦ rw (arbitrate_port, may) (register_port-IsRouted c id r w _ g)
        | inr held ↦ rw (arbitrate_port, held) g
      ]

  register_tunnel-IsRouted :
      (c : ℕ) (id : Bytes) (r : RegisterTunnel) (w : Outside) (s : Server Limiter)
      → RoutedState s
      → RoutedState (register_tunnel c id r w s)
  unfolding register_tunnel
  register_tunnel-IsRouted c id r w s g = elim (Option-cases (vhost_of r)) [
    | inl own ↦ rw (register_tunnel, own) (arbitrate_port-IsRouted c id r w s g)
    | inr (host, shared) ↦
        rw (register_tunnel, shared) (handle_register_vhost-IsRouted c id r host w s g)
  ]

  remove_tunnel-IsRouted :
      (c : ℕ) (id tunnel_id : Bytes) (s : Server Limiter)
      → RoutedState s
      → RoutedState (remove_tunnel c id tunnel_id s)
  unfolding remove_tunnel drop_tunnel forget_host teardown tunnel_by_id
  remove_tunnel-IsRouted c id tunnel_id s g = by_found (lookup tunnel_id m.tunnels) refl
    where
      m : Manager
      m = manager_in id s.managers

      -- No host leads to a tunnel that is not there, or has no host.
      unserved :
          (found : Option Tunnel)
          → lookup tunnel_id m.tunnels ≡ found
          → ((t : Tunnel) → found ≡ some t → (length t.vhost_host == 0) ≡ true)
          → (host : Bytes) (e : Entry) → lookup host s.hosts ≡ some e
          → e.client_id ≡ id
          → Serves m e.tunnel_id host
          → (tunnel_id == e.tunnel_id) ≡ false
      unserved found at bare host e h own serves = elim (Bool-cases (tunnel_id == e.tunnel_id)) [
        | inr other ↦ other
        | inl same ↦
            let eq : tunnel_id ≡ e.tunnel_id = ==_eq tunnel_id e.tunnel_id same in
            let hit : found ≡ some serves.0 =
              sym at ∙ subst (λ x. lookup x m.tunnels ≡ some serves.0) (sym eq) serves.1 in
            ground (arith, bare serves.0 hit, serves.2, serves.3, ap (λ h. length h == 0) serves.2)
      ]

      kept :
          ((h : Bytes) (e : Entry)
            → lookup h s.hosts ≡ some e
            → e.client_id ≡ id
            → Serves m e.tunnel_id h
            → (tunnel_id == e.tunnel_id) ≡ false)
          → IsRouted (insert id (unregister m tunnel_id) s.managers) s.hosts
      kept apart =
          drop-IsRouted id tunnel_id s.managers s.hosts s.hosts g g.distinct_hosts (λ h e at. at)
            apart

      by_found :
          (found : Option Tunnel)
          → lookup tunnel_id m.tunnels ≡ found
          → RoutedState (drop_tunnel c id tunnel_id (forget_host tunnel_id found s))
      by_found none at = kept (unserved none at (λ t h. ground arith))
      by_found (some t) at = elim (Bool-cases (length t.vhost_host == 0)) [
        | inl bare ↦ rw bare (kept (unserved (some t) at (λ u h. ground (arith, bare))))
        | inr named ↦ rw named (drop_hosts-IsRouted id tunnel_id s.managers s.hosts g)
      ]

module _ (lim : Limits) (net : Net) where
  pub handle_register_tunnel-IsRouted :
      (c : ℕ) (id : Bytes) (r : Option RegisterTunnel) (w : Outside) (s : Server lim.Limiter)
      → RoutedState s
      → RoutedState (handle_register_tunnel lim net c id r w s)
  unfolding handle_register_tunnel check_register_rate
  handle_register_tunnel-IsRouted c id none w s g = g
  handle_register_tunnel-IsRouted c id (some r) w s g =
      let a = check_register_rate lim id w.now s in
      elim (Option-cases (validate_register_tunnel net (some r))) [
        | inr (p, bad) ↦ rw (handle_register_tunnel, bad) g
        | inl good ↦ elim (Bool-cases a.0) [
          | inr fast ↦ rw (handle_register_tunnel, good, fast) g
          | inl slow ↦ elim (Bool-cases (target_allowed lim net r.local a.1)) [
            | inr out ↦ rw (handle_register_tunnel, good, slow, out) g
            | inl within ↦
                rw (handle_register_tunnel, good, slow, within)
                  (register_tunnel-IsRouted c id r w a.1 g)
          ]
        ]
      ]

  pub handle_unregister_tunnel-IsRouted :
      (c : ℕ) (id : Bytes) (t : Option Bytes) (now : ℕ) (s : Server lim.Limiter)
      → RoutedState s
      → RoutedState (handle_unregister_tunnel lim net c id t now s)
  unfolding handle_unregister_tunnel check_register_rate
  handle_unregister_tunnel-IsRouted c id none now s g = g
  handle_unregister_tunnel-IsRouted c id (some t) now s g =
      let a = check_register_rate lim id now s in
      elim (Bool-cases a.0) [
        | inl slow ↦ rw (handle_unregister_tunnel, slow) (remove_tunnel-IsRouted c id t a.1 g)
        | inr fast ↦ rw (handle_unregister_tunnel, fast) g
      ]
