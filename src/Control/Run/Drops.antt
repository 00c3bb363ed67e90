-- ===== src/Control/Run/Drops.antt =====
-- internal/control/server.go, internal/tunnel/manager.go: a tunnel that goes from a manager, with
-- or without its hosts.
use qoqtun.Prelude.{
  ℕ, ◌≡◌, true, false, Option, none, some, arith, ◌==◌, Bytes, bytes_eq, nat_eq, Bool-cases, inl,
  inr, sym, subst, ==_refl, ==_eq,
}
use qoqtun.Prelude.Int.{ℤ, int_eq}
use qoqtun.Prelude.Maps.{Map, lookup, insert, IsDistinct}
use qoqtun.Tunnel.Manager.{Tunnel, Manager, unregister, open_connection}
use qoqtun.Tunnel.Manager.Steps.{unregister-IsValid, open_connection-IsValid}
use qoqtun.Tunnel.Vhost
use qoqtun.Tunnel.Vhost.{Entry, VhostTable}
use qoqtun.Control.Server.{Server, manager_in}
use qoqtun.Control.Run.Table.{
  IsRouted, Serves, manager_in-IsValid, manager_in-some, update-IsRouted, extend-IsRouted,
}
use qoqtun.Control.Run.Managers.{
  open_connection-tunnels, unregister-tunnels, unregister_tunnel-left, unregister_tunnel-IsDistinct,
}

abbrev pub RoutedState : {Limiter : Type 0} → Server Limiter → Type 0
RoutedState s = IsRouted s.managers s.hosts

-- Another tunnel than the removed one serves on.
pub Serves-unregister :
    (m : Manager) (id j host : Bytes)
    → (id == j) ≡ false
    → Serves m j host
    → Serves (unregister m id) j host
Serves-unregister m id j host ne s = (s.0, ground (arith, unregister-tunnels m id j, s.1), s.2, s.3)

-- A tunnel that no host of its client leads to is removed.
pub drop-IsRouted :
    (id tunnel_id : Bytes) (ms : Map Bytes Manager) (hosts hosts' : VhostTable)
    → IsRouted ms hosts
    → IsDistinct hosts'
    → ((host : Bytes) (e : Entry) → lookup host hosts' ≡ some e → lookup host hosts ≡ some e)
    → ((host : Bytes) (e : Entry)
        → lookup host hosts' ≡ some e
        → e.client_id ≡ id
        → Serves (manager_in id ms) e.tunnel_id host
        → (tunnel_id == e.tunnel_id) ≡ false)
    → IsRouted (insert id (unregister (manager_in id ms) tunnel_id) ms) hosts'
drop-IsRouted id tunnel_id ms hosts hosts' g d sub apart =
    update-IsRouted id ms (unregister (manager_in id ms) tunnel_id) hosts hosts' g
      (unregister-IsValid (manager_in id ms) tunnel_id (manager_in-IsValid id ms g.valid)) d sub
      (λ host e h own s.
        Serves-unregister (manager_in id ms) tunnel_id e.tunnel_id host (apart host e h own s) s)

-- A tunnel is removed with its hosts.
pub drop_hosts-IsRouted :
    (id tunnel_id : Bytes) (ms : Map Bytes Manager) (hosts : VhostTable)
    → IsRouted ms hosts
    → IsRouted
        (insert id (unregister (manager_in id ms) tunnel_id) ms)
        (Vhost.unregister_tunnel tunnel_id hosts)
drop_hosts-IsRouted id tunnel_id ms hosts g =
    drop-IsRouted id tunnel_id ms hosts (Vhost.unregister_tunnel tunnel_id hosts) g
      (unregister_tunnel-IsDistinct tunnel_id hosts g.distinct_hosts)
      (λ host e h. (unregister_tunnel-left tunnel_id host e hosts g.distinct_hosts h).0)
      (λ host e h own s.
        other tunnel_id e.tunnel_id
          (unregister_tunnel-left tunnel_id host e hosts g.distinct_hosts h).1)
  where
    other : (a b : Bytes) → (b == a) ≡ false → (a == b) ≡ false
    other a b h = elim (Bool-cases (a == b)) [
      | inl e ↦ ground (arith, h, subst (λ x. (x == a) ≡ true) (==_eq a b e) (==_refl a))
      | inr e ↦ e
    ]

pub host-served :
    (id host : Bytes) (e : Entry) (ms : Map Bytes Manager) (hosts : VhostTable)
    → IsRouted ms hosts
    → lookup host hosts ≡ some e
    → e.client_id ≡ id
    → Serves (manager_in id ms) e.tunnel_id host
host-served id host e ms hosts g at own =
    let (m, there, serves) = g.routed host e at in
    subst (λ n. Serves n e.tunnel_id host)
      (sym (manager_in-some id ms m (subst (λ x. lookup x ms ≡ some m) own there))) serves

pub absent-apart :
    (m : Manager) (a b host : Bytes)
    → lookup a m.tunnels ≡ none
    → Serves m b host
    → (a == b) ≡ false
absent-apart m a b host absent s = ground (arith, bytes_eq.beq_iff a b, s.1)

pub open-IsRouted :
    (id : Bytes) (t : Tunnel) (conn : Option ℕ) (wait : ℤ) (now : ℕ) (fresh : Option Bytes)
    (ms : Map Bytes Manager) (hosts : VhostTable)
    → IsRouted ms hosts
    → IsRouted (insert id (open_connection (manager_in id ms) t conn wait now fresh).1 ms) hosts
open-IsRouted id t conn wait now fresh ms hosts g =
    let m = manager_in id ms in
    extend-IsRouted id ms (open_connection m t conn wait now fresh).1 hosts g
      (open_connection-IsValid m t conn wait now fresh (manager_in-IsValid id ms g.valid))
      (λ j u h. rw (open_connection-tunnels m t conn wait now fresh) h)
