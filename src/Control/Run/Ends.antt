-- ===== src/Control/Run/Ends.antt =====
-- internal/control: what a control connection does to the routing table, up to the end of its
-- client.
use qoqtun.Prelude.{
  ℕ, ◌≡◌, refl, false, some, List, [], ◌∷◌, arith, ◌==◌, length, map, Bytes, bytes_eq, nat_eq,
  Bool-cases, inl, inr, ==_refl, subst, sym, ◌∙◌,
}
use qoqtun.Prelude.Maps.{Map, lookup, insert, IsDistinct}
use qoqtun.Tunnel.Manager.{Tunnel, Manager, all_tunnels, ports_of, unregister_all}
use qoqtun.Tunnel.Manager.Invariant.{IsValid}
use qoqtun.Tunnel.Manager.Steps.{unregister_each-IsValid}
use qoqtun.Tunnel.Vhost.{Entry}
use qoqtun.Control.Server.{Server, manager_in, teardown, cleanup_client}
use qoqtun.Control.Connection.{
  release_tunnel, release_tunnels, reserve_ports, clean_up, end_control,
}
use qoqtun.Control.Run.Table.{IsRouted, Serves, manager_in-IsValid, update-IsRouted}
use qoqtun.Control.Run.Managers.{unregister_tunnel-left, unregister_tunnel-IsDistinct}
use qoqtun.Control.Run.Drops.{RoutedState}

-- The entry leads to none of the tunnels that have a host.
abbrev Unserved : List Tunnel → Entry → Type 0
Unserved [] e = Unit
Unserved (t ∷ ts) e =
    ((length t.vhost_host == 0) ≡ false → (e.tunnel_id == t.id) ≡ false) × Unserved ts e

Unserved-lookup :
    (k : Bytes) (t : Tunnel) (m : Map Bytes Tunnel) (e : Entry)
    → Unserved (map (λ x. x.1) m) e
    → lookup k m ≡ some t
    → (length t.vhost_host == 0) ≡ false
    → (e.tunnel_id == t.id) ≡ false
unfolding lookup
Unserved-lookup k t [] e u h named = ground arith
Unserved-lookup k t ((j, s) ∷ m) e u h named = elim (Bool-cases (j == k)) [
  | inl here ↦
      let same : some s ≡ some t = rw here at h in
      let eq : s ≡ t = ground arith in
      subst (λ x. (e.tunnel_id == x.id) ≡ false) eq
        (u.0 (subst (λ x. (length x.vhost_host == 0) ≡ false) (sym eq) named))
  | inr there ↦ Unserved-lookup k t m e u.1 (rw there at h) named
]

module _ {Limiter : Type 0} where
  release_tunnel-managers :
      (t : Tunnel) (s : Server Limiter) → (release_tunnel t s).managers ≡ s.managers
  unfolding release_tunnel teardown
  release_tunnel-managers t s = elim (Bool-cases (length t.vhost_host == 0)) [
    | inl bare ↦ rw (release_tunnel, bare) refl
    | inr named ↦ rw (release_tunnel, named) refl
  ]

  pub release_tunnels-managers :
      (ts : List Tunnel) (s : Server Limiter) → (release_tunnels ts s).managers ≡ s.managers
  unfolding release_tunnels
  release_tunnels-managers [] s = refl
  release_tunnels-managers (t ∷ ts) s =
      release_tunnels-managers ts (release_tunnel t s) ∙ release_tunnel-managers t s

  -- The hosts left after a loop are hosts from before, and lead to none of the tunnels.
  abbrev Leaves : List Tunnel → Server Limiter → Server Limiter → Type 0
  Leaves ts s s' =
      IsDistinct s'.hosts
      × ((h : Bytes) (e : Entry)
          → lookup h s'.hosts ≡ some e
          → (lookup h s.hosts ≡ some e) × Unserved ts e)

  release_tunnel-left :
      (t : Tunnel) (s : Server Limiter)
      → IsDistinct s.hosts
      → Leaves (t ∷ []) s (release_tunnel t s)
  unfolding release_tunnel teardown
  release_tunnel-left t s d = elim (Bool-cases (length t.vhost_host == 0)) [
    | inl bare ↦
        rw (release_tunnel, bare) (d, λ h e at. (at, ((λ named. ground (arith, bare)), tt)))
    | inr named ↦
        rw (release_tunnel, named)
          (
            unregister_tunnel-IsDistinct t.id s.hosts d,
            λ h e at.
                let (was, apart) = unregister_tunnel-left t.id h e s.hosts d at in
                (was, ((λ n. apart), tt)),
          )
  ]

  release_tunnels-left :
      (ts : List Tunnel) (s : Server Limiter)
      → IsDistinct s.hosts
      → Leaves ts s (release_tunnels ts s)
  unfolding release_tunnels
  release_tunnels-left [] s d = (d, λ h e at. (at, tt))
  release_tunnels-left (t ∷ ts) s d =
      let (d', left) = release_tunnel-left t s d in
      let (d'', left') = release_tunnels-left ts (release_tunnel t s) d' in
      (
        d'',
        λ h e at.
            let (was, apart) = left' h e at in
            let (was', apart') = left h e was in (was', (apart'.0, apart)),
      )

  clean_up-IsRouted :
      (id : Bytes) (now : ℕ) (s : Server Limiter) → RoutedState s → RoutedState (clean_up id now s)
  unfolding clean_up cleanup_client unregister_all all_tunnels
  clean_up-IsRouted id now s g =
      subst (λ ms. IsRouted (insert id (unregister_all m) ms) (release_tunnels ts s').hosts)
        (sym (release_tunnels-managers ts s')) emptied
    where
      m : Manager
      m = manager_in id s.managers

      ts : List Tunnel
      ts = all_tunnels m

      s' : Server Limiter
      s' = record s { reservations = reserve_ports (ports_of m) id now s.reservations }

      v : IsValid m
      v = manager_in-IsValid id s.managers g.valid

      emptied : IsRouted (insert id (unregister_all m) s.managers) (release_tunnels ts s').hosts
      emptied =
          let (d, left) = release_tunnels-left ts s' g.distinct_hosts in
          update-IsRouted id s.managers (unregister_all m) s.hosts (release_tunnels ts s').hosts g
            (unregister_each-IsValid (map (λ e. e.0) m.tunnels) m v) d (λ h e at. (left h e at).0)
            (λ h e at own serves. absurd (never e h serves (left h e at).1))
        where
          never : (e : Entry) (h : Bytes) → Serves m e.tunnel_id h → Unserved ts e → ⊥
          never e h (t, at, has, named) u = ground (
            arith,
            Unserved-lookup e.tunnel_id t m.tunnels e u at
                (subst (λ x. (length x == 0) ≡ false) (sym has) named),
            v.named e.tunnel_id t at,
            ==_refl e.tunnel_id,
          )

  pub end_control-IsRouted :
      (c : ℕ) (host id : Bytes) (now : ℕ) (s : Server Limiter)
      → RoutedState s
      → RoutedState (end_control c host id now s)
  unfolding end_control
  end_control-IsRouted c host id now s g = clean_up-IsRouted id now s g
