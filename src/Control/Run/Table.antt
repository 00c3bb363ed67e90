-- ===== src/Control/Run/Table.antt =====
-- internal/control: the routing table against the managers of the clients.
use qoqtun.Prelude.{
  ◌≡◌, false, some, arith, ◌==◌, length, Bytes, bytes_eq, nat_eq, Bool-cases, Option-cases, inl,
  inr, ==_eq, sym, subst,
}
use qoqtun.Prelude.Maps.{Map, lookup, insert, IsDistinct, lookup-insert, insert-IsDistinct}
use qoqtun.Tunnel.Manager.{Tunnel, Manager}
use qoqtun.Tunnel.Manager.Invariant.{IsValid, new_manager-IsValid}
use qoqtun.Tunnel.Vhost.{Entry, VhostTable}
use qoqtun.Control.Server.{manager_in}

-- The tunnel of the manager has the host, and the host is not the empty one.
abbrev pub Serves : Manager → Bytes → Bytes → Type 0
Serves m tunnel_id host =
    (t : Tunnel) × (lookup tunnel_id m.tunnels ≡ some t)
    × (t.vhost_host ≡ host)
    × ((length host == 0) ≡ false)

-- Every manager is valid, and every host in the table leads to a tunnel of its client.
pub record IsRouted (ms : Map Bytes Manager) (hosts : VhostTable) : Type 0 where
  pub valid : (id : Bytes) (m : Manager) → lookup id ms ≡ some m → IsValid m
  pub distinct_hosts : IsDistinct hosts
  pub routed :
      (host : Bytes) (e : Entry)
      → lookup host hosts ≡ some e
      → (m : Manager) × (lookup e.client_id ms ≡ some m) × Serves m e.tunnel_id host

pub manager_in-IsValid :
    (id : Bytes) (ms : Map Bytes Manager)
    → ((id : Bytes) (m : Manager) → lookup id ms ≡ some m → IsValid m)
    → IsValid (manager_in id ms)
unfolding manager_in
manager_in-IsValid id ms v = elim (Option-cases (lookup id ms)) [
  | inl miss ↦ rw (manager_in, miss) new_manager-IsValid
  | inr (m, hit) ↦ rw (manager_in, hit) (v id m hit)
]

pub manager_in-some :
    (id : Bytes) (ms : Map Bytes Manager) (m : Manager)
    → lookup id ms ≡ some m
    → manager_in id ms ≡ m
unfolding manager_in
manager_in-some id ms m h = rw (manager_in, h)

-- A manager is put back, and hosts are taken off the table: those that are left to the client have
-- their tunnels still.
pub update-IsRouted :
    (id : Bytes) (ms : Map Bytes Manager) (m' : Manager) (hosts hosts' : VhostTable)
    → IsRouted ms hosts
    → IsValid m'
    → IsDistinct hosts'
    → ((host : Bytes) (e : Entry) → lookup host hosts' ≡ some e → lookup host hosts ≡ some e)
    → ((host : Bytes) (e : Entry)
        → lookup host hosts' ≡ some e
        → e.client_id ≡ id
        → Serves (manager_in id ms) e.tunnel_id host
        → Serves m' e.tunnel_id host)
    → IsRouted (insert id m' ms) hosts'
update-IsRouted id ms m' hosts hosts' g v d sub keeps = record {
  valid = valid';
  distinct_hosts = d;
  routed = routed';
}
  where
    valid' : (j : Bytes) (m : Manager) → lookup j (insert id m' ms) ≡ some m → IsValid m
    valid' j m h = elim (Bool-cases (id == j)) [
      | inl same ↦ subst (λ n. IsValid n) (ground (arith, lookup-insert id j m' ms)) v
      | inr other ↦ g.valid j m (ground (arith, lookup-insert id j m' ms))
    ]

    routed' :
        (host : Bytes) (e : Entry)
        → lookup host hosts' ≡ some e
        → (m : Manager) × (lookup e.client_id (insert id m' ms) ≡ some m)
          × Serves m e.tunnel_id host
    routed' host e h =
        let (m, there, serves) = g.routed host e (sub host e h) in
        elim (Bool-cases (id == e.client_id)) [
          | inl same ↦
              let eq : id ≡ e.client_id = ==_eq id e.client_id same in
              let here : lookup id ms ≡ some m = ground (arith, eq) in
              (
                m',
                ground (arith, lookup-insert id e.client_id m' ms),
                keeps host e h (sym eq) (
                    subst (λ n. Serves n e.tunnel_id host) (sym (manager_in-some id ms m here))
                      serves),
              )
          | inr other ↦ (m, ground (arith, lookup-insert id e.client_id m' ms), serves)
        ]

-- Tunnels of the manager are all kept.
abbrev pub Extends : Manager → Manager → Type 0
Extends m m' =
    (id : Bytes) (t : Tunnel) → lookup id m.tunnels ≡ some t → lookup id m'.tunnels ≡ some t

pub extend-IsRouted :
    (id : Bytes) (ms : Map Bytes Manager) (m' : Manager) (hosts : VhostTable)
    → IsRouted ms hosts
    → IsValid m'
    → Extends (manager_in id ms) m'
    → IsRouted (insert id m' ms) hosts
extend-IsRouted id ms m' hosts g v x =
    update-IsRouted id ms m' hosts hosts g v g.distinct_hosts (λ host e h. h)
      (λ host e h own s. (s.0, x e.tunnel_id s.0 s.1, s.2, s.3))

-- A host of a registered tunnel enters the table.
pub add_host-IsRouted :
    (id host : Bytes) (ms : Map Bytes Manager) (m : Manager) (t : Tunnel) (hosts : VhostTable)
    → IsRouted ms hosts
    → lookup id ms ≡ some m
    → Serves m t.id host
    → IsRouted ms (insert host (record { tunnel_id = t.id; client_id = id }) hosts)
add_host-IsRouted id host ms m t hosts g there serves = record {
  valid = g.valid;
  distinct_hosts = insert-IsDistinct host _ hosts g.distinct_hosts;
  routed = routed';
}
  where
    entry : Entry
    entry = record { tunnel_id = t.id; client_id = id }

    routed' :
        (h : Bytes) (e : Entry)
        → lookup h (insert host entry hosts) ≡ some e
        → (n : Manager) × (lookup e.client_id ms ≡ some n) × Serves n e.tunnel_id h
    routed' h e at = elim (Bool-cases (host == h)) [
      | inl same ↦
          let is : entry ≡ e = ground (arith, lookup-insert host h entry hosts) in
          subst (λ x. (n : Manager) × (lookup x.client_id ms ≡ some n) × Serves n x.tunnel_id h) is
            (m, there, subst (λ y. Serves m t.id y) (==_eq host h same) serves)
      | inr other ↦ g.routed h e (ground (arith, lookup-insert host h entry hosts))
    ]
