-- ===== src/Tunnel/Manager/Invariant.antt =====
-- internal/tunnel/server.go: what every operation of the manager keeps of its three tables.
use qoqtun.Prelude.{
  ℕ, suc, ◌<◌, ◌≡◌, refl, true, false, Option, none, some, arith, ◌==◌, nat_eq, Bytes, bytes_eq, ap,
  drop,
}
use qoqtun.Prelude.Int.{ℤ, pos, int_eq, int_beq, int_beq_iff}
use qoqtun.Prelude.Maps.{lookup, insert, IsDistinct, lookup-insert, insert-IsDistinct}
use qoqtun.Prelude.Strings.{decimal-injective}
use qoqtun.Tunnel.Manager.{Tunnel, Manager, new_manager, tunnel_name, valid_port}

-- The port of a registered tunnel.
unfoldable pub port_of : Manager → Bytes → Option ℤ
port_of m id = elim (lookup id m.tunnels) [ none ↦ none | some t ↦ some t.remote_port ]

pub record IsValid (m : Manager) : Type 0 where
  pub distinct_tunnels : IsDistinct m.tunnels
  pub distinct_ports : IsDistinct m.ports
  pub distinct_pending : IsDistinct m.pending
  -- A tunnel stands under its own id, and ids beyond the counter are free.
  pub named : (id : Bytes) (t : Tunnel) → lookup id m.tunnels ≡ some t → t.id ≡ id
  pub fresh : (n : ℕ) → m.seq < n → lookup (tunnel_name n) m.tunnels ≡ none
  -- A taken port is a valid one, and belongs to a tunnel that has it.
  pub owned :
      (p : ℤ) (id : Bytes)
      → lookup p m.ports ≡ some id
      → (port_of m id ≡ some p) × (valid_port p ≡ true)
  -- A tunnel with a port of its own holds it.
  pub held :
      (id : Bytes) (t : Tunnel)
      → lookup id m.tunnels ≡ some t
      → (t.remote_port == pos 0) ≡ false
      → lookup t.remote_port m.ports ≡ some id

pub tunnel_name-injective : (a b : ℕ) → tunnel_name a ≡ tunnel_name b → a ≡ b
unfolding tunnel_name
tunnel_name-injective a b e = decimal-injective a b (ap (drop 2) e)

tunnel_name_other : (a b : ℕ) → a < b → (tunnel_name a == tunnel_name b) ≡ false
tunnel_name_other a b h =
    ground (arith, bytes_eq.beq_iff (tunnel_name a) (tunnel_name b), tunnel_name-injective a b)

pub new_manager-IsValid : IsValid new_manager
unfolding new_manager lookup
new_manager-IsValid = record {
  distinct_tunnels = tt;
  distinct_ports = tt;
  distinct_pending = tt;
  named = λ id t. ground arith;
  fresh = λ n h. refl;
  owned = λ p id. ground arith;
  held = λ id t. ground arith;
}

pub valid_port-ne-zero : (p : ℤ) → valid_port p ≡ true → (p == pos 0) ≡ false
unfolding valid_port int_beq
valid_port-ne-zero p h = ground (arith, int_beq_iff p (pos 0))

module _ (m : Manager) (t : Tunnel) (v : IsValid m) (name : t.id ≡ tunnel_name (suc m.seq)) where
  -- The state after a registration with a port of its own.
  abbrev pub with_port : Manager
  with_port = record m {
    seq = suc m.seq;
    tunnels = insert t.id t m.tunnels;
    ports = insert t.remote_port t.id m.ports;
  }

  abbrev pub without_port : Manager
  without_port = record m { seq = suc m.seq; tunnels = insert t.id t m.tunnels }

  absent : lookup t.id m.tunnels ≡ none
  absent = rw name (v.fresh (suc m.seq) (omega arith))

  insert-fresh : (n : ℕ) → suc m.seq < n → lookup (tunnel_name n) (insert t.id t m.tunnels) ≡ none
  insert-fresh n h = ground (
    arith,
    lookup-insert t.id (tunnel_name n) t m.tunnels,
    tunnel_name_other (suc m.seq) n,
    v.fresh n,
  )

  insert-named :
      (id : Bytes) (s : Tunnel) → lookup id (insert t.id t m.tunnels) ≡ some s → s.id ≡ id
  insert-named id s e =
      ground (arith, lookup-insert t.id id t m.tunnels, bytes_eq.beq_iff t.id id, v.named id s)

  pub with_port-IsValid :
      lookup t.remote_port m.ports ≡ none → valid_port t.remote_port ≡ true → IsValid with_port
  unfolding port_of
  with_port-IsValid free good = record {
    distinct_tunnels = insert-IsDistinct t.id t m.tunnels v.distinct_tunnels;
    distinct_ports = insert-IsDistinct t.remote_port t.id m.ports v.distinct_ports;
    distinct_pending = v.distinct_pending;
    named = insert-named;
    fresh = insert-fresh;
    owned = λ p id e. ground (
      arith,
      lookup-insert t.remote_port p t.id m.ports,
      lookup-insert t.id id t m.tunnels,
      int_beq_iff t.remote_port p,
      bytes_eq.beq_iff t.id id,
      v.owned p id,
      absent,
    );
    held = λ id s e nz. ground (
      arith,
      lookup-insert t.remote_port s.remote_port t.id m.ports,
      lookup-insert t.id id t m.tunnels,
      int_beq_iff t.remote_port s.remote_port,
      bytes_eq.beq_iff t.id id,
      v.held id s,
    );
  }

  pub without_port-IsValid : t.remote_port ≡ pos 0 → IsValid without_port
  unfolding port_of
  without_port-IsValid no_port = record {
    distinct_tunnels = insert-IsDistinct t.id t m.tunnels v.distinct_tunnels;
    distinct_ports = v.distinct_ports;
    distinct_pending = v.distinct_pending;
    named = insert-named;
    fresh = insert-fresh;
    owned = λ p id e.
        ground (
          arith,
          lookup-insert t.id id t m.tunnels,
          bytes_eq.beq_iff t.id id,
          v.owned p id,
          absent,
        );
    held = λ id s e nz.
        ground (
          arith,
          lookup-insert t.id id t m.tunnels,
          int_beq_iff s.remote_port (pos 0),
          v.held id s,
        );
  }
