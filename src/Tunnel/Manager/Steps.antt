-- ===== src/Tunnel/Manager/Steps.antt =====
-- internal/tunnel/server.go: every sequence of operations of the manager keeps its tables valid.
use qoqtun.Prelude.{
  ℕ, suc, ◌≡◌, refl, Bool, true, false, Option, none, some, List, [], ◌∷◌, arith, ◌==◌, ltb, nat_eq,
  Bytes, codes, bytes_eq, map, Bool-cases, Option-cases, inl, inr,
}
use qoqtun.Prelude.Int.{ℤ, pos, int_eq, int_beq_iff}
use qoqtun.Prelude.Maps.{
  Map, lookup, insert, delete, IsDistinct, lookup-delete, insert-IsDistinct, delete-IsDistinct,
  retain-IsDistinct,
}
use qoqtun.Tunnel.Manager.{
  Tunnel, Pending, Manager, new_manager, tunnel_name, port_allowed, RegisterError, tunnel_limit,
  invalid_port, not_allowed, listen_failed, in_use, Registered, ok, err, at_limit, valid_port,
  fresh_tunnel, register, add_vhost_tunnel, unregister, unregister_each, unregister_all,
  open_connection, claim_data, cleanup_expired, tunnel_by_id,
}
use qoqtun.Tunnel.Manager.Invariant.{
  IsValid, port_of, new_manager-IsValid, with_port-IsValid, without_port-IsValid,
}

-- The outcomes of `register`: refused as it was, failed to listen with an id used up, or done.
pub register_cases {ℓ} :
    (P : Registered × Manager → Type ℓ) (m : Manager) (name typ : Bytes) (port : ℤ)
    (allowed : List Bytes) (max_tunnels : ℤ) (listens : Bool)
    → ((e : RegisterError) → P (err e, m))
    → P (err listen_failed, record m { seq = suc m.seq })
    → (at_limit m max_tunnels ≡ false
        → valid_port port ≡ true
        → port_allowed allowed port ≡ true
        → lookup port m.ports ≡ none
        → P (
          ok (fresh_tunnel m name typ port []),
          record m {
            seq = suc m.seq;
            tunnels =
                insert
                  (fresh_tunnel m name typ port []).id
                  (fresh_tunnel m name typ port [])
                  m.tunnels;
            ports = insert port (fresh_tunnel m name typ port []).id m.ports;
          },
        ))
    → P (register m name typ port allowed max_tunnels listens)
unfolding register
register_cases P m name typ port allowed max_tunnels listens refused unheard done =
    elim (Bool-cases (at_limit m max_tunnels)) [
      | inl full ↦ rw (full, register) (refused tunnel_limit)
      | inr room ↦ elim (Bool-cases (valid_port port)) [
        | inr bad ↦ rw (room, bad, register) (refused invalid_port)
        | inl good ↦ elim (Bool-cases (port_allowed allowed port)) [
          | inr no_way ↦ rw (room, good, no_way, register) (refused not_allowed)
          | inl may ↦ elim (Option-cases (lookup port m.ports)) [
            | inr (owner, taken) ↦ rw (room, good, may, taken, register) (refused (in_use owner))
            | inl free ↦ elim (Bool-cases listens) [
              | inl up ↦ rw (room, good, may, free, up, register) (done room good may free)
              | inr down ↦ rw (room, good, may, free, down, register) unheard
            ]
          ]
        ]
      ]
    ]

seq-IsValid : (m : Manager) → IsValid m → IsValid (record m { seq = suc m.seq })
unfolding port_of
seq-IsValid m v = record {
  distinct_tunnels = v.distinct_tunnels;
  distinct_ports = v.distinct_ports;
  distinct_pending = v.distinct_pending;
  named = v.named;
  fresh = λ n h. v.fresh n (omega arith);
  owned = v.owned;
  held = v.held;
}

pub register-IsValid :
    (m : Manager) (name typ : Bytes) (port : ℤ) (allowed : List Bytes) (max_tunnels : ℤ)
    (listens : Bool)
    → IsValid m
    → IsValid (register m name typ port allowed max_tunnels listens).1
register-IsValid m name typ port allowed max_tunnels listens v =
    let t = fresh_tunnel m name typ port [] in
    register_cases (λ r. IsValid r.1) m name typ port allowed max_tunnels listens (λ e. v)
      (seq-IsValid m v)
      (λ room good may free. unfold fresh_tunnel in with_port-IsValid m t v refl free good)

pub add_vhost_tunnel-IsValid :
    (m : Manager) (name host : Bytes) (max_tunnels : ℤ)
    → IsValid m
    → IsValid (add_vhost_tunnel m name host max_tunnels).1
unfolding add_vhost_tunnel
add_vhost_tunnel-IsValid m name host max_tunnels v = elim (Bool-cases (at_limit m max_tunnels)) [
  | inl full ↦ rw (full, add_vhost_tunnel) v
  | inr room ↦
      rw (room, add_vhost_tunnel)
        (unfold fresh_tunnel in
          without_port-IsValid m (fresh_tunnel m name (codes "http") (pos 0) host) v refl refl)
]

without-IsValid :
    (m : Manager) (id : Bytes) (t : Tunnel) (pending : Map Bytes Pending) (closed : List ℕ)
    (stopped : List Bytes)
    → IsValid m
    → IsDistinct pending
    → lookup id m.tunnels ≡ some t
    → IsValid (record m {
      tunnels = delete id m.tunnels;
      ports = delete t.remote_port m.ports;
      pending = pending;
      closed = closed;
      stopped = stopped;
    })
unfolding port_of
without-IsValid m id t pending closed stopped v d found = record {
  distinct_tunnels = delete-IsDistinct id m.tunnels v.distinct_tunnels;
  distinct_ports = delete-IsDistinct t.remote_port m.ports v.distinct_ports;
  distinct_pending = d;
  named = λ j s e. ground (arith, lookup-delete id j m.tunnels, v.named j s);
  fresh = λ n h. ground (arith, lookup-delete id (tunnel_name n) m.tunnels, v.fresh n);
  owned = λ p j e. ground (
    arith,
    lookup-delete t.remote_port p m.ports,
    lookup-delete id j m.tunnels,
    int_beq_iff t.remote_port p,
    bytes_eq.beq_iff id j,
    v.owned p j,
  );
  held = λ j s e nz. ground (
    arith,
    lookup-delete t.remote_port s.remote_port m.ports,
    lookup-delete id j m.tunnels,
    int_beq_iff t.remote_port s.remote_port,
    bytes_eq.beq_iff id j,
    v.held j s,
    v.held id t,
  );
}

pub unregister-IsValid : (m : Manager) (id : Bytes) → IsValid m → IsValid (unregister m id)
unfolding unregister
unregister-IsValid m id v = elim (Option-cases (lookup id m.tunnels)) [
  | inl miss ↦ rw (miss, unregister) v
  | inr (t, found) ↦
      rw (found, unregister)
        (without-IsValid m id t _ _ _ v (retain-IsDistinct _ m.pending v.distinct_pending) found)
]

pub unregister_each-IsValid :
    (ids : List Bytes) (m : Manager) → IsValid m → IsValid (unregister_each ids m)
unfolding unregister_each
unregister_each-IsValid [] m v = v
unregister_each-IsValid (id ∷ ids) m v =
    unregister_each-IsValid ids (unregister m id) (unregister-IsValid m id v)

-- The tables of tunnels and ports do not depend on what waits.
pending-IsValid :
    (m : Manager) (pending : Map Bytes Pending) (closed : List ℕ)
    → IsDistinct pending
    → IsValid m
    → IsValid (record m { pending = pending; closed = closed })
unfolding port_of
pending-IsValid m pending closed d v = record {
  distinct_tunnels = v.distinct_tunnels;
  distinct_ports = v.distinct_ports;
  distinct_pending = d;
  named = v.named;
  fresh = v.fresh;
  owned = v.owned;
  held = v.held;
}

pub open_connection-IsValid :
    (m : Manager) (t : Tunnel) (conn : Option ℕ) (claim_timeout : ℤ) (now : ℕ) (id : Option Bytes)
    → IsValid m
    → IsValid (open_connection m t conn claim_timeout now id).1
unfolding open_connection
open_connection-IsValid m t conn claim_timeout now none v = v
open_connection-IsValid m t conn claim_timeout now (some id) v =
    pending-IsValid m _ m.closed (insert-IsDistinct id _ m.pending v.distinct_pending) v

pub claim_data-IsValid :
    (m : Manager) (id : Bytes) (now : ℕ) → IsValid m → IsValid (claim_data m id now).1
unfolding claim_data
claim_data-IsValid m id now v =
    let d = delete-IsDistinct id m.pending v.distinct_pending in
    elim (Option-cases (lookup id m.pending)) [
      | inl miss ↦ rw (miss, claim_data) v
      | inr (pc, hit) ↦ elim (Bool-cases (ltb pc.deadline now)) [
        | inl late ↦ rw (hit, late, claim_data) (pending-IsValid m _ _ d v)
        | inr soon ↦ elim (Option-cases (lookup pc.tunnel_id m.tunnels)) [
          | inl gone ↦ rw (hit, soon, gone, claim_data) (pending-IsValid m _ _ d v)
          | inr (t, there) ↦ rw (hit, soon, there, claim_data) (pending-IsValid m _ _ d v)
        ]
      ]
    ]

cleanup_expired-IsValid : (m : Manager) (now : ℕ) → IsValid m → IsValid (cleanup_expired m now)
unfolding cleanup_expired
cleanup_expired-IsValid m now v =
    pending-IsValid m _ _ (retain-IsDistinct _ m.pending v.distinct_pending) v

-- The operations of the manager.
pub data Op : Type 0 where
  registers : Bytes → Bytes → ℤ → List Bytes → ℤ → Bool → Op
  adds_vhost : Bytes → Bytes → ℤ → Op
  unregisters : Bytes → Op
  unregisters_all : Op
  opens : Tunnel → Option ℕ → ℤ → ℕ → Option Bytes → Op
  claims : Bytes → ℕ → Op
  cleans : ℕ → Op

unfoldable pub step : Manager → Op → Manager
step m (registers name typ port allowed max_tunnels listens) =
    (register m name typ port allowed max_tunnels listens).1
step m (adds_vhost name host max_tunnels) = (add_vhost_tunnel m name host max_tunnels).1
step m (unregisters id) = unregister m id
step m unregisters_all = unregister_all m
step m (opens t conn claim_timeout now id) = (open_connection m t conn claim_timeout now id).1
step m (claims id now) = (claim_data m id now).1
step m (cleans now) = cleanup_expired m now

unfoldable pub run : Manager → List Op → Manager
run m [] = m
run m (o ∷ os) = run (step m o) os

pub step-IsValid : (m : Manager) (o : Op) → IsValid m → IsValid (step m o)
unfolding step unregister_all
step-IsValid m (registers name typ port allowed max_tunnels listens) v =
    register-IsValid m name typ port allowed max_tunnels listens v
step-IsValid m (adds_vhost name host max_tunnels) v =
    add_vhost_tunnel-IsValid m name host max_tunnels v
step-IsValid m (unregisters id) v = unregister-IsValid m id v
step-IsValid m unregisters_all v = unregister_each-IsValid (map (λ e. e.0) m.tunnels) m v
step-IsValid m (opens t conn claim_timeout now id) v =
    open_connection-IsValid m t conn claim_timeout now id v
step-IsValid m (claims id now) v = claim_data-IsValid m id now v
step-IsValid m (cleans now) v = cleanup_expired-IsValid m now v

run_from-IsValid : (m : Manager) (os : List Op) → IsValid m → IsValid (run m os)
unfolding run
run_from-IsValid m [] v = v
run_from-IsValid m (o ∷ os) v = run_from-IsValid (step m o) os (step-IsValid m o v)

-- After any sequence of operations on a new manager the tables are valid: a taken port is between
-- 1 and 65535 and belongs to a registered tunnel that has it, a tunnel with a port of its own holds
-- that port, each tunnel stands under its own id, and the ids still to come are free.
pub run-IsValid : (os : List Op) → IsValid (run new_manager os)
run-IsValid os = run_from-IsValid new_manager os new_manager-IsValid

-- So two registered tunnels of a manager never have the same port of their own.
pub port_exclusive :
    (os : List Op) (a b : Bytes) (s t : Tunnel)
    → tunnel_by_id (run new_manager os) a ≡ some s
    → tunnel_by_id (run new_manager os) b ≡ some t
    → s.remote_port ≡ t.remote_port
    → (s.remote_port == pos 0) ≡ false
    → a ≡ b
unfolding tunnel_by_id
port_exclusive os a b s t ea eb same own =
    let v = run-IsValid os in ground (arith, v.held a s, v.held b t)
