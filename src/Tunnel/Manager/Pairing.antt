-- ===== src/Tunnel/Manager/Pairing.antt =====
-- internal/tunnel/server.go: how a data connection finds the public connection that waits for it.
use qoqtun.Prelude.{
  ℕ, ◌+◌, ◌≤◌, ◌<◌, ◌≡◌, refl, not, Option, none, some, ◌∷◌, arith, if◌then◌else◌, ◌==◌, ltb,
  nat_eq, Bytes, bytes_eq, Option-cases, inl, inr, ◌*◌, ◌↔◌,
}
use qoqtun.Prelude.Int.{pos, int_eq}
use qoqtun.Prelude.Maps.{
  lookup, insert, lookup-insert, lookup-delete, lookup-retain, lookup-insert_self,
  lookup-delete_self,
}
use qoqtun.Tunnel.Manager.{
  Tunnel, Pending, Manager, open_connection, claim_data, cleanup_expired, paired, unknown_conn,
  claim_timed_out, second, tunnel_by_id,
}
use qoqtun.Tunnel.Manager.Invariant.{IsValid}

-- Claiming an id, on every branch: it pairs exactly if the id waits, its deadline has not passed
-- and its tunnel is registered.
pub claim_data_paired :
    (m : Manager) (id : Bytes) (now : ℕ) (pc : Pending) (t : Tunnel)
    → lookup id m.pending ≡ some pc
    → ((claim_data m id now).0 ≡ paired pc.conn t)
      ↔ ((now ≤ pc.deadline) × (lookup pc.tunnel_id m.tunnels ≡ some t))
unfolding claim_data
claim_data_paired m id now pc t hit = (λ e. ground arith, λ h. ground arith)

-- A claimed id is spent, whatever came of the claim: the next claim finds nothing, at any time.
pub claim_data_once :
    (m : Manager) (id : Bytes) (now later : ℕ)
    → (claim_data (claim_data m id now).1 id later).0 ≡ unknown_conn
unfolding claim_data
claim_data_once m id now later = elim (Option-cases (lookup id m.pending)) [
  | inl miss ↦ ground arith
  | inr (pc, hit) ↦ ground (arith, lookup-delete_self id m.pending)
]

-- What `open_connection` reserves is claimed by its id, and by that id alone, until its deadline:
-- the claim hands over the very public connection, and closes nothing. Without a claim timeout the
-- deadline is ten seconds away.
pub open-claim :
    (m : Manager) (t : Tunnel) (conn : Option ℕ) (now later : ℕ) (id j : Bytes)
    → IsValid m
    → tunnel_by_id m t.id ≡ some t
    → later ≤ now + 10 * second
    → ((open_connection m t conn (pos 0) now (some id)).0 ≡ some id)
      × ((claim_data (open_connection m t conn (pos 0) now (some id)).1 id later).0 ≡ paired conn t)
      × ((claim_data (open_connection m t conn (pos 0) now (some id)).1 id later).1.closed
          ≡ m.closed)
      × (lookup j (claim_data (open_connection m t conn (pos 0) now (some id)).1 id later).1.pending
          ≡ (if id == j then none else lookup j m.pending))
unfolding open_connection claim_data tunnel_by_id
open-claim m t conn now later id j v there soon =
    let pc : Pending = record { conn = conn; tunnel_id = t.id; deadline = now + 10 * second } in
    let put = lookup-insert_self id pc m.pending in
    (
      refl,
      ground (arith, put),
      ground (arith, put),
      ground (
        arith,
        put,
        lookup-delete id j (insert id pc m.pending),
        lookup-insert id j pc m.pending,
      ),
    )

-- A late claim fails and closes the public connection that waited.
pub claim_data_late :
    (m : Manager) (id : Bytes) (now c : ℕ) (pc : Pending)
    → lookup id m.pending ≡ some pc
    → pc.conn ≡ some c
    → pc.deadline < now
    → ((claim_data m id now).0 ≡ claim_timed_out) × ((claim_data m id now).1.closed ≡ c ∷ m.closed)
unfolding claim_data
claim_data_late m id now c pc hit waits late = (ground arith, ground arith)

-- The sweep drops exactly what is past its deadline.
pub cleanup_expired_effect :
    (m : Manager) (now : ℕ) (id : Bytes)
    → IsValid m
    → lookup id (cleanup_expired m now).pending ≡ elim (lookup id m.pending) [
      | none ↦ none
      | some pc ↦ (if ltb pc.deadline now then none else some pc)
    ]
unfolding cleanup_expired
cleanup_expired_effect m now id v =
    ground
      (arith, lookup-retain (λ _ pc. not (ltb pc.deadline now)) id m.pending v.distinct_pending)
