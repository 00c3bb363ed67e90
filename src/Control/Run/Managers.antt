-- ===== src/Control/Run/Managers.antt =====
-- internal/control: what the operations of a manager and of the routing table do to the tunnels and
-- hosts that the control plane relies on.
use qoqtun.Prelude.{
  ℕ, suc, ◌≡◌, refl, Bool, false, not, Option, none, some, List, [], arith, ◌==◌, if◌then◌else◌,
  ltb, length, Bytes, bytes_eq, nat_eq, Bool-cases, Option-cases, inl, inr, bytes_beq_iff,
}
use qoqtun.Prelude.Int.{ℤ, int_eq}
use qoqtun.Prelude.Maps.{
  Map, lookup, insert, IsDistinct, lookup-insert, lookup-delete, lookup-retain, retain-IsDistinct,
}
use qoqtun.Tunnel.Host.{normalize_host, valid_hostname}
use qoqtun.Tunnel.Host
use qoqtun.Tunnel.Manager.{
  Tunnel, Manager, fresh_tunnel, register, unregister, open_connection, claim_data,
}
use qoqtun.Tunnel.Manager.Invariant.{IsValid}
use qoqtun.Tunnel.Manager.Steps.{register_cases}
use qoqtun.Tunnel.Vhost.{Entry, VhostTable, unregister_tunnel}
use qoqtun.Control.Run.Table.{Extends}

pub insert-Extends :
    (m : Manager) (t : Tunnel) (ports : Map ℤ Bytes) (seq : ℕ)
    → lookup t.id m.tunnels ≡ none
    → Extends m (record m { seq = seq; tunnels = insert t.id t m.tunnels; ports = ports })
insert-Extends m t ports seq new id u h =
    ground (arith, lookup-insert t.id id t m.tunnels, bytes_beq_iff t.id id)

pub fresh-absent :
    (m : Manager) (name typ : Bytes) (port : ℤ) (host : Bytes)
    → IsValid m
    → lookup (fresh_tunnel m name typ port host).id m.tunnels ≡ none
unfolding fresh_tunnel
fresh-absent m name typ port host v = v.fresh (suc m.seq) (omega arith)

pub register-Extends :
    (m : Manager) (name typ : Bytes) (port : ℤ) (allowed : List Bytes) (max_tunnels : ℤ)
    (listens : Bool)
    → IsValid m
    → Extends m (register m name typ port allowed max_tunnels listens).1
register-Extends m name typ port allowed max_tunnels listens v =
    register_cases (λ r. Extends m r.1) m name typ port allowed max_tunnels listens (λ e id t h. h)
      (λ id t h. h)
      (λ room good may free.
        insert-Extends m (fresh_tunnel m name typ port []) m.ports m.seq
          (fresh-absent m name typ port [] v))

pub open_connection-tunnels :
    (m : Manager) (t : Tunnel) (conn : Option ℕ) (wait : ℤ) (now : ℕ) (id : Option Bytes)
    → (open_connection m t conn wait now id).1.tunnels ≡ m.tunnels
unfolding open_connection
open_connection-tunnels m t conn wait now none = refl
open_connection-tunnels m t conn wait now (some id) = refl

pub claim_data-tunnels :
    (m : Manager) (id : Bytes) (now : ℕ) → (claim_data m id now).1.tunnels ≡ m.tunnels
unfolding claim_data
claim_data-tunnels m id now = elim (Option-cases (lookup id m.pending)) [
  | inl miss ↦ rw (claim_data, miss) refl
  | inr (pc, hit) ↦ elim (Bool-cases (ltb pc.deadline now)) [
    | inl late ↦ rw (claim_data, hit, late) refl
    | inr soon ↦ elim (Option-cases (lookup pc.tunnel_id m.tunnels)) [
      | inl gone ↦ rw (claim_data, hit, soon, gone) refl
      | inr (t, there) ↦ rw (claim_data, hit, soon, there) refl
    ]
  ]
]

pub unregister-tunnels :
    (m : Manager) (id j : Bytes)
    → lookup j (unregister m id).tunnels ≡ (if id == j then none else lookup j m.tunnels)
unfolding unregister
unregister-tunnels m id j = elim (Option-cases (lookup id m.tunnels)) [
  | inl miss ↦ rw (unregister, miss) (ground (arith, bytes_beq_iff id j))
  | inr (t, hit) ↦ rw (unregister, hit) (lookup-delete id j m.tunnels)
]

-- A removal of a tunnel takes all its hosts off the table and no others.
pub unregister_tunnel-left :
    (id host : Bytes) (e : Entry) (hosts : VhostTable)
    → IsDistinct hosts
    → lookup host (unregister_tunnel id hosts) ≡ some e
    → (lookup host hosts ≡ some e) × ((e.tunnel_id == id) ≡ false)
unfolding unregister_tunnel
unregister_tunnel-left id host e hosts d h = elim (Option-cases (lookup host hosts)) [
  | inl miss ↦ ground (arith, lookup-retain (λ _ e. not (e.tunnel_id == id)) host hosts d)
  | inr (x, hit) ↦ ground (arith, lookup-retain (λ _ e. not (e.tunnel_id == id)) host hosts d)
]

pub unregister_tunnel-IsDistinct :
    (id : Bytes) (hosts : VhostTable) → IsDistinct hosts → IsDistinct (unregister_tunnel id hosts)
unfolding unregister_tunnel
unregister_tunnel-IsDistinct id hosts d = retain-IsDistinct _ hosts d

-- A normalized host is not empty.
pub normalize-nonempty :
    (raw host : Bytes) → normalize_host raw ≡ Host.ok host → (length host == 0) ≡ false
unfolding normalize_host valid_hostname
normalize-nonempty raw host h = ground arith
