-- ===== src/Control/Run/Offers.antt =====
-- internal/control: what becomes of a public connection, and of the slots that it takes.
use qoqtun.Prelude.{
  ℕ, suc, ◌≡◌, refl, true, Option, none, some, ◌∷◌, arith, ◌==◌, ◌*◌, ◌+◌, ◌&&◌, ltb, if◌then◌else◌,
  Bytes, bytes_eq, nat_eq, Bool-cases, inl, inr, ap, ◌∙◌, ◌⊎◌,
}
use qoqtun.Prelude.Int.{pos, int_eq}
use qoqtun.Prelude.Maps.{lookup, delete, lookup-insert_self, lookup-delete_self}
use qoqtun.Protocol.Messages.{OpenData}
use qoqtun.Protocol.Validate.{validate_open_data}
use qoqtun.Tunnel.Manager.{
  Tunnel, Pending, Manager, open_connection, claim_data, claim_timed_out, second,
}
use qoqtun.Security.IpGate
use qoqtun.Security.IpGate.{active, active-allow_conn, active-release}
use qoqtun.Control.DataQuota.{acquire_data_quota}
use qoqtun.Control.Server.{Limits, Server, Outside, manager_in, use_buckets}
use qoqtun.Control.PublicConns.{offered, offer, admit, release_gate, on_open}
use qoqtun.Control.DataConns.{claimed, claim, handle_data_conn}
use qoqtun.Control.Run.Stale.{manager_in-insert}

-- The connection waits for the client under an id.
abbrev pub Waits : {Limiter : Type 0} → Bytes → Tunnel → ℕ → Server Limiter → Type 0
Waits id t public s =
    (conn_id : Bytes) × (pc : Pending) × (lookup conn_id (manager_in id s.managers).pending
      ≡ some pc)
    × (pc.conn ≡ some public)
    × (pc.tunnel_id ≡ t.id)

abbrev pub Closes : {Limiter : Type 0} → ℕ → Server Limiter → Server Limiter → Type 0
Closes public s s' = (s'.closed ≡ public ∷ s.closed) × (s'.managers ≡ s.managers)

module _ {Limiter : Type 0} where
  offer_settles :
      (c : ℕ) (id : Bytes) (t : Tunnel) (public : ℕ) (w : Outside) (s : Server Limiter)
      → Closes public s (offer c id t public w s) ⊎ Waits id t public (offer c id t public w s)
  unfolding offer offered open_connection
  offer_settles c id t public w s = by_id w.fresh_id
    where
      by_id :
          (fresh : Option Bytes)
          → let s' = offered c id t public s (
              open_connection
                (manager_in id s.managers)
                t
                (some public)
                (pos (10 * second))
                w.now
                fresh) in
            Closes public s s' ⊎ Waits id t public s'
      by_id none = inl (refl, refl)
      by_id (some conn_id) =
          let m = manager_in id s.managers in
          let o = open_connection m t (some public) (pos (10 * second)) w.now (some conn_id) in
          let pc : Pending = record {
            conn = some public;
            tunnel_id = t.id;
            deadline = w.now + 10 * second;
          } in
          inr (
            conn_id,
            pc,
            rw (manager_in-insert id o.1 s.managers) (lookup-insert_self conn_id pc m.pending),
            refl,
            refl,
          )

  offered_gate :
      (c : ℕ) (id : Bytes) (t : Tunnel) (public : ℕ) (s : Server Limiter)
      (o : Option Bytes × Manager)
      → (offered c id t public s o).gate ≡ s.gate
  unfolding offered
  offered_gate c id t public s (none, m) = refl
  offered_gate c id t public s (some conn_id, m) = refl

  admit_settles :
      (c : ℕ) (id : Bytes) (t : Tunnel) (public : ℕ) (w : Outside) (s : Server Limiter)
      → (Closes public s (admit c id t public w s) ⊎ Waits id t public (admit c id t public w s))
        × ((admit c id t public w s).gate ≡ s.gate)
  unfolding admit use_buckets
  admit_settles c id t public w s = elim (Bool-cases (acquire_data_quota id t.id s.quotas).0) [
    | inr full ↦ rw (admit, full) (inl (refl, refl), refl)
    | inl room ↦
        rw (admit, room)
          (offer_settles c id t public w _, unfold offer in offered_gate c id t public _ _)
  ]

  -- A claim that comes after the deadline closes both connections and spends the id. The slots that
  -- were taken when the public connection arrived stay taken.
  pub late_claim_keeps_slots :
      (id : Bytes) (d : OpenData) (conn now public : ℕ) (pc : Pending) (s : Server Limiter)
      → validate_open_data (some d) ≡ none
      → lookup d.conn_id (manager_in id s.managers).pending ≡ some pc
      → pc.conn ≡ some public
      → ltb pc.deadline now ≡ true
      → let s' = handle_data_conn id (some d) conn now s in
        let m = manager_in id s.managers in
        (s'.quotas ≡ s.quotas)
        × (s'.closed ≡ conn ∷ s.closed)
        × ((manager_in id s'.managers).closed ≡ public ∷ m.closed)
        × (lookup d.conn_id (manager_in id s'.managers).pending ≡ none)
  unfolding handle_data_conn claim claimed
  late_claim_keeps_slots id d conn now public pc s valid waits has late =
      let m = manager_in id s.managers in
      let m' : Manager = record m {
        pending = delete d.conn_id m.pending;
        closed = public ∷ m.closed;
      } in
      let timed_out : claim_data m d.conn_id now ≡ (claim_timed_out, m') =
        unfold claim_data in rw (claim_data, waits, late, has) refl in
      rw (handle_data_conn, valid, timed_out)
        (
          refl,
          refl,
          ap (λ n. n.closed) (manager_in-insert id m' s.managers),
          ap (λ n. lookup d.conn_id n.pending) (manager_in-insert id m' s.managers)
              ∙ lookup-delete_self d.conn_id m.pending,
        )

module _ (lim : Limits) where
  -- Every public connection is either closed, with no manager touched, or waits for the client
  -- under an id, with its tunnel. Either way no address has more or fewer slots of the gate in use
  -- afterwards than before: the cap on connections of an address does not count the one that waits.
  pub on_open_settles :
      (c : ℕ) (id : Bytes) (t : Tunnel) (public : ℕ) (ip j : Bytes) (w : Outside)
      (s : Server lim.Limiter)
      → let s' = on_open lim c id t public ip w s in
        (Closes public s s' ⊎ Waits id t public s') × (active s'.gate j ≡ active s.gate j)
  unfolding on_open release_gate
  on_open_settles c id t public ip j w s =
      let a = IpGate.allow_conn lim.new_limiter lim.allow s.gate w.now ip in
      let s1 : Server lim.Limiter = record s { gate = a.1 } in
      let arrives = active-allow_conn lim.new_limiter lim.allow s.gate w.now ip j in
      elim (Bool-cases a.0) [
        | inr out ↦ rw (on_open, out) (inl (refl, refl), ground (arith, arrives, out))
        | inl may ↦
            let (settled, kept) = admit_settles c id t public w s1 in
            rw (on_open, may)
              (settled, ap (λ g. active (IpGate.release g ip) j) kept ∙ given_back arrives may)
      ]
    where
      given_back :
          active (IpGate.allow_conn lim.new_limiter lim.allow s.gate w.now ip).1 j ≡ (
            if (IpGate.allow_conn lim.new_limiter lim.allow s.gate w.now ip).0 && (ip == j)
            then suc (active s.gate j)
            else active s.gate j)
          → (IpGate.allow_conn lim.new_limiter lim.allow s.gate w.now ip).0 ≡ true
          → active
              (IpGate.release (IpGate.allow_conn lim.new_limiter lim.allow s.gate w.now ip).1 ip)
              j
            ≡ active s.gate j
      given_back arrives may =
          let g = (IpGate.allow_conn lim.new_limiter lim.allow s.gate w.now ip).1 in
          ground (arith, active-release lim.new_limiter lim.allow g ip j, arrives, may)
