-- ===== src/Control/Ports.antt =====
-- internal/control/server.go: ports held for a client that lost its connection.
use qoqtun.Prelude.{
  ℕ, ◌+◌, ◌≡◌, refl, Bool, true, false, ◌&&◌, ◌||◌, not, Option, none, some, arith, if◌then◌else◌,
  ◌==◌, ltb, leb, nat_eq, Bytes, bytes_eq, Bool-cases, Option-cases, inl, inr,
}
use qoqtun.Prelude.Int.{ℤ, int_eq, int_beq_iff}
use qoqtun.Prelude.Maps.{
  Map, lookup, insert, delete, retain, IsDistinct, lookup-delete, lookup-retain,
}

pub record Reservation : Type 0 where
  pub client_id : Bytes
  pub until : ℕ

abbrev pub Reservations : Type 0
Reservations = Map ℤ Reservation

-- `reservePort`
unfoldable pub reserve_port : ℤ → Bytes → ℕ → ℕ → Reservations → Reservations
reserve_port port client_id ttl now rs =
    insert port (record { client_id = client_id; until = now + ttl }) rs

-- `now.After(r.until)` entries are dropped.
unfoldable pub is_live : ℕ → ℤ → Reservation → Bool
is_live now port r = not (ltb r.until now)

unfoldable pub drop_expired : ℕ → Reservations → Reservations
drop_expired now rs = retain (is_live now) rs

-- The decision, given the reservation of the port that is left.
unfoldable pub arbitrate : ℤ → Bytes → Option Reservation → Reservations → Bool × Reservations
arbitrate port client_id none live = (true, live)
arbitrate port client_id (some r) live =
    if r.client_id == client_id then (true, delete port live) else (false, live)

-- `checkPortArbitration`: whether the client may have the port.
unfoldable pub check_port_arbitration : ℤ → Bytes → ℕ → Reservations → Bool × Reservations
check_port_arbitration port client_id now rs =
    let live = drop_expired now rs in arbitrate port client_id (lookup port live) live

-- Whether a reservation keeps the client from the port.
unfoldable pub keeps_out : Bytes → ℕ → Option Reservation → Bool
keeps_out client_id now none = false
keeps_out client_id now (some r) = leb now r.until && not (r.client_id == client_id)

arbitrate-lookup :
    (port other : ℤ) (client_id : Bytes) (o : Option Reservation) (live : Reservations)
    → lookup port live ≡ o
    → lookup other (arbitrate port client_id o live).1 ≡ elim (lookup other live) [
      | none ↦ none
      | some r ↦ (if port == other && r.client_id == client_id then none else some r)
    ]
unfolding arbitrate
arbitrate-lookup port other client_id none live h = ground (arith, int_beq_iff port other)
arbitrate-lookup port other client_id (some r) live h =
    elim (Bool-cases (r.client_id == client_id)) [
      | inl e ↦ ground (arith, int_beq_iff port other, lookup-delete port other live)
      | inr e ↦ ground (arith, int_beq_iff port other)
    ]

-- A client is refused a port exactly while another client's reservation of it lasts; one that is
-- let through has no reservation of the port left, and the reservations of other ports last as
-- long as they did.
pub check_port_arbitration_effect :
    (port : ℤ) (client_id : Bytes) (now : ℕ) (rs : Reservations) (other : ℤ)
    → IsDistinct rs
    → ((check_port_arbitration port client_id now rs).0
        ≡ not (keeps_out client_id now (lookup port rs)))
      × (lookup other (check_port_arbitration port client_id now rs).1 ≡ elim (lookup other rs) [
        | none ↦ none
        | some r ↦
            (if ltb r.until now || (port == other && r.client_id == client_id)
              then none
              else some r)
      ])
unfolding check_port_arbitration drop_expired keeps_out is_live arbitrate
check_port_arbitration_effect port client_id now rs other d = (
  elim (Option-cases (lookup port rs)) [
    | inl free ↦ ground (arith, lookup-retain (is_live now) port rs d)
    | inr (r, held) ↦ ground (arith, lookup-retain (is_live now) port rs d)
  ],
  elim (Option-cases (lookup other rs)) [
    | inl free ↦ ground (
      arith,
      arbitrate-lookup port other client_id (lookup port (drop_expired now rs))
          (drop_expired now rs) refl,
      lookup-retain (is_live now) other rs d,
    )
    | inr (r, held) ↦ ground (
      arith,
      arbitrate-lookup port other client_id (lookup port (drop_expired now rs))
          (drop_expired now rs) refl,
      lookup-retain (is_live now) other rs d,
    )
  ],
)
