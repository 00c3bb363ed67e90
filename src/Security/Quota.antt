-- ===== src/Security/Quota.antt =====
-- internal/security/quota.go: the non-blocking semaphore. A nil pointer is `none`; the mutex makes
-- each method one step.
use qoqtun.Prelude.{
  ℕ, suc, ◌-◌, ◌≤◌, ◌≡◌, refl, Bool, true, false, Option, none, some, List, [], ◌∷◌, arith,
  if◌then◌else◌, ◌==◌, nat_eq, ltb,
}
use qoqtun.Prelude.Int.{ℤ, pos, ◌+ℤ◌, ◌-ℤ◌, ltz, lez}

pub record Semaphore : Type 0 where
  pub limit : ℤ
  pub active : ℤ

unfoldable pub new_semaphore : ℤ → Semaphore
new_semaphore limit = record { limit = limit; active = pos 0 }

unfoldable pub try_acquire_on : Semaphore → Bool × Semaphore
try_acquire_on s =
    if lez s.limit (pos 0)
    then (true, s)
    else if lez s.limit s.active
    then (false, s)
    else (true, record s { active = s.active +ℤ pos 1 })

unfoldable pub release_on : Semaphore → Semaphore
release_on s =
    if lez s.limit (pos 0)
    then s
    else if ltz (pos 0) s.active
    then record s { active = s.active -ℤ pos 1 }
    else s

-- The methods of the pointer.
unfoldable pub try_acquire : Option Semaphore → Bool × Option Semaphore
try_acquire none = (true, none)
try_acquire (some s) = ((try_acquire_on s).0, some (try_acquire_on s).1)

unfoldable pub release : Option Semaphore → Option Semaphore
release none = none
release (some s) = some (release_on s)

unfoldable pub active_slots : Option Semaphore → ℤ
active_slots none = pos 0
active_slots (some s) = s.active

unfoldable pub slot_limit : Option Semaphore → ℤ
slot_limit none = pos 0
slot_limit (some s) = s.limit

-- Callers of the quota: each may ask for a slot, or give back one that it was granted.
pub data Call : Type 0 where
  ask give_back : Call

-- The semaphore beside the number of slots that callers hold.
pub record Usage : Type 0 where
  pub sem : Option Semaphore
  pub held : ℕ

unfoldable pub step : Usage → Call → Usage
step u ask = record {
  sem = (try_acquire u.sem).1;
  held = if (try_acquire u.sem).0 then suc u.held else u.held;
}
step u give_back = if u.held == 0 then u else record { sem = release u.sem; held = u.held - 1 }

unfoldable pub run : Usage → List Call → Usage
run u [] = u
run u (c ∷ cs) = run (step u c) cs

-- What holds of a semaphore with a positive limit: it counts exactly the slots held.
pub record Counts (n : ℕ) (u : Usage) : Type 0 where
  pub counted : u.sem ≡ some (record { limit = pos (suc n); active = pos u.held })
  pub bounded : u.held ≤ suc n

step-Counts : (n : ℕ) (u : Usage) (c : Call) → Counts n u → Counts n (step u c)
unfolding step try_acquire release try_acquire_on release_on
step-Counts n u ask v = ground arith
step-Counts n u give_back v = ground arith

run-Counts : (n : ℕ) (u : Usage) (cs : List Call) → Counts n u → Counts n (run u cs)
unfolding run
run-Counts n u [] v = v
run-Counts n u (c ∷ cs) v = run-Counts n (step u c) cs (step-Counts n u c v)

unfoldable pub init : ℤ → Usage
init limit = record { sem = some (new_semaphore limit); held = 0 }

-- From a new semaphore with limit n + 1, after any sequence of requests and returns (a caller
-- returns only what it was granted): never more than n + 1 slots are held, the counter is exactly
-- the number held, and the next request is granted exactly when fewer than n + 1 are held.
pub run-exact :
    (n : ℕ) (cs : List Call)
    → ((run (init (pos (suc n))) cs).held ≤ suc n)
      × (active_slots (run (init (pos (suc n))) cs).sem ≡ pos (run (init (pos (suc n))) cs).held)
      × ((try_acquire (run (init (pos (suc n))) cs).sem).0
          ≡ ltb (run (init (pos (suc n))) cs).held (suc n))
unfolding active_slots try_acquire try_acquire_on init new_semaphore
run-exact n cs =
    let u = run (init (pos (suc n))) cs in
    let v : Counts n u = run-Counts n _ cs (record { counted = refl; bounded = omega arith }) in
    (v.bounded, ground (arith, v.counted), ground (arith, v.counted))
