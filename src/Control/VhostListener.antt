-- ===== src/Control/VhostListener.antt =====
-- internal/control/vhost.go: the shared listener of the HTTP tunnels, counted by references.
use qoqtun.Prelude.{
  ℕ, suc, ◌-◌, ◌≡◌, Bool, true, false, ◌||◌, not, List, [], ◌∷◌, arith, if◌then◌else◌, ltb, nat_eq,
  bytes_eq, Bool-cases, inl, inr,
}
use qoqtun.Prelude.Int.{ℤ, pos, ltz, lez, int_eq, ◌+ℤ◌, ◌-ℤ◌}

pub record VhostListener : Type 0 where
  pub refs : ℤ
  pub listening : Bool

-- `startVhost`: whether it succeeded; `listens` is the outcome of the bind.
unfoldable pub start_vhost : ℤ → Bool → VhostListener → Bool × VhostListener
start_vhost port listens v =
    if v.listening
    then (true, record v { refs = v.refs +ℤ pos 1 })
    else if lez port (pos 0) || not listens
    then (false, record v { refs = v.refs +ℤ pos 1 -ℤ pos 1 })
    else (true, record { refs = v.refs +ℤ pos 1; listening = true })

-- `stopVhost`
unfoldable pub stop_vhost : VhostListener → VhostListener
stop_vhost v =
    let refs = if ltz (pos 0) v.refs then v.refs -ℤ pos 1 else v.refs in
    record { refs = refs; listening = if lez refs (pos 0) then false else v.listening }

pub data Call : Type 0 where
  start : ℤ → Bool → Call
  stop : Call

-- The listener beside the starts that succeeded, less the stops.
pub record Usage : Type 0 where
  pub listener : VhostListener
  pub users : ℕ

unfoldable pub step : Call → Usage → Usage
step (start port listens) u = record {
  listener = (start_vhost port listens u.listener).1;
  users = if (start_vhost port listens u.listener).0 then suc u.users else u.users;
}
step stop u = record { listener = stop_vhost u.listener; users = u.users - 1 }

unfoldable pub run : List Call → Usage → Usage
run [] u = u
run (c ∷ cs) u = run cs (step c u)

abbrev pub IsCounted : Usage → Type 0
IsCounted u = (u.listener.refs ≡ pos u.users) × (u.listener.listening ≡ ltb 0 u.users)

step-IsCounted : (c : Call) (u : Usage) → IsCounted u → IsCounted (step c u)
unfolding step start_vhost stop_vhost
step-IsCounted (start port listens) u h = elim (Bool-cases u.listener.listening) [
  | inl e ↦ ground arith
  | inr e ↦ elim (Bool-cases (lez port (pos 0) || not listens)) [
    | inl f ↦ ground arith
    | inr f ↦ ground arith
  ]
]
step-IsCounted stop u h = ground arith

-- After any starts and stops the listener is open exactly while some start that succeeded has had
-- no stop: a failed start leaves no reference behind.
pub run-IsCounted : (cs : List Call) (u : Usage) → IsCounted u → IsCounted (run cs u)
unfolding run
run-IsCounted [] u h = h
run-IsCounted (c ∷ cs) u h = run-IsCounted cs (step c u) (step-IsCounted c u h)
