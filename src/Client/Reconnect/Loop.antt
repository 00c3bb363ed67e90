-- ===== src/Client/Reconnect/Loop.antt =====
-- internal/clientcore/manager.go: what the loop does over its rounds.
use qoqtun.Prelude.{
  ℕ, suc, ◌≡◌, refl, Bool, true, false, ◌||◌, Option, none, some, List, [], ◌∷◌, ◌++◌, arith,
  nat_eq, bytes_eq, ◌≢◌, Bool-cases, inl, inr, ◌⊎◌, All,
}
use qoqtun.Prelude.Int.{ℤ, pos, int_eq, ◌≤ℤ◌}
use qoqtun.Client.Errors.{Error, is_permanent, is_graceful, classify}
use qoqtun.Client.Reconnect.{
  ManagerState, disconnected, connecting, online, draining, stopped, BackoffConfig, Round, Outcome,
  finished, failed, still_running, Trace, Verdict, stop_clean, retry, give_up, verdict,
  with_defaults, after, loop, run,
}
use qoqtun.Client.Reconnect.Delay.{backoff_for_bounds}

-- The transitions of docs/conn-manager-state.md.
pub data Next : ManagerState → ManagerState → Type 0 where
  dial : Next disconnected connecting
  dial_failed : Next connecting disconnected
  dial_denied : Next connecting stopped
  handshake : Next connecting online
  lost : Next online disconnected
  fatal : Next online stopped
  shutdown : Next online draining
  drained : Next draining stopped
  cancelled : Next disconnected stopped

-- Each state follows from the one before.
abbrev pub IsPath : ManagerState → List ManagerState → Type 0
IsPath s [] = Unit
IsPath s (t ∷ ts) = Next s t × IsPath t ts

-- The state after them.
unfoldable pub last_state : ManagerState → List ManagerState → ManagerState
last_state s [] = s
last_state s (t ∷ ts) = last_state t ts

abbrev pub EndState : Outcome → ManagerState
EndState still_running = disconnected
EndState finished = stopped
EndState (failed e) = stopped

-- Neither the online state nor the draining one is among them.
unfoldable pub never_online : List ManagerState → Bool
never_online [] = true
never_online (online ∷ ts) = false
never_online (draining ∷ ts) = false
never_online (t ∷ ts) = never_online ts

-- A legal trace of the loop.
abbrev pub IsLegal : Trace → Type 0
IsLegal t =
    IsPath disconnected t.states
    × (last_state disconnected t.states ≡ EndState t.outcome)
    × (never_online t.states ≡ true)

after-IsLegal :
    (c : BackoffConfig) (n : ℕ) (r : Round) (v : Verdict) (t : Trace)
    → IsLegal t
    → IsLegal (after c n r v t)
unfolding after last_state never_online
after-IsLegal c n r stop_clean t h = ((dial, (dial_denied, tt)), refl, refl)
after-IsLegal c n r (give_up e) t h = ((dial, (dial_denied, tt)), refl, refl)
after-IsLegal c n r retry t h = elim (Bool-cases r.stop_waiting) [
  | inl e ↦ rw (after, e) ((dial, (dial_failed, (cancelled, tt))), refl, refl)
  | inr e ↦ rw (after, e) ((dial, (dial_failed, h.0)), h.1, h.2)
]

loop-IsLegal : (c : BackoffConfig) (n : ℕ) (rs : List Round) → IsLegal (loop c n rs)
unfolding loop last_state after never_online
loop-IsLegal c n [] = (tt, refl, refl)
loop-IsLegal c n (r ∷ rs) = elim (Bool-cases r.stop_before) [
  | inl e ↦ rw (loop, e) ((cancelled, tt), refl, refl)
  | inr e ↦
      rw (loop, e)
        (after-IsLegal c (suc n) r (verdict (classify r.session)) (loop c (suc n) rs)
          (loop-IsLegal c (suc n) rs))
]

-- Whatever happens in the rounds, the states reported follow each other by transitions of
-- docs/conn-manager-state.md, the last is the stopped one exactly when the loop has ended, and
-- neither the online state nor the draining one is ever reported.
pub run-IsLegal : (c : BackoffConfig) (rs : List Round) → IsLegal (run c rs)
unfolding run
run-IsLegal c rs = loop-IsLegal (with_defaults c) 0 rs

-- A delay is within the maximum, and a millisecond at least unless it is the maximum.
abbrev pub IsDelay : ℤ → ℤ → Type 0
IsDelay limit d = (d ≤ℤ limit) × ((d ≡ limit) ⊎ (pos 1000000 ≤ℤ d))

after-delays :
    (c : BackoffConfig) (n : ℕ) (r : Round) (v : Verdict) (t : Trace)
    → All (IsDelay c.max) t.delays
    → All (IsDelay c.max) (after c n r v t).delays
unfolding after
after-delays c n r stop_clean t h = tt
after-delays c n r (give_up e) t h = tt
after-delays c n r retry t h = elim (Bool-cases r.stop_waiting) [
  | inl e ↦ rw (after, e) (backoff_for_bounds c n r.down r.delta, tt)
  | inr e ↦ rw (after, e) (backoff_for_bounds c n r.down r.delta, h)
]

loop-delays :
    (c : BackoffConfig) (n : ℕ) (rs : List Round) → All (IsDelay c.max) (loop c n rs).delays
unfolding loop after
loop-delays c n [] = tt
loop-delays c n (r ∷ rs) = elim (Bool-cases r.stop_before) [
  | inl e ↦ rw (loop, e) tt
  | inr e ↦
      rw (loop, e)
        (after-delays c (suc n) r (verdict (classify r.session)) (loop c (suc n) rs)
          (loop-delays c (suc n) rs))
]

-- Every delay that the loop waits is within the maximum of its configuration, which is the default
-- one where the initial delay is not positive.
pub run-delays :
    (c : BackoffConfig) (rs : List Round) → All (IsDelay (with_defaults c).max) (run c rs).delays
unfolding run
run-delays c rs = loop-delays (with_defaults c) 0 rs

-- How a session ended for good: with an error that is permanent and not graceful.
abbrev pub IsFatal : Option Error → Error → Type 0
IsFatal session e = (classify session ≡ some e) × (is_permanent e ≡ true) × (is_graceful e ≡ false)

verdict-give_up :
    (s : Option Error) (e : Error)
    → verdict s ≡ give_up e
    → (s ≡ some e) × (is_permanent e ≡ true) × (is_graceful e ≡ false)
unfolding verdict
verdict-give_up none e h = ground arith
verdict-give_up (some x) e h = ground arith

-- Some round's session ended so.
abbrev pub SomeFatal : List Round → Error → Type 0
SomeFatal [] e = ⊥
SomeFatal (r ∷ rs) e = IsFatal r.session e ⊎ SomeFatal rs e

loop-failed :
    (c : BackoffConfig) (n : ℕ) (rs : List Round) (e : Error)
    → (loop c n rs).outcome ≡ failed e
    → SomeFatal rs e
unfolding loop after
loop-failed c n [] e h = ground arith
loop-failed c n (r ∷ rs) e h =
    by_verdict (verdict (classify r.session)) refl (loop-failed c (suc n) rs e)
  where
    by_verdict :
        (v : Verdict)
        → verdict (classify r.session) ≡ v
        → ((loop c (suc n) rs).outcome ≡ failed e → SomeFatal rs e)
        → SomeFatal (r ∷ rs) e
    by_verdict stop_clean q more = ground arith
    by_verdict (give_up x) q more = inl (ground (arith, verdict-give_up (classify r.session) e))
    by_verdict retry q more = inr (more (ground arith))

-- The loop gives up with an error only if some session ended with it, and the error, classified, is
-- permanent and no graceful shutdown.
pub run-failed :
    (c : BackoffConfig) (rs : List Round) (e : Error)
    → (run c rs).outcome ≡ failed e
    → SomeFatal rs e
unfolding run
run-failed c rs e h = loop-failed (with_defaults c) 0 rs e h

-- The round ends the loop.
unfoldable pub is_final : Round → Bool
is_final r = r.stop_before || elim (verdict (classify r.session)) [
  | stop_clean ↦ true
  | retry ↦ r.stop_waiting
  | give_up e ↦ true
]

loop-ends :
    (c : BackoffConfig) (n : ℕ) (pre post : List Round) (r : Round)
    → is_final r ≡ true
    → (loop c n (pre ++ r ∷ post)).outcome ≢ still_running
unfolding loop after is_final
loop-ends c n [] post r f = by_verdict (verdict (classify r.session)) refl
  where
    by_verdict :
        (v : Verdict)
        → verdict (classify r.session) ≡ v
        → (loop c n (r ∷ post)).outcome ≢ still_running
    by_verdict stop_clean q = ground arith
    by_verdict (give_up x) q = ground arith
    by_verdict retry q = ground arith
loop-ends c n (p ∷ pre) post r f =
    by_verdict (verdict (classify p.session)) refl (loop-ends c (suc n) pre post r f)
  where
    by_verdict :
        (v : Verdict)
        → verdict (classify p.session) ≡ v
        → ((loop c (suc n) (pre ++ r ∷ post)).outcome ≢ still_running)
        → (loop c n (p ∷ pre ++ r ∷ post)).outcome ≢ still_running
    by_verdict stop_clean q more = ground arith
    by_verdict (give_up x) q more = ground arith
    by_verdict retry q more = ground arith

-- The loop has ended once a round asks it to stop or its session ended cleanly or for good.
pub run-ends :
    (c : BackoffConfig) (pre post : List Round) (r : Round)
    → is_final r ≡ true
    → (run c (pre ++ r ∷ post)).outcome ≢ still_running
unfolding run
run-ends c pre post r f = loop-ends (with_defaults c) 0 pre post r f
