-- ===== src/Enroll/RateLimit/Bans.antt =====
-- internal/enroll/ratelimit.go: how long a ban lasts, and who is let through.
use qoqtun.Prelude.{
  ℕ, zero, suc, ◌+◌, ◌-◌, ◌*◌, ◌^◌, min, ◌≤◌, ◌<◌, ◌≡◌, refl, Bool, true, false, ◌&&◌, some, arith,
  if◌then◌else◌, ◌==◌, Bytes, bytes_eq, nat_eq, nat_beq, ◌∙◌, ap, List, [], ◌∷◌, Bool-cases,
  Option-cases, inl, inr, ==_eq,
}
use native.Mathlib.Nat.{pow-suc, suc-add}
use qoqtun.Prelude.Int.{pos, negsuc, ◌≤ℤ◌, ◌<ℤ◌}
use qoqtun.Prelude.Maps.{Map, lookup, insert, lookup-insert, lookup-insert_self, lookup-insert_ne}
use qoqtun.Enroll.RateLimit.{IpState, second, day, backoff, report_state, state_of, allow, report}

-- A test of all the counters under a bound.
holds_under : (ℕ → Bool) → ℕ → Bool
holds_under test zero = true
holds_under test (suc bound) = holds_under test bound && test bound

holds_under-at :
    (test : ℕ → Bool) (bound fails : ℕ)
    → fails < bound
    → holds_under test bound ≡ true
    → test fails ≡ true
unfolding holds_under
holds_under-at test zero fails less all_hold = absurd (omega arith)
holds_under-at test (suc bound) fails less all_hold =
    ground (arith, holds_under-at test bound fails)

-- The ban that the counter asks for, with no bound on its size.
abbrev pub wanted_ban : ℕ → ℕ
wanted_ban fails = min (2 ^ (fails - 1) * 5 * second) day

is_wanted : ℕ → Bool
unfolding backoff
is_wanted fails = elim (backoff fails) [ pos n ↦ nat_beq n (wanted_ban fails) | negsuc n ↦ false ]

is_wanted-eq : (fails : ℕ) → is_wanted fails ≡ true → backoff fails ≡ pos (wanted_ban fails)
unfolding is_wanted
is_wanted-eq fails h = ground arith

table : holds_under is_wanted 32 ≡ true
unfolding holds_under is_wanted
table = refl

-- The counter runs from 2 to 31: the ban is 5 seconds times 2 ^ (fails - 1), capped at 24 hours.
-- The bounds are those within which the int64 arithmetic does not wrap.
pub backoff-wanted_ban : (fails : ℕ) → fails < 32 → backoff fails ≡ pos (wanted_ban fails)
backoff-wanted_ban fails h = is_wanted-eq fails (holds_under-at is_wanted 32 fails h table)

over :
    {Limiter : Type 0} (now later : ℕ) (st : IpState Limiter)
    → st.fails ≡ 31
    → now ≤ later
    → (report_state now false st).ban_until ≤ℤ pos later
unfolding report_state backoff
over now later st at le = rw at (ground arith)

module _ {Limiter : Type 0} (fresh : Limiter) (take : ℕ → Limiter → Bool × Limiter) where
  state_found :
      (ip : Bytes) (m : Map Bytes (IpState Limiter)) (st : IpState Limiter)
      → lookup ip m ≡ some st
      → state_of fresh take ip m ≡ st
  unfolding state_of
  state_found ip m st found = ground arith

  report_found :
      (now : ℕ) (ip : Bytes) (ok : Bool) (m : Map Bytes (IpState Limiter)) (st : IpState Limiter)
      → lookup ip m ≡ some st
      → report fresh take now ip ok m ≡ insert ip (report_state now ok st) m
  unfolding report
  report_found now ip ok m st found = ground arith

  allow_banned :
      (now : ℕ) (ip : Bytes) (m : Map Bytes (IpState Limiter)) (st : IpState Limiter)
      → lookup ip m ≡ some st
      → pos now <ℤ st.ban_until
      → allow fresh take now ip m ≡ (false, insert ip st m)
  unfolding allow state_of
  allow_banned now ip m st found banned = ground arith

  allow_free :
      (now : ℕ) (ip : Bytes) (m : Map Bytes (IpState Limiter)) (st : IpState Limiter)
      → lookup ip m ≡ some st
      → st.ban_until ≤ℤ pos now
      → (allow fresh take now ip m).0 ≡ (take now st.limiter).0
  unfolding allow state_of
  allow_free now ip m st found free = ground arith

  banned_until :
      (now : ℕ) (st : IpState Limiter)
      → 0 < st.fails
      → st.fails < 31
      → (report_state now false st).ban_until ≡ pos (now + wanted_ban (st.fails + 1))
  unfolding report_state
  banned_until now st low high = ground (arith, backoff-wanted_ban (st.fails + 1) (omega arith))

  -- A request is let through or not, or a request that was let through is reported.
  pub data Call : Type 0 where
    asks : ℕ → Bytes → Call
    reports : ℕ → Bytes → Bool → Call

  unfoldable pub run : List Call → Map Bytes (IpState Limiter) → Map Bytes (IpState Limiter)
  run [] m = m
  run (asks now ip ∷ cs) m = run cs (allow fresh take now ip m).1
  run (reports now ip ok ∷ cs) m = run cs (report fresh take now ip ok m)

  -- Up to a time, with no report of that address.
  abbrev pub Quiet : Bytes → ℕ → List Call → Type 0
  Quiet ip until [] = Unit
  Quiet ip until (asks now j ∷ cs) = (now < until) × Quiet ip until cs
  Quiet ip until (reports now j ok ∷ cs) = ((j == ip) ≡ false) × Quiet ip until cs

  lookup-allow :
      (now : ℕ) (j ip : Bytes) (m : Map Bytes (IpState Limiter))
      → (j == ip) ≡ false
      → lookup ip (allow fresh take now j m).1 ≡ lookup ip m
  unfolding allow
  lookup-allow now j ip m other =
      let st = state_of fresh take j m in
      ground (
        arith,
        lookup-insert_ne j ip st m other,
        lookup-insert_ne j ip (record st { limiter = (take now st.limiter).1 }) m other,
      )

  lookup-report :
      (now : ℕ) (j ip : Bytes) (ok : Bool) (m : Map Bytes (IpState Limiter))
      → (j == ip) ≡ false
      → lookup ip (report fresh take now j ok m) ≡ lookup ip m
  unfolding report
  lookup-report now j ip ok m other = elim (Option-cases (lookup j m)) [
    | inl new ↦ rw (report, new) refl
    | inr (st, known) ↦ rw (report, known) (lookup-insert_ne j ip (report_state now ok st) m other)
  ]

  -- What is asked of a banned address changes nothing of its state.
  run_banned :
      (ip : Bytes) (until : ℕ) (cs : List Call) (m : Map Bytes (IpState Limiter))
      (st : IpState Limiter)
      → lookup ip m ≡ some st
      → st.ban_until ≡ pos until
      → Quiet ip until cs
      → lookup ip (run cs m) ≡ some st
  unfolding run
  run_banned ip until [] m st found ban q = found
  run_banned ip until (asks now j ∷ cs) m st found ban (soon, q) =
      run_banned ip until cs (allow fresh take now j m).1 st kept ban q
    where
      kept : lookup ip (allow fresh take now j m).1 ≡ some st
      kept = elim (Bool-cases (j == ip)) [
        | inr other ↦ lookup-allow now j ip m other ∙ found
        | inl own ↦
            let e = ==_eq j ip own in
            let refused = allow_banned now ip m st found (rw ban (omega (arith, soon))) in
            rw (e, refused) (lookup-insert_self ip st m)
      ]
  run_banned ip until (reports now j ok ∷ cs) m st found ban (other, q) =
      run_banned ip until cs (report fresh take now j ok m) st
        (lookup-report now j ip ok m other ∙ found) ban q

  -- A failed request of an address whose counter stands at 1 to 30 bans the address: until the ban
  -- has run its length every request of that address is refused, without spending a token of its
  -- bucket, whatever else is asked and reported in between but a request of the address that was
  -- let through before. The report leaves the state of any other address untouched.
  pub report_bans :
      (now later : ℕ) (ip j : Bytes) (cs : List Call) (m : Map Bytes (IpState Limiter))
      (st : IpState Limiter)
      → lookup ip m ≡ some st
      → 0 < st.fails
      → st.fails < 31
      → Quiet ip (now + wanted_ban (st.fails + 1)) cs
      → later < now + wanted_ban (st.fails + 1)
      → let m' = run cs (report fresh take now ip false m) in
        ((allow fresh take later ip m').0 ≡ false)
        × ((state_of fresh take ip (allow fresh take later ip m').1).limiter ≡ st.limiter)
        × (lookup j (report fresh take now ip false m)
            ≡ (if ip == j then some (report_state now false st) else lookup j m))
  report_bans now later ip j cs m st found low high quiet soon =
      let st' = report_state now false st in
      let m' = run cs (insert ip st' m) in
      let ban = banned_until now st low high in
      let kept =
        run_banned ip (now + wanted_ban (st.fails + 1)) cs (insert ip st' m) st'
          (lookup-insert_self ip st' m) ban quiet in
      let refused = allow_banned later ip m' st' kept (rw ban (omega arith)) in
      rw
        (
          report_found now ip false m st found,
          refused,
          state_found ip (insert ip st' m') st' (lookup-insert_self ip st' m'),
        )
        (refl, unfold report_state in ground arith, lookup-insert ip j st' m)

  -- The fault: the failure that takes the counter to 32 sets a ban that has ended before it began,
  -- since 2 ^ 31 times 5 seconds is negative as an int64. The next request of the address is
  -- let through whenever its bucket has a token.
  pub ban_wraps :
      (now later : ℕ) (ip : Bytes) (m : Map Bytes (IpState Limiter)) (st : IpState Limiter)
      → lookup ip m ≡ some st
      → st.fails ≡ 31
      → now ≤ later
      → (allow fresh take later ip (report fresh take now ip false m)).0 ≡ (take later st.limiter).0
  ban_wraps now later ip m st found at le =
      let st' = report_state now false st in
      let m' = insert ip st' m in
      rw (report_found now ip false m st found) (
        allow_free later ip m' st' (lookup-insert_self ip st' m) (over now later st at le)
        ∙ ap (λ l. (take later l).0) (unfold report_state in ground arith))

pow_55 : (n : ℕ) → 2 ^ (n + 55) ≡ 2 ^ n * 2 ^ 55
pow_55 zero = refl
pow_55 (suc n) = (simp (suc-add, pow-suc) (omega (arith, pow_55 n)))

shift : (n : ℕ) → 56 + n - 1 ≡ n + 55
shift n = omega arith

-- From the counter 56 on the product is a multiple of 2 ^ 64, and there is no ban at all.
pub backoff_vanishes : (n : ℕ) → backoff (56 + n) ≡ pos 0
unfolding backoff
backoff_vanishes n = ground (arith, pow_55 n, ap (λ k. 2 ^ k) (shift n))
