-- ===== src/Enroll/RateLimit.antt =====
-- internal/enroll/ratelimit.go: the limiter of the enrollment endpoint per source IP. Times are
-- nanoseconds since Go's zero time; a duration is an int64, so its arithmetic wraps. The token
-- bucket of golang.org/x/time/rate is a parameter.
pub mod Bans
use qoqtun.Prelude.{
  ℕ, zero, suc, ◌+◌, ◌-◌, ◌*◌, ◌%◌, ◌^◌, Bool, true, false, none, some, if◌then◌else◌, ltb, Bytes,
  bytes_eq, nat_eq,
}
use qoqtun.Prelude.Int.{ℤ, pos, ltz, ◌+ℤ◌, signed64}
use qoqtun.Prelude.Maps.{Map, lookup, insert}

pub record IpState (Limiter : Type 0) : Type 0 where
  pub limiter : Limiter
  pub fails : ℕ
  pub ban_until : ℤ

abbrev pub second : ℕ
second = 1000000000

abbrev pub day : ℕ
day = 86400 * second

-- `time.Duration(1<<(fails-1)) * 5 * time.Second`: each step wraps.
unfoldable pub backoff_raw : ℕ → ℤ
backoff_raw fails = signed64 ((2 ^ (fails - 1) % 2 ^ 64) * 5 % 2 ^ 64 * second % 2 ^ 64)

unfoldable pub backoff : ℕ → ℤ
unfolding backoff_raw
backoff fails = if ltz (pos day) (backoff_raw fails) then pos day else backoff_raw fails

-- What `Report` does to the state of one address.
unfoldable pub report_state : {Limiter : Type 0} → ℕ → Bool → IpState Limiter → IpState Limiter
report_state now true st = record st { fails = 0 }
report_state now false st =
    if ltb (st.fails + 1) 2
    then record st { fails = st.fails + 1 }
    else record st { fails = st.fails + 1; ban_until = pos now +ℤ backoff (st.fails + 1) }

module _ {Limiter : Type 0} (fresh : Limiter) (take : ℕ → Limiter → Bool × Limiter) where
  unfoldable pub state_of : Bytes → Map Bytes (IpState Limiter) → IpState Limiter
  state_of ip m = elim (lookup ip m) [
    | none ↦ record { limiter = fresh; fails = 0; ban_until = pos 0 }
    | some st ↦ st
  ]

  -- `Allow`.
  unfoldable pub allow :
      ℕ → Bytes → Map Bytes (IpState Limiter) → Bool × Map Bytes (IpState Limiter)
  allow now ip m =
      let st = state_of ip m in
      let l = take now st.limiter in
      if ltz (pos now) st.ban_until
      then (false, insert ip st m)
      else (l.0, insert ip (record st { limiter = l.1 }) m)

  -- `Report`.
  unfoldable pub report :
      ℕ → Bytes → Bool → Map Bytes (IpState Limiter) → Map Bytes (IpState Limiter)
  report now ip ok m = elim (lookup ip m) [
    | none ↦ m
    | some st ↦ insert ip (report_state now ok st) m
  ]
