-- ===== src/Logging/Sample.antt =====
-- internal/logging/sample.go: lines of one message are let through a number of times in a window.
-- Times are nanoseconds since Go's zero time, at which the first pruning is due.
pub mod Bounds
use qoqtun.Prelude.{
  ℕ, suc, ◌-◌, ◌*◌, ◌%◌, Bool, true, false, ◌&&◌, not, Option, none, some, [], ◌==◌, nat_eq,
  if◌then◌else◌, Bytes, bytes_eq, leb, ltb,
}
use qoqtun.Prelude.Int.{ℤ, pos, pos_part, lez}
use qoqtun.Prelude.Maps.{Map, lookup, insert, retain}

pub record SampleState : Type 0 where
  pub first : ℕ
  pub count : ℕ

pub record Sampler : Type 0 where
  pub window : ℕ
  pub max : ℕ
  pub drop_every : ℕ
  pub seen : Map Bytes SampleState
  pub last_prune : ℕ

-- `SamplingHandler`: without a limit the handler is left as it is.
unfoldable pub sampling_handler : ℕ → ℤ → ℕ → Option Sampler
sampling_handler window max drop_every =
    if lez max (pos 0)
    then none
    else some (record {
      window = window;
      max = pos_part max;
      drop_every = drop_every;
      seen = [];
      last_prune = 0;
    })

-- `DefaultFloodGuard`
unfoldable pub default_flood_guard : Option Sampler
unfolding sampling_handler
default_flood_guard = sampling_handler (60 * 1000000000) (pos 5) 200

-- The entry is not older than the window.
unfoldable pub is_recent : ℕ → ℕ → Bytes → SampleState → Bool
is_recent window now k st = not (ltb window (now - st.first))

-- `prune`
unfoldable pub prune : ℕ → Sampler → Sampler
unfolding is_recent
prune now s =
    if ltb (now - s.last_prune) s.window
    then s
    else record s { seen = retain (is_recent s.window now) s.seen; last_prune = now }

-- What becomes of a record: it is passed on, a summary stands for it, or nothing.
pub data Line : Type 0 where
  passed dropped : Line
  summary : ℕ → Line

unfoldable pub counted : Bytes → ℕ → Sampler → SampleState
counted key now s = elim (lookup key s.seen) [
  | none ↦ record { first = now; count = 1 }
  | some st ↦ record st { count = suc st.count }
]

-- The line for the given number of records of the message.
unfoldable pub line_of : Sampler → ℕ → Line
line_of s count =
    if leb count s.max
    then passed
    else if ltb 0 s.drop_every && (count - s.max) % s.drop_every == 0
    then summary (count - s.max)
    else dropped

-- `Handle`
unfoldable pub handle : Bytes → ℕ → Sampler → Line × Sampler
unfolding prune counted line_of
handle key now s =
    let s' = prune now s in
    let st = counted key now s' in (line_of s' st.count, record s' { seen = insert key st s'.seen })
