-- ===== src/Metrics/Rate.antt =====
-- internal/metrics/rate.go: the bytes of each of the last 60 seconds. The clock counts seconds.
use qoqtun.Prelude.{
  ℕ, zero, suc, ◌+◌, ◌-◌, ◌%◌, List, [], ◌∷◌, ◌==◌, nat_eq, ltb, if◌then◌else◌, length,
}
use qoqtun.Prelude.Int.{ℤ, pos, ◌+ℤ◌}

pub record RateWindow : Type 0 where
  pub buckets : List ℤ
  pub last_idx : ℕ
  pub last_ts : ℕ

unfoldable pub zeros : ℕ → List ℤ
zeros zero = []
zeros (suc n) = pos 0 ∷ zeros n

unfoldable pub new_rate_window : RateWindow
unfolding zeros
new_rate_window = record { buckets = zeros 60; last_idx = 0; last_ts = 0 }

unfoldable pub set : List ℤ → ℕ → ℤ → List ℤ
set [] i v = []
set (x ∷ xs) zero v = v ∷ xs
set (x ∷ xs) (suc i) v = x ∷ set xs i v

unfoldable pub get_or : ℤ → List ℤ → ℕ → ℤ
get_or d [] i = d
get_or d (x ∷ xs) zero = x
get_or d (x ∷ xs) (suc i) = get_or d xs i

-- The body of the loop of `advance`.
unfoldable pub tick : RateWindow → RateWindow
tick w =
    let i = (w.last_idx + 1) % length w.buckets in
    record { buckets = set w.buckets i (pos 0); last_idx = i; last_ts = w.last_ts + 1 }

-- The loop runs for the seconds that went by.
unfoldable pub ticks : ℕ → RateWindow → RateWindow
ticks zero w = w
ticks (suc n) w = ticks n (tick w)

-- `advance`
unfoldable pub advance : ℕ → RateWindow → RateWindow
advance ts w =
    if w.last_ts == 0 then record w { last_ts = ts; last_idx = 0 } else ticks (ts - w.last_ts) w

-- `Add`
unfoldable pub add : ℤ → ℕ → RateWindow → RateWindow
add n now w =
    let w' = advance now w in
    record w' { buckets = set w'.buckets w'.last_idx (get_or (pos 0) w'.buckets w'.last_idx +ℤ n) }

unfoldable pub sum : List ℤ → ℤ
sum [] = pos 0
sum (x ∷ xs) = x +ℤ sum xs

-- `Rate`: the bytes of the last second and, before the division by 60, of the window.
unfoldable pub rate : ℕ → RateWindow → ℤ × ℤ × RateWindow
rate now w =
    let w' = if ltb w.last_ts now then advance now w else w in
    (get_or (pos 0) w'.buckets w'.last_idx, sum w'.buckets, w')
