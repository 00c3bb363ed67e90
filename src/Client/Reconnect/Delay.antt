-- ===== src/Client/Reconnect/Delay.antt =====
-- internal/clientcore/manager.go: the delay before a reconnection.
use qoqtun.Prelude.{
  ℕ, zero, suc, ◌≤◌, ◌<◌, ◌≡◌, refl, Bool, arith, ltb, nat_eq, bytes_eq, Bool-cases, inl, inr, ◌*◌,
  ◌^◌, min, ◌⊎◌,
}
use qoqtun.Prelude.Int.{ℤ, pos, int_eq, ◌≤ℤ◌}
use qoqtun.Client.Reconnect.{BackoffConfig, double64, cap, grow, base_for, clamp, backoff_for}

-- Whatever the jitter, the delay is at most the maximum, and at least a millisecond if the maximum
-- is.
pub backoff_for_bounds :
    (c : BackoffConfig) (attempt : ℕ) (down : Bool) (delta : ℤ)
    → (backoff_for c attempt down delta ≤ℤ c.max)
      × ((backoff_for c attempt down delta ≡ c.max)
          ⊎ (pos 1000000 ≤ℤ backoff_for c attempt down delta))
unfolding backoff_for clamp cap
backoff_for_bounds c attempt down delta = ground arith

double64-small : (a : ℕ) → a < 2 ^ 62 → double64 (pos a) ≡ pos (a * 2)
unfolding double64
double64-small a h = ground arith

grow-at : (n b : ℕ) → grow n (pos b) (pos b) ≡ pos b
unfolding grow
grow-at zero b = refl
grow-at (suc n) b = ground arith

shift : (a n : ℕ) → a * 2 * 2 ^ n ≡ a * 2 ^ suc n
shift a n = grind arith

le_shift : (n a : ℕ) → a ≤ a * 2 ^ n
le_shift zero a = omega arith
le_shift (suc n) a = ground (arith, le_shift n (a * 2), shift a n)

grow-doubles : (n a b : ℕ) → a ≤ b → b < 2 ^ 62 → grow n (pos b) (pos a) ≡ pos (min (a * 2 ^ n) b)
unfolding grow cap
grow-doubles zero a b le small = ground arith
grow-doubles (suc n) a b le small = elim (Bool-cases (ltb a b)) [
  | inr last ↦ ground (arith, le_shift (suc n) a)
  | inl more ↦ elim (Bool-cases (ltb b (a * 2))) [
    | inl over ↦
        ground (arith, double64-small a (ground arith), grow-at n b, le_shift n (a * 2), shift a n)
    | inr under ↦ ground (
      arith,
      double64-small a (ground arith),
      grow-doubles n (a * 2) b (ground arith) small,
      shift a n,
    )
  ]
]

-- Before the jitter the delay of attempt n is the initial one doubled n - 1 times, or the maximum
-- where that is less, for a positive initial delay and a maximum below 2^62 nanoseconds.
pub base_for-doubles :
    (initial limit n : ℕ)
    → initial ≤ limit
    → limit < 2 ^ 62
    → base_for (record { initial = pos initial; max = pos limit }) (suc n)
      ≡ pos (min (initial * 2 ^ n) limit)
unfolding base_for cap
base_for-doubles initial limit n le small = ground (arith, grow-doubles n initial limit le small)
