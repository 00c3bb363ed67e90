-- ===== src/Prelude/Decimal.antt =====
-- Decimal numbers and separators: what a text of digits parts into.
use Prim.Native.Nat.{ℕ, zero, suc, ◌+◌, ◌/◌, ◌%◌, ◌^◌, ◌<◌, ◌≤◌}
use mathlib.Core.Path.{◌≡◌, refl}
use mathlib.Core.Bool.{Bool, true, false, ◌&&◌, ◌||◌}
use mathlib.Core.Option.{none, some}
use mathlib.Core.List.{[], ◌∷◌, ◌++◌}
use native.Mathlib.Omega.{arith}
use qoqtun.Prelude.Tests.{nat_eq}
use qoqtun.Prelude.Lists.{length}
use qoqtun.Prelude.Text.{Bytes, bytes_eq}
use qoqtun.Prelude.Int.{pos}
use qoqtun.Prelude.Strings.{
  is_digit, has_byte, cut_first, cut_last, digits_value, unsigned, with_sign, atoi, decimal,
  decimal_from, digits_value-decimal,
}

unfoldable pub all_digits : Bytes → Bool
all_digits [] = true
all_digits (c ∷ s) = is_digit c && all_digits s

all_digits-decimal_from :
    (f n : ℕ) (s : Bytes) → all_digits s ≡ true → all_digits (decimal_from f n s) ≡ true
unfolding decimal_from all_digits
all_digits-decimal_from zero n s h = h
all_digits-decimal_from (suc f) n s h =
    ground (arith, all_digits-decimal_from f (n / 10) ((b'0' + n % 10) ∷ s))

pub all_digits-decimal : (n : ℕ) → all_digits (decimal n) ≡ true
unfolding decimal all_digits
all_digits-decimal n = all_digits-decimal_from (suc n) n [] refl

-- A text of digits has no byte that is not a digit.
pub has_byte-digits :
    (b : ℕ) (s : Bytes) → is_digit b ≡ false → all_digits s ≡ true → has_byte b s ≡ false
unfolding has_byte all_digits
has_byte-digits b [] d h = refl
has_byte-digits b (c ∷ s) d h = ground (arith, has_byte-digits b s d)

pub has_byte-append : (b : ℕ) (s t : Bytes) → has_byte b (s ++ t) ≡ (has_byte b s || has_byte b t)
unfolding has_byte
has_byte-append b [] t = refl
has_byte-append b (c ∷ s) t = ground (arith, has_byte-append b s t)

pub cut_first-append :
    (b : ℕ) (l r : Bytes) → has_byte b l ≡ false → cut_first b (l ++ b ∷ r) ≡ some (l, r)
unfolding has_byte cut_first
cut_first-append b [] r h = ground arith
cut_first-append b (c ∷ l) r h = ground (arith, cut_first-append b l r)

cut_last-none : (b : ℕ) (s : Bytes) → has_byte b s ≡ false → cut_last b s ≡ none
unfolding has_byte cut_last
cut_last-none b [] h = refl
cut_last-none b (c ∷ s) h = ground (arith, cut_last-none b s)

pub cut_last-append :
    (b : ℕ) (l r : Bytes) → has_byte b r ≡ false → cut_last b (l ++ b ∷ r) ≡ some (l, r)
unfolding cut_last
cut_last-append b [] r h = ground (arith, cut_last-none b r)
cut_last-append b (c ∷ l) r h = ground (arith, cut_last-append b l r)

decimal_from-length :
    (f n : ℕ) (s : Bytes)
    → (length s ≤ length (decimal_from f n s)) × (length s < length (decimal_from (suc f) n s))
unfolding decimal_from
decimal_from-length zero n s = ground arith
decimal_from-length (suc f) n s =
    ground (arith, decimal_from-length f (n / 10) ((b'0' + n % 10) ∷ s))

pub length-decimal : (n : ℕ) → 0 < length (decimal n)
unfolding decimal
length-decimal n = (decimal_from-length n n []).1

-- A text that starts with a digit has no sign.
atoi-unsigned :
    (t : Bytes) → all_digits t ≡ true → 0 < length t → atoi t ≡ with_sign false (digits_value 0 t)
unfolding atoi unsigned all_digits
atoi-unsigned [] d h = ground arith
atoi-unsigned (c ∷ s) d h = ground arith

pub atoi-decimal : (n : ℕ) → n < 2 ^ 63 → atoi (decimal n) ≡ some (pos n)
unfolding with_sign
atoi-decimal n h =
    rw (atoi-unsigned (decimal n) (all_digits-decimal n) (length-decimal n), digits_value-decimal n)
      (ground arith)
