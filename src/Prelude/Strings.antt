-- ===== src/Prelude/Strings.antt =====
-- The functions of Go's `strings`, `bytes`, `strconv` and `fmt` that the program calls, on bytes.
-- White space is Unicode's in UTF-8, and case as far as the result is ASCII.
use Prim.Native.Nat.{ℕ, zero, suc, ◌+◌, ◌-◌, ◌*◌, ◌/◌, ◌%◌, ◌^◌, ◌<◌}
use mathlib.Core.Path.{◌≡◌, refl, ap, ◌∙◌}
use mathlib.Core.Logic.{inl, inr}
use mathlib.Core.Bool.{Bool, true, false, ◌&&◌, ◌||◌}
use mathlib.Core.Option.{Option, none, some}
use mathlib.Core.List.{List, [], ◌∷◌}
use native.Mathlib.Omega.{arith}
use qoqtun.Prelude.Tests.{ltb, leb, if◌then◌else◌, ◌==◌, nat_eq, Bool-cases}
use qoqtun.Prelude.Lists.{length, drop}
use qoqtun.Prelude.Text.{Bytes, codes, bytes_eq, bytes_beq}
use qoqtun.Prelude.Int.{ℤ, pos, negsuc}

abbrev pub is_digit : ℕ → Bool
is_digit c = leb b'0' c && leb c b'9'

abbrev pub is_lower : ℕ → Bool
is_lower c = leb b'a' c && leb c b'z'

abbrev pub is_upper : ℕ → Bool
is_upper c = leb b'A' c && leb c b'Z'

abbrev pub is_space : ℕ → Bool
is_space c = (leb 9 c && leb c 13) || c == 32

unfoldable pub lower_byte : ℕ → ℕ
lower_byte c = if is_upper c then c + 32 else c

-- A byte before lowered text. U+212A and U+0130 are the only code points beyond ASCII whose lower
-- case is ASCII.
unfoldable pub lower_join : ℕ → Bytes → Bytes
unfolding lower_byte
lower_join c (d ∷ e ∷ s) =
    if c == 226 && d == 132 && e == 170
    then b'k' ∷ s
    else if c == 196 && d == 176
    then b'i' ∷ e ∷ s
    else lower_byte c ∷ d ∷ e ∷ s
lower_join c (d ∷ []) = if c == 196 && d == 176 then b'i' ∷ [] else lower_byte c ∷ d ∷ []
lower_join c [] = lower_byte c ∷ []

-- `strings.ToLower`; the case of code points whose lower case is not ASCII is left.
unfoldable pub to_lower : Bytes → Bytes
to_lower [] = []
to_lower (c ∷ s) = lower_join c (to_lower s)

-- A byte before folded text: U+212A folds to k and U+017F to s.
unfoldable pub fold_join : ℕ → Bytes → Bytes
unfolding lower_byte
fold_join c (d ∷ e ∷ s) =
    if c == 226 && d == 132 && e == 170
    then b'k' ∷ s
    else if c == 197 && d == 191
    then b's' ∷ e ∷ s
    else lower_byte c ∷ d ∷ e ∷ s
fold_join c (d ∷ []) = if c == 197 && d == 191 then b's' ∷ [] else lower_byte c ∷ d ∷ []
fold_join c [] = lower_byte c ∷ []

unfoldable pub fold : Bytes → Bytes
fold [] = []
fold (c ∷ s) = fold_join c (fold s)

-- `strings.EqualFold` with a text of ASCII in lower case.
unfoldable pub equal_fold : Bytes → Bytes → Bool
unfolding fold
equal_fold s key = fold s == key

-- `strings.Contains(s, c)` for a single byte.
unfoldable pub has_byte : ℕ → Bytes → Bool
has_byte b [] = false
has_byte b (c ∷ s) = c == b || has_byte b s

-- `s[:i], s[i+1:]` for i the first index of the byte.
unfoldable pub cut_first : ℕ → Bytes → Option (Bytes × Bytes)
cut_first b [] = none
cut_first b (c ∷ s) =
    if c == b
    then some ([], s)
    else elim (cut_first b s) [ none ↦ none | some (l, r) ↦ some (c ∷ l, r) ]

-- The same for the last index.
unfoldable pub cut_last : ℕ → Bytes → Option (Bytes × Bytes)
cut_last b [] = none
cut_last b (c ∷ s) = elim (cut_last b s) [
  | some (l, r) ↦ some (c ∷ l, r)
  | none ↦ (if c == b then some ([], s) else none)
]

-- `strings.Split(s, b)`: never empty.
unfoldable pub split : ℕ → Bytes → Bytes × List Bytes
split b [] = ([], [])
split b (c ∷ s) = let (p, ps) = split b s in if c == b then ([], p ∷ ps) else (c ∷ p, ps)

-- `strings.HasPrefix` and `strings.HasSuffix`
unfoldable pub has_prefix : Bytes → Bytes → Bool
has_prefix s [] = true
has_prefix [] (p ∷ ps) = false
has_prefix (c ∷ s) (p ∷ ps) = c == p && has_prefix s ps

unfoldable pub has_suffix : Bytes → Bytes → Bool
has_suffix s p = leb (length p) (length s) && bytes_beq (drop (length s - length p) s) p

-- `strings.TrimSuffix(s, b)` for a single byte.
unfoldable pub trim_suffix : ℕ → Bytes → Bytes
trim_suffix b [] = []
trim_suffix b (c ∷ []) = if c == b then [] else c ∷ []
trim_suffix b (c ∷ d ∷ s) = c ∷ trim_suffix b (d ∷ s)

-- The spaces beyond ASCII of two and of three bytes, in UTF-8.
abbrev pub is_space2 : ℕ → ℕ → Bool
is_space2 c d = c == 194 && (d == 133 || d == 160)

abbrev pub is_space3 : ℕ → ℕ → ℕ → Bool
is_space3 c d e =
    (c == 225 && d == 154 && e == 128)
    || (c == 226 && d == 128 && ((leb 128 e && leb e 138) || e == 168 || e == 169 || e == 175))
    || (c == 226 && d == 129 && e == 159)
    || (c == 227 && d == 128 && e == 128)

-- The bytes of the space that a text begins with: `unicode.IsSpace`.
unfoldable pub space_size : Bytes → ℕ
space_size [] = 0
space_size (c ∷ []) = if is_space c then 1 else 0
space_size (c ∷ d ∷ []) = if is_space c then 1 else if is_space2 c d then 2 else 0
space_size (c ∷ d ∷ e ∷ s) =
    if is_space c then 1 else if is_space2 c d then 2 else if is_space3 c d e then 3 else 0

-- `skip` bytes of a space are still to be dropped.
unfoldable pub trim_left_from : ℕ → Bytes → Bytes
trim_left_from skip [] = []
trim_left_from (suc skip) (c ∷ s) = trim_left_from skip s
trim_left_from zero (c ∷ s) = elim (space_size (c ∷ s)) [
  | zero ↦ c ∷ s
  | suc skip ↦ trim_left_from skip s
]

unfoldable pub trim_left : Bytes → Bytes
unfolding trim_left_from
trim_left s = trim_left_from 0 s

-- A byte before trimmed text: together they may be one space.
unfoldable pub trim_join : Bytes → Bytes
trim_join t = if space_size t == length t then [] else t

unfoldable pub trim_right : Bytes → Bytes
trim_right [] = []
trim_right (c ∷ s) = trim_join (c ∷ trim_right s)

-- `strings.TrimSpace`
unfoldable pub trim_space : Bytes → Bytes
unfolding trim_left trim_right
trim_space s = trim_right (trim_left s)

-- The digits of `strconv.Atoi`.
unfoldable pub digits_value : ℕ → Bytes → Option ℕ
digits_value n [] = some n
digits_value n (c ∷ s) =
    let rest = digits_value (n * 10 + (c - b'0')) s in if is_digit c then rest else none

unfoldable pub unsigned : Bytes → Option ℕ
unfolding digits_value
unsigned [] = none
unsigned (c ∷ s) = digits_value 0 (c ∷ s)

-- The sign is applied after the value is read; the result must fit an int64.
unfoldable pub with_sign : Bool → Option ℕ → Option ℤ
with_sign minus none = none
with_sign false (some n) = if ltb n (2 ^ 63) then some (pos n) else none
with_sign true (some zero) = some (pos 0)
with_sign true (some (suc n)) = if leb (suc n) (2 ^ 63) then some (negsuc n) else none

-- `strconv.Atoi`; `none` is any error.
unfoldable pub atoi : Bytes → Option ℤ
unfolding unsigned with_sign
atoi [] = none
atoi (c ∷ s) =
    if c == b'-'
    then with_sign true (unsigned s)
    else if c == b'+'
    then with_sign false (unsigned s)
    else with_sign false (unsigned (c ∷ s))

-- `%d` of a natural number, on fuel that is larger than the number.
unfoldable pub decimal_from : ℕ → ℕ → Bytes → Bytes
decimal_from zero n out = out
decimal_from (suc f) n out =
    let rest = decimal_from f (n / 10) ((b'0' + n % 10) ∷ out) in
    if ltb n 10 then (b'0' + n) ∷ out else rest

unfoldable pub decimal : ℕ → Bytes
unfolding decimal_from
decimal n = decimal_from (suc n) n []

digits_value-decimal_from :
    (f n : ℕ) (s : Bytes) → n < f → digits_value 0 (decimal_from f n s) ≡ digits_value n s
unfolding digits_value decimal_from
digits_value-decimal_from zero n s h = absurd (omega arith)
digits_value-decimal_from (suc f) n s h = elim (Bool-cases (ltb n 10)) [
  | inl small ↦ rw small (ground arith)
  | inr big ↦ rw big (
      digits_value-decimal_from f (n / 10) ((b'0' + n % 10) ∷ s) (ground arith)
      ∙ ground (arith, ap (λ k. digits_value k s) (divided n)))
]
  where
    divided : (k : ℕ) → k / 10 * 10 + (b'0' + k % 10 - b'0') ≡ k
    divided k = omega arith

pub digits_value-decimal : (n : ℕ) → digits_value 0 (decimal n) ≡ some n
unfolding decimal digits_value
digits_value-decimal n = digits_value-decimal_from (suc n) n [] (omega arith)

-- Two numbers are printed alike only if they are equal.
pub decimal-injective : (m n : ℕ) → decimal m ≡ decimal n → m ≡ n
decimal-injective m n e =
    ground (arith, digits_value-decimal m, digits_value-decimal n, ap (digits_value 0) e)

atoi_examples :
    (atoi (codes "-42") ≡ some (negsuc 41))
    × (atoi (codes "9223372036854775808") ≡ none)
    × (decimal 1207 ≡ codes "1207")
    × (trim_space (codes " a b ") ≡ codes "a b")
    × (cut_last b':' (codes "a:b:c") ≡ some (codes "a:b", codes "c"))
    × (has_suffix (codes "x.example") (codes ".example") ≡ true)
unfolding atoi decimal trim_space cut_last has_suffix bytes_beq space_size trim_join
atoi_examples = (refl, refl, refl, refl, refl, refl)
