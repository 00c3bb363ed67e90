-- ===== src/Prelude/Trim.antt =====
-- Text without white space, which trimming leaves as it is.
use qoqtun.Prelude.Tests.{leb, ◌==◌, nat_eq, Bool-cases}
use qoqtun.Prelude.Text.{Bytes}
use qoqtun.Prelude.Int.{ℤ}
use qoqtun.Prelude.Strings.{
  space_size, trim_left_from, trim_join, trim_left, trim_right, trim_space, digits_value, unsigned,
  with_sign, atoi, cut_first,
}
use Prim.Native.Nat.{ℕ, ◌+◌, ◌-◌, ◌*◌}
use mathlib.Core.Path.{◌≡◌, refl}
use mathlib.Core.Logic.{inl, inr}
use mathlib.Core.Bool.{Bool, true, false, ◌&&◌}
use mathlib.Core.Option.{Option, none, some}
use mathlib.Core.List.{[], ◌∷◌}
use native.Mathlib.Omega.{arith}

-- A printing character of ASCII other than the space.
abbrev pub is_solid : ℕ → Bool
is_solid c = leb 33 c && leb c 126

abbrev pub all_solid : Bytes → Bool
all_solid [] = true
all_solid (c ∷ s) = is_solid c && all_solid s

space_size-solid : (c : ℕ) (s : Bytes) → is_solid c ≡ true → space_size (c ∷ s) ≡ 0
unfolding space_size
space_size-solid c [] h = ground arith
space_size-solid c (d ∷ []) h = ground arith
space_size-solid c (d ∷ e ∷ s) h = ground arith

trim_left-solid : (s : Bytes) → all_solid s ≡ true → trim_left s ≡ s
unfolding trim_left trim_left_from
trim_left-solid [] h = refl
trim_left-solid (c ∷ s) h = rw (trim_left_from, space_size-solid c s (ground arith)) refl

trim_right-solid : (s : Bytes) → all_solid s ≡ true → trim_right s ≡ s
unfolding trim_right trim_join
trim_right-solid [] h = refl
trim_right-solid (c ∷ s) h =
    rw (trim_right-solid s (ground arith), space_size-solid c s (ground arith)) (ground arith)

pub trim_space-solid : (s : Bytes) → all_solid s ≡ true → trim_space s ≡ s
unfolding trim_space
trim_space-solid s h = rw (trim_left-solid s h) (trim_right-solid s h)

digits_value-solid : (n m : ℕ) (s : Bytes) → digits_value n s ≡ some m → all_solid s ≡ true
unfolding digits_value
digits_value-solid n m [] h = refl
digits_value-solid n m (c ∷ s) h = ground (arith, digits_value-solid (n * 10 + (c - b'0')) m s)

unsigned-solid : (s : Bytes) (m : ℕ) → unsigned s ≡ some m → all_solid s ≡ true
unfolding unsigned
unsigned-solid [] m h = refl
unsigned-solid (c ∷ s) m h = digits_value-solid 0 m (c ∷ s) h

with_sign-solid :
    (minus : Bool) (s : Bytes) (o : Option ℕ) (n : ℤ)
    → unsigned s ≡ o
    → with_sign minus o ≡ some n
    → all_solid s ≡ true
unfolding with_sign
with_sign-solid minus s none n u h = ground arith
with_sign-solid minus s (some m) n u h = unsigned-solid s m u

-- What reads as a number has no white space.
pub atoi-solid : (s : Bytes) (n : ℤ) → atoi s ≡ some n → all_solid s ≡ true
unfolding atoi
atoi-solid [] n h = refl
atoi-solid (c ∷ s) n h = elim (Bool-cases (c == b'-')) [
  | inl minus ↦
      let tail = with_sign-solid true s (unsigned s) n refl (ground arith) in ground (arith, tail)
  | inr e ↦ elim (Bool-cases (c == b'+')) [
    | inl plus ↦
        let tail = with_sign-solid false s (unsigned s) n refl (ground arith) in
        ground (arith, tail)
    | inr f ↦ with_sign-solid false (c ∷ s) (unsigned (c ∷ s)) n refl (ground arith)
  ]
]

pub cut_first-solid :
    (b : ℕ) (s l r : Bytes)
    → is_solid b ≡ true
    → cut_first b s ≡ some (l, r)
    → all_solid l ≡ true
    → all_solid r ≡ true
    → all_solid s ≡ true
unfolding cut_first
cut_first-solid b [] l r sb h hl hr = refl
cut_first-solid b (c ∷ s) l r sb h hl hr = elim (Bool-cases (c == b)) [
  | inl stop ↦ let e : some ([], s) ≡ some (l, r) = rw stop at h in ground (arith, e)
  | inr more ↦
      by_rest (cut_first b s) refl (rw more at h) (λ l' r' e. cut_first-solid b s l' r' sb e)
]
  where
    by_rest :
        (o : Option (Bytes × Bytes))
        → cut_first b s ≡ o
        → (elim o as (λ x. Option (Bytes × Bytes)) [
          | none ↦ none
          | some (l', r') ↦ some (c ∷ l', r')
        ])
          ≡ some (l, r)
        → ((l' r' : Bytes)
            → cut_first b s ≡ some (l', r')
            → all_solid l' ≡ true
            → all_solid r' ≡ true
            → all_solid s ≡ true)
        → all_solid (c ∷ s) ≡ true
    by_rest none e k ih = ground arith
    by_rest (some (l', r')) e k ih = ground (arith, ih l' r' e)
