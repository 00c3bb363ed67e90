-- ===== src/Config/Validate/Parts.antt =====
-- internal/config/validate.go: a sequence of checks finds nothing exactly if no check does.
use qoqtun.Prelude.{Bool, true, false, ◌||◌, Option, none, some}
use qoqtun.Prelude.Int.{ℤ, ltz}
use qoqtun.Config.Rules.{Invalid, refuse_if, ◌also◌, check_range}
use mathlib.Core.Path.{◌≡◌, refl}
use native.Mathlib.Omega.{arith}

pub also-first : (p q : Option Invalid) → (p also q) ≡ none → p ≡ none
unfolding ◌also◌
also-first none q h = refl
also-first (some e) q h = h

pub also-then : (p q : Option Invalid) → (p also q) ≡ none → q ≡ none
unfolding ◌also◌
also-then none q h = h
also-then (some e) q h = ground arith

pub refuse_if-none : (b : Bool) (e : Invalid) → refuse_if b e ≡ none → b ≡ false
unfolding refuse_if
refuse_if-none true e h = ground arith
refuse_if-none false e h = refl

pub check_range-none :
    (v lo hi : ℤ) (e : Invalid) → check_range v lo hi e ≡ none → (ltz v lo || ltz hi v) ≡ false
unfolding check_range
check_range-none v lo hi e h = refuse_if-none (ltz v lo || ltz hi v) e h
