-- ===== src/Protocol/Ranges/Parsed.antt =====
-- internal/protocol/validate.go: what a parsed port range is.
use qoqtun.Prelude.{
  ℕ, ◌≤◌, ◌<◌, ◌≡◌, refl, true, false, Option, none, some, [], ◌∷◌, ◌++◌, arith, nat_eq, Bytes,
  bytes_eq, length, Option-cases, inl, inr, ◌^◌,
}
use qoqtun.Prelude.Int.{ℤ, pos, int_eq, ◌≤ℤ◌}
use qoqtun.Prelude.Strings.{
  has_byte, cut_first, unsigned, with_sign, decimal, digits_value, digits_value-decimal,
}
use qoqtun.Prelude.Decimal.{
  all_digits, all_digits-decimal, length-decimal, has_byte-digits, cut_first-append,
}
use qoqtun.Protocol.Ranges.{
  skip_space, leading_digits, scan_number, scan_int, bad_range, check_range, scan_range,
  parse_port_range,
}

leading_digits-all : (s : Bytes) → all_digits s ≡ true → leading_digits s ≡ s
unfolding leading_digits all_digits
leading_digits-all [] h = refl
leading_digits-all (c ∷ s) h = ground (arith, leading_digits-all s)

scan_int-digits :
    (s : Bytes)
    → all_digits s ≡ true
    → 0 < length s
    → scan_int s ≡ with_sign false (digits_value 0 s)
unfolding scan_int scan_number skip_space unsigned all_digits
scan_int-digits [] h lt = ground arith
scan_int-digits (c ∷ s) h lt = ground (arith, leading_digits-all (c ∷ s))

pub scan_int-decimal : (n : ℕ) → n < 2 ^ 63 → scan_int (decimal n) ≡ some (pos n)
unfolding with_sign
scan_int-decimal n h =
    rw
      (
        scan_int-digits (decimal n) (all_digits-decimal n) (length-decimal n),
        digits_value-decimal n,
      )
      (ground arith)

scan_range_bounds :
    (a b : Option ℤ) (lo hi : ℤ)
    → scan_range a b ≡ some (lo, hi)
    → (pos 1 ≤ℤ lo) × (lo ≤ℤ hi) × (hi ≤ℤ pos 65535)
unfolding scan_range check_range bad_range
scan_range_bounds (some a) (some b) lo hi e = ground arith
scan_range_bounds (some a) none lo hi e = ground arith
scan_range_bounds none b lo hi e = ground arith

-- A range that is accepted lies within the ports, whatever text it was read from.
pub parse_port_range_bounds :
    (s : Bytes) (lo hi : ℤ)
    → parse_port_range s ≡ some (lo, hi)
    → (pos 1 ≤ℤ lo) × (lo ≤ℤ hi) × (hi ≤ℤ pos 65535)
unfolding parse_port_range
parse_port_range_bounds s lo hi e = elim (Option-cases (cut_first b'-' s)) [
  | inl whole ↦ ground (arith, scan_range_bounds (scan_int s) (scan_int s) lo hi)
  | inr ((l, r), parts) ↦ ground (arith, scan_range_bounds (scan_int l) (scan_int r) lo hi)
]

check_range-good :
    (lo hi : ℕ)
    → 1 ≤ lo
    → lo ≤ hi
    → hi ≤ 65535
    → check_range (pos lo) (pos hi) ≡ some (pos lo, pos hi)
unfolding check_range bad_range
check_range-good lo hi a b c = ground arith

no_dash : (n : ℕ) → has_byte b'-' (decimal n) ≡ false
no_dash n = has_byte-digits b'-' (decimal n) refl (all_digits-decimal n)

cut_first-none : (b : ℕ) (s : Bytes) → has_byte b s ≡ false → cut_first b s ≡ none
unfolding has_byte cut_first
cut_first-none b [] h = refl
cut_first-none b (c ∷ s) h = ground (arith, cut_first-none b s)

-- The text of a range of ports is read as that range, and the text of a port as the range of
-- that port alone.
pub parse_port_range-decimal :
    (lo hi : ℕ)
    → 1 ≤ lo
    → lo ≤ hi
    → hi ≤ 65535
    → (parse_port_range (decimal lo ++ b'-' ∷ decimal hi) ≡ some (pos lo, pos hi))
      × (parse_port_range (decimal lo) ≡ some (pos lo, pos lo))
unfolding parse_port_range scan_range
parse_port_range-decimal lo hi a b c = (
  rw
      (
        parse_port_range,
        cut_first-append b'-' (decimal lo) (decimal hi) (no_dash lo),
        scan_int-decimal lo (omega arith),
        scan_int-decimal hi (omega arith),
      )
      (check_range-good lo hi a b c),
  rw
      (
        parse_port_range,
        cut_first-none b'-' (decimal lo) (no_dash lo),
        scan_int-decimal lo (omega arith),
      )
      (check_range-good lo lo a (omega arith) (omega arith)),
)
