-- ===== src/Protocol/Ranges.antt =====
-- internal/protocol/validate.go: port ranges and targets.
pub mod Parsed
use qoqtun.Prelude.{
  zero, suc, Bool, true, false, ◌&&◌, ◌||◌, not, Option, none, some, [], ◌∷◌, if◌then◌else◌, ◌==◌,
  nat_eq, Bytes, codes, bytes_eq, length, is_some,
}
use qoqtun.Prelude.Int.{ℤ, pos, ltz, int_eq}
use qoqtun.Prelude.Strings.{is_digit, is_space, cut_first, cut_last, unsigned, with_sign}
use qoqtun.Net.{Net}

-- The white space that `fmt.Sscanf` skips before a verb; a newline is an error.
unfoldable pub skip_space : Bytes → Option Bytes
skip_space [] = some []
skip_space (c ∷ s) =
    let rest = skip_space s in if c == 10 then none else if is_space c then rest else some (c ∷ s)

unfoldable pub leading_digits : Bytes → Bytes
leading_digits [] = []
leading_digits (c ∷ s) = let rest = leading_digits s in if is_digit c then c ∷ rest else []

unfoldable pub scan_number : Bytes → Option ℤ
scan_number [] = none
scan_number (c ∷ s) =
    if c == b'-'
    then with_sign true (unsigned (leading_digits s))
    else if c == b'+'
    then with_sign false (unsigned (leading_digits s))
    else with_sign false (unsigned (leading_digits (c ∷ s)))

-- `fmt.Sscanf(s, "%d", &n)`, which leaves what follows the number.
unfoldable pub scan_int : Bytes → Option ℤ
scan_int s = elim (skip_space s) [ none ↦ none | some t ↦ scan_number t ]

-- The last test of `parsePortRange`.
unfoldable pub bad_range : ℤ → ℤ → Bool
bad_range lo hi = ltz lo (pos 1) || ltz (pos 65535) hi || ltz hi lo

unfoldable pub check_range : ℤ → ℤ → Option (ℤ × ℤ)
check_range lo hi = if bad_range lo hi then none else some (lo, hi)

unfoldable pub scan_range : Option ℤ → Option ℤ → Option (ℤ × ℤ)
scan_range (some lo) (some hi) = check_range lo hi
scan_range _ _ = none

-- `parsePortRange`
unfoldable pub parse_port_range : Bytes → Option (ℤ × ℤ)
parse_port_range s = elim (cut_first b'-' s) [
  | some (l, r) ↦ scan_range (scan_int l) (scan_int r)
  | none ↦ scan_range (scan_int s) (scan_int s)
]

abbrev pub any_port : Bytes
any_port = codes "*"

-- `validTarget`
unfoldable pub valid_target : Net → Bytes → Bool
valid_target net t = elim (cut_last b':' t) [
  | none ↦ false
  | some (cidr, port_spec) ↦
      not (length cidr == 0)
      && not (length port_spec == 0)
      && is_some (net.parse_cidr cidr)
      && (port_spec == any_port || is_some (parse_port_range port_spec))
]
