-- ===== src/Tunnel/Host.antt =====
-- internal/tunnel/http_sniff.go: host names, as routing keys.
pub mod Normal
use qoqtun.Prelude.{
  ℕ, zero, suc, ◌≡◌, refl, Bool, true, false, ◌&&◌, ◌||◌, not, none, some, List, [], ◌∷◌,
  if◌then◌else◌, ◌==◌, leb, nat_eq, Bytes, codes, bytes_eq, length, is_some,
}
use qoqtun.Prelude.Int.{int_eq}
use qoqtun.Prelude.Strings.{
  is_digit, is_lower, to_lower, cut_last, split, trim_suffix, trim_space, atoi,
}

pub data HostError : Type 0 where
  no_host bad_host : HostError

pub data HostResult : Type 0 where
  ok : Bytes → HostResult
  err : HostError → HostResult

-- The bytes of a label: a-z, 0-9 and '-'.
abbrev pub is_label_byte : ℕ → Bool
is_label_byte c = is_lower c || is_digit c || c == b'-'

unfoldable pub all_bytes : (ℕ → Bool) → Bytes → Bool
all_bytes p [] = true
all_bytes p (c ∷ s) = p c && all_bytes p s

-- Neither the first nor the last byte is '-'.
unfoldable pub last_is : ℕ → Bytes → Bool
last_is b [] = false
last_is b (c ∷ []) = c == b
last_is b (c ∷ d ∷ s) = last_is b (d ∷ s)

unfoldable pub first_is : ℕ → Bytes → Bool
first_is b [] = false
first_is b (c ∷ s) = c == b

unfoldable pub valid_label : Bytes → Bool
valid_label l =
    not (length l == 0)
    && leb (length l) 63
    && not (first_is b'-' l)
    && not (last_is b'-' l)
    && all_bytes is_label_byte l

unfoldable pub valid_labels : List Bytes → Bool
valid_labels [] = true
valid_labels (l ∷ ls) = valid_label l && valid_labels ls

-- `validHostname`
unfoldable pub valid_hostname : Bytes → Bool
valid_hostname h =
    not (length h == 0)
    && leb (length h) 253
    && valid_label (split b'.' h).0
    && valid_labels (split b'.' h).1

-- A numeric port is cut off.
unfoldable pub strip_port : Bytes → Bytes
strip_port h = elim (cut_last b':' h) [
  | none ↦ h
  | some (l, r) ↦ (if is_some (atoi r) then l else h)
]

-- Lower case, without one trailing dot.
unfoldable pub canonical : Bytes → Bytes
canonical h = trim_suffix b'.' (to_lower (strip_port h))

-- `normalizeHost`
unfoldable pub normalize_host : Bytes → HostResult
normalize_host h =
    if length (trim_space h) == 0
    then err no_host
    else if valid_hostname (canonical (trim_space h))
    then ok (canonical (trim_space h))
    else err bad_host

normalize_examples :
    (normalize_host (codes " Blog.Example.COM:8080 ") ≡ ok (codes "blog.example.com"))
    × (normalize_host (codes "example.com.") ≡ ok (codes "example.com"))
    × (normalize_host (codes "[::1]:80") ≡ err bad_host)
    × (normalize_host (codes "  ") ≡ err no_host)
    × (normalize_host (codes "a..b") ≡ err bad_host)
    × (normalize_host (226 ∷ 132 ∷ 170 ∷ codes ".com") ≡ ok (codes "k.com"))
unfolding normalize_host trim_space canonical strip_port cut_last atoi to_lower trim_suffix
    valid_hostname split valid_label valid_labels first_is last_is all_bytes
    qoqtun.Prelude.Strings.space_size qoqtun.Prelude.Strings.trim_join
    qoqtun.Prelude.Strings.lower_join
normalize_examples = (refl, refl, refl, refl, refl, refl)
