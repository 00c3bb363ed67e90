-- ===== src/Tunnel/Host/Normal.antt =====
-- internal/tunnel/http_sniff.go: a normalized host is a fixed point of the normalization.
use qoqtun.Prelude.{
  ℕ, ◌≡◌, refl, Bool, true, false, ◌&&◌, ◌||◌, none, List, [], ◌∷◌, arith, ◌==◌, nat_eq, Bytes,
  bytes_eq, length, ap, Bool-cases, inl, inr,
}
use qoqtun.Prelude.Int.{int_eq}
use qoqtun.Prelude.Strings.{
  lower_join, to_lower, cut_last, split, trim_suffix, trim_space, space_size, trim_left_from,
  trim_join, trim_left, trim_right,
}
use qoqtun.Tunnel.Host.{
  ok, is_label_byte, all_bytes, valid_label, valid_labels, valid_hostname, strip_port, canonical,
  normalize_host,
}

abbrev is_host_byte : ℕ → Bool
is_host_byte c = is_label_byte c || c == b'.'

all_labels : (ℕ → Bool) → List Bytes → Bool
all_labels p [] = true
all_labels p (l ∷ ls) = all_bytes p l && all_labels p ls

valid_label-all : (l : Bytes) → valid_label l ≡ true → all_bytes is_label_byte l ≡ true
unfolding valid_label
valid_label-all l h = ground arith

valid_labels-all : (ls : List Bytes) → valid_labels ls ≡ true → all_labels is_label_byte ls ≡ true
unfolding valid_labels all_labels
valid_labels-all [] h = refl
valid_labels-all (l ∷ ls) h = ground (arith, valid_label-all l, valid_labels-all ls)

-- What holds of the bytes of every part and of the separator holds of the whole text.
split-all :
    (s : Bytes)
    → all_bytes is_label_byte (split b'.' s).0 ≡ true
    → all_labels is_label_byte (split b'.' s).1 ≡ true
    → all_bytes is_host_byte s ≡ true
unfolding split all_bytes all_labels
split-all [] h k = refl
split-all (c ∷ s) h k = ground (arith, split-all s)

valid-all : (h : Bytes) → valid_hostname h ≡ true → all_bytes is_host_byte h ≡ true
unfolding valid_hostname
valid-all h v =
    ground (arith, split-all h, valid_label-all (split b'.' h).0, valid_labels-all (split b'.' h).1)

-- The last part of a split.
last_part : Bytes → List Bytes → Bytes
last_part p [] = p
last_part p (q ∷ qs) = last_part q qs

last_valid :
    (p : Bytes) (ps : List Bytes)
    → valid_label p ≡ true
    → valid_labels ps ≡ true
    → (length (last_part p ps) == 0) ≡ false
unfolding last_part valid_labels valid_label
last_valid p [] h k = ground arith
last_valid p (q ∷ qs) h k = last_valid q qs (ground arith) (ground arith)

last_part_longer :
    (c d : ℕ) (p : Bytes) (ps : List Bytes)
    → (length (last_part (c ∷ d ∷ p) ps) == 0) ≡ false
    → (length (last_part (d ∷ p) ps) == 0) ≡ false
unfolding last_part
last_part_longer c d p [] h = ground arith
last_part_longer c d p (q ∷ qs) h = h

-- If the last part of a text is not empty, the text does not end in the separator.
last_split_tail :
    (b c d : ℕ) (s : Bytes)
    → (length (last_part (split b (c ∷ d ∷ s)).0 (split b (c ∷ d ∷ s)).1) == 0) ≡ false
    → (length (last_part (split b (d ∷ s)).0 (split b (d ∷ s)).1) == 0) ≡ false
unfolding split
last_split_tail b c d s h = elim (Bool-cases (d == b)) [
  | inl stop ↦ elim (Bool-cases (c == b)) [
    | inl e ↦ unfold last_part in rw stop (rw (e, stop) at h)
    | inr e ↦ unfold last_part in rw stop (rw (e, stop) at h)
  ]
  | inr more ↦ elim (Bool-cases (c == b)) [
    | inl e ↦ unfold last_part in rw more (rw (e, more) at h)
    | inr e ↦ rw more (last_part_longer c d (split b s).0 (split b s).1 (rw (e, more) at h))
  ]
]

trim_suffix-split :
    (b : ℕ) (s : Bytes)
    → (length (last_part (split b s).0 (split b s).1) == 0) ≡ false
    → trim_suffix b s ≡ s
unfolding trim_suffix
trim_suffix-split b [] h = refl
trim_suffix-split b (c ∷ []) h = unfold split last_part in ground arith
trim_suffix-split b (c ∷ d ∷ s) h =
    ap (◌∷◌ c) (trim_suffix-split b (d ∷ s) (last_split_tail b c d s h))

lower_join-ascii : (c : ℕ) (s : Bytes) → is_host_byte c ≡ true → lower_join c s ≡ c ∷ s
unfolding lower_join
lower_join-ascii c [] h = ground arith
lower_join-ascii c (d ∷ []) h = ground arith
lower_join-ascii c (d ∷ e ∷ s) h = ground arith

to_lower-all : (s : Bytes) → all_bytes is_host_byte s ≡ true → to_lower s ≡ s
unfolding to_lower all_bytes
to_lower-all [] h = refl
to_lower-all (c ∷ s) h = rw (to_lower-all s (ground arith)) (lower_join-ascii c s (ground arith))

space_size-host : (c : ℕ) (s : Bytes) → is_host_byte c ≡ true → space_size (c ∷ s) ≡ 0
unfolding space_size
space_size-host c [] h = ground arith
space_size-host c (d ∷ []) h = ground arith
space_size-host c (d ∷ e ∷ s) h = ground arith

trim_left-all : (s : Bytes) → all_bytes is_host_byte s ≡ true → trim_left s ≡ s
unfolding trim_left trim_left_from all_bytes
trim_left-all [] h = refl
trim_left-all (c ∷ s) h = rw (trim_left_from, space_size-host c s (ground arith)) refl

trim_right-all : (s : Bytes) → all_bytes is_host_byte s ≡ true → trim_right s ≡ s
unfolding trim_right trim_join all_bytes
trim_right-all [] h = refl
trim_right-all (c ∷ s) h =
    rw (trim_right-all s (ground arith), space_size-host c s (ground arith)) (ground arith)

cut_last-all : (s : Bytes) → all_bytes is_host_byte s ≡ true → cut_last b':' s ≡ none
unfolding cut_last all_bytes
cut_last-all [] h = refl
cut_last-all (c ∷ s) h = ground (arith, cut_last-all s)

strip_port-all : (s : Bytes) → all_bytes is_host_byte s ≡ true → strip_port s ≡ s
unfolding strip_port
strip_port-all s h = ground (arith, cut_last-all s)

trim_space-all : (s : Bytes) → all_bytes is_host_byte s ≡ true → trim_space s ≡ s
unfolding trim_space
trim_space-all s h = rw (trim_left-all s h) (trim_right-all s h)

trim_suffix-valid : (s : Bytes) → valid_hostname s ≡ true → trim_suffix b'.' s ≡ s
unfolding valid_hostname
trim_suffix-valid s v =
    trim_suffix-split b'.' s
      (last_valid (split b'.' s).0 (split b'.' s).1 (ground arith) (ground arith))

canonical-valid : (s : Bytes) → valid_hostname s ≡ true → canonical s ≡ s
unfolding canonical
canonical-valid s v =
    let a = valid-all s v in rw (strip_port-all s a, to_lower-all s a) (trim_suffix-valid s v)

normalize-valid : (h n : Bytes) → normalize_host h ≡ ok n → valid_hostname n ≡ true
unfolding normalize_host
normalize-valid h n e = ground arith

-- A host that the normalization returns is a valid host name, and it is left as it is by a further
-- normalization: registration and request meet in one routing key.
pub normalize_idem :
    (h n : Bytes) → normalize_host h ≡ ok n → (valid_hostname n ≡ true) × (normalize_host n ≡ ok n)
normalize_idem h n e =
    let v = normalize-valid h n e in
    (
      v,
      unfold normalize_host in
          rw (trim_space-all n (valid-all n v), canonical-valid n v, v)
            (ground (arith, nonempty n v)),
    )
  where
    nonempty : (s : Bytes) → valid_hostname s ≡ true → (length s == 0) ≡ false
    nonempty s w = unfold valid_hostname in ground arith
