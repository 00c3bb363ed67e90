-- ===== src/Tunnel/Sniff/Replay.antt =====
-- internal/tunnel/http_sniff.go: nothing of a sniffed request is lost or changed.
use qoqtun.Prelude.{
  ℕ, zero, suc, ◌≤◌, ◌<◌, ◌≡◌, refl, true, some, [], ◌∷◌, ◌++◌, arith, if◌then◌else◌, nat_eq, Bytes,
  bytes_eq, length, ◌≢◌, Option-cases, inl, inr, append_assoc, length-append,
}
use qoqtun.Prelude.Int.{ℤ, pos, pos_part, lez, int_eq}
use qoqtun.Tunnel.Host.{HostResult, normalize_host, no_host, bad_host, valid_hostname}
use qoqtun.Tunnel.Host.Normal.{normalize_idem}
use qoqtun.Tunnel.Sniff.{
  Stream, out_of_fuel, max_sniff_bytes, cut_line, read_slice, Line, read, failed, end_error,
  read_sniff_line, Head, head, bad, Header, last, unusable, host_is, other, header_of, read_headers,
  sniffed, rejected, finish, read_head, sniff_host, replay, host_from_request_line,
}

cut_line-append : (s l r : Bytes) → cut_line s ≡ some (l, r) → (l ++ r ≡ s) × (length r < length s)
unfolding cut_line
cut_line-append [] l r e = ground arith
cut_line-append (c ∷ s) l r e = elim (Option-cases (cut_line s)) [
  | inl miss ↦ ground arith
  | inr ((l', r'), hit) ↦ ground (arith, cut_line-append s l' r' hit)
]

-- A line read moves bytes from the stream to the prefix, within the limit.
read_sniff_line-append :
    (m : ℕ) (prefix l prefix' r : Bytes) (s : Stream)
    → read_sniff_line m prefix s ≡ read l prefix' r
    → (prefix' ++ r ≡ prefix ++ s.bytes) × (length prefix' ≤ m) × (length r < length s.bytes)
unfolding read_sniff_line read_slice
read_sniff_line-append m prefix l prefix' r s e = elim (Option-cases (cut_line s.bytes)) [
  | inl miss ↦ ground arith
  | inr ((l', r'), hit) ↦
      ground (
        arith,
        cut_line-append s.bytes l' r' hit,
        append_assoc prefix l' r',
        length-append prefix l',
      )
]

unfoldable header_in : Line → Header
header_in (failed f) = last
header_in (read l p rest) = header_of l

-- A round of the loop, given what the rest of the loop does.
read_round-append :
    (fuel m : ℕ) (host prefix : Bytes) (s : Stream) (host' prefix' r : Bytes)
    → ((p rest : Bytes)
        → read_headers fuel m host p (record s { bytes = rest }) ≡ head host' prefix' r
        → (prefix' ++ r ≡ p ++ rest) × (length prefix' ≤ m))
    → read_headers (suc fuel) m host prefix s ≡ head host' prefix' r
    → (x : Line) → read_sniff_line m prefix s ≡ x
    → (k : Header) → header_in x ≡ k
    → (prefix' ++ r ≡ prefix ++ s.bytes) × (length prefix' ≤ m)
unfolding read_headers header_in
read_round-append fuel m host prefix s host' prefix' r more e (failed f) q k h = ground arith
read_round-append fuel m host prefix s host' prefix' r more e (read l p rest) q last h =
    ground (arith, read_sniff_line-append m prefix l p rest s q)
read_round-append fuel m host prefix s host' prefix' r more e (read l p rest) q unusable h =
    ground arith
read_round-append fuel m host prefix s host' prefix' r more e (read l p rest) q (host_is v) h =
    ground (arith, read_sniff_line-append m prefix l p rest s q)
read_round-append fuel m host prefix s host' prefix' r more e (read l p rest) q other h =
    ground (arith, read_sniff_line-append m prefix l p rest s q, more p rest)

-- The head that the loop returns: nothing lost, within the limit.
read_headers-append :
    (fuel m : ℕ) (host prefix : Bytes) (s : Stream) (host' prefix' r : Bytes)
    → read_headers fuel m host prefix s ≡ head host' prefix' r
    → (prefix' ++ r ≡ prefix ++ s.bytes) × (length prefix' ≤ m)
unfolding read_headers
read_headers-append zero m host prefix s host' prefix' r e = ground arith
read_headers-append (suc fuel) m host prefix s host' prefix' r e =
    let x = read_sniff_line m prefix s in
    read_round-append fuel m host prefix s host' prefix' r
      (λ (p rest : Bytes).
        read_headers-append fuel m host p (record s { bytes = rest }) host' prefix' r)
      e x refl (header_in x) refl

-- Reading a line takes no fuel.
read_sniff_line-fuel :
    (m : ℕ) (prefix : Bytes) (s : Stream) → read_sniff_line m prefix s ≢ failed out_of_fuel
unfolding read_sniff_line read_slice end_error
read_sniff_line-fuel m prefix s = elim (Option-cases (cut_line s.bytes)) [
  | inl miss ↦ ground arith
  | inr ((l', r'), hit) ↦ ground arith
]

-- A round of the loop does not run out of fuel when the rest does not.
read_round-fuel :
    (fuel m : ℕ) (host prefix : Bytes) (s : Stream)
    → ((p rest : Bytes)
        → length rest < fuel
        → read_headers fuel m host p (record s { bytes = rest }) ≢ bad out_of_fuel)
    → length s.bytes < suc fuel
    → (x : Line) → read_sniff_line m prefix s ≡ x
    → (k : Header) → header_in x ≡ k
    → read_headers (suc fuel) m host prefix s ≢ bad out_of_fuel
unfolding read_headers header_in
read_round-fuel fuel m host prefix s more lt (failed f) q k h =
    ground (arith, read_sniff_line-fuel m prefix s)
read_round-fuel fuel m host prefix s more lt (read l p rest) q last h = ground arith
read_round-fuel fuel m host prefix s more lt (read l p rest) q unusable h = ground arith
read_round-fuel fuel m host prefix s more lt (read l p rest) q (host_is v) h = ground arith
read_round-fuel fuel m host prefix s more lt (read l p rest) q other h =
    ground (arith, read_sniff_line-append m prefix l p rest s q, more p rest)

read_headers-fuel :
    (fuel m : ℕ) (host prefix : Bytes) (s : Stream)
    → length s.bytes < fuel
    → read_headers fuel m host prefix s ≢ bad out_of_fuel
unfolding read_headers
read_headers-fuel zero m host prefix s lt = ground arith
read_headers-fuel (suc fuel) m host prefix s lt =
    let x = read_sniff_line m prefix s in
    read_round-fuel fuel m host prefix s
      (λ (p rest : Bytes). read_headers-fuel fuel m host p (record s { bytes = rest })) lt x refl
      (header_in x) refl

-- The bytes the limit of `SniffHost` allows.
unfoldable pub sniff_limit : ℤ → ℕ
sniff_limit m = if lez m (pos 0) then max_sniff_bytes else pos_part m

-- The whole head, request line included.
read_head-append :
    (m : ℕ) (s : Stream) (host prefix r : Bytes)
    → read_head m s ≡ head host prefix r
    → (prefix ++ r ≡ s.bytes) × (length prefix ≤ m)
unfolding read_head
read_head-append m s host prefix r e = by_line (read_sniff_line m [] s) refl
  where
    by_line :
        (x : Line) → read_sniff_line m [] s ≡ x → (prefix ++ r ≡ s.bytes) × (length prefix ≤ m)
    by_line (failed f) q = ground arith
    by_line (read l p rest) q = ground (
      arith,
      read_sniff_line-append m [] l p rest s q,
      read_headers-append (suc (length rest)) m (host_from_request_line l) p
          (record s { bytes = rest }) host prefix r,
    )

read_head-fuel : (m : ℕ) (s : Stream) → read_head m s ≢ bad out_of_fuel
unfolding read_head
read_head-fuel m s = by_line (read_sniff_line m [] s) refl
  where
    by_line : (x : Line) → read_sniff_line m [] s ≡ x → read_head m s ≢ bad out_of_fuel
    by_line (failed f) q = ground (arith, read_sniff_line-fuel m [] s)
    by_line (read l p rest) q = ground (
      arith,
      read_headers-fuel (suc (length rest)) m (host_from_request_line l) p
          (record s { bytes = rest }),
    )

finish-sniffed :
    (h : Head) (norm prefix rest : Bytes)
    → finish h ≡ sniffed norm prefix rest
    → (host : Bytes) × (h ≡ head host prefix rest) × (normalize_host host ≡ HostResult.ok norm)
unfolding finish
finish-sniffed (bad e) norm prefix rest q = ground arith
finish-sniffed (head host p r) norm prefix rest q = by_result (normalize_host host) refl
  where
    by_result :
        (x : HostResult)
        → normalize_host host ≡ x
        → (host' : Bytes) × (head host p r ≡ head host' prefix rest)
          × (normalize_host host' ≡ HostResult.ok norm)
    by_result (HostResult.ok n) w = (host, ground arith, ground arith)
    by_result (HostResult.err no_host) w = ground arith
    by_result (HostResult.err bad_host) w = ground arith

finish-fuel : (h : Head) → h ≢ bad out_of_fuel → finish h ≢ rejected out_of_fuel
unfolding finish
finish-fuel (bad e) ne = ground arith
finish-fuel (head host p r) ne = by_result (normalize_host host) refl
  where
    by_result :
        (x : HostResult) → normalize_host host ≡ x → finish (head host p r) ≢ rejected out_of_fuel
    by_result (HostResult.ok n) w = ground arith
    by_result (HostResult.err no_host) w = ground arith
    by_result (HostResult.err bad_host) w = ground arith

-- When sniffing returns a routing key, the bytes it consumed and the bytes left are together the
-- whole stream, the consumed part is within the limit, and the key is a valid host name that a
-- further normalization leaves as it is.
pub sniff_replay :
    (s : Stream) (max_bytes : ℤ) (norm prefix rest : Bytes)
    → sniff_host s max_bytes ≡ sniffed norm prefix rest
    → (replay prefix rest ≡ s.bytes)
      × (length prefix ≤ sniff_limit max_bytes)
      × (valid_hostname norm ≡ true)
      × (normalize_host norm ≡ HostResult.ok norm)
unfolding sniff_host replay sniff_limit
sniff_replay s m norm prefix rest e =
    let limit = sniff_limit m in
    let (host, h, n) = finish-sniffed (read_head limit s) norm prefix rest e in
    let (kept, fits) = read_head-append limit s host prefix rest h in
    let (valid, same) = normalize_idem host norm n in (kept, fits, valid, same)

-- The fuel of the header loop, the bytes left and one, is enough for every stream.
pub sniff_ends : (s : Stream) (max_bytes : ℤ) → sniff_host s max_bytes ≢ rejected out_of_fuel
unfolding sniff_host sniff_limit
sniff_ends s m = finish-fuel (read_head (sniff_limit m) s) (read_head-fuel (sniff_limit m) s)
