-- ===== src/Tunnel/Sniff.antt =====
-- internal/tunnel/http_sniff.go: reading the Host of a request. A connection is the list of bytes
-- that it still delivers and the way it ends.
pub mod Replay
use qoqtun.Prelude.{
  ℕ, zero, suc, ◌+◌, ◌||◌, Option, none, some, List, [], ◌∷◌, ◌++◌, if◌then◌else◌, ◌==◌, ltb, leb,
  nat_eq, Bytes, codes, bytes_eq, length, drop, ◌*◌, max,
}
use qoqtun.Prelude.Int.{ℤ, pos, pos_part, lez, int_eq}
use qoqtun.Prelude.Strings.{
  space_size, to_lower, equal_fold, cut_first, has_prefix, trim_suffix, trim_space,
}
use qoqtun.Tunnel.Host.{HostResult, normalize_host, no_host, bad_host}

pub data End : Type 0 where
  eof broken : End

pub record Stream : Type 0 where
  pub bytes : Bytes
  pub end : End

pub data SniffError : Type 0 where
  too_large no_usable_host invalid_host malformed closed read_failed out_of_fuel : SniffError

-- `MaxSniffBytes`
abbrev pub max_sniff_bytes : ℕ
max_sniff_bytes = 8 * 1024

-- A line with its newline, and what follows.
unfoldable pub cut_line : Bytes → Option (Bytes × Bytes)
cut_line [] = none
cut_line (c ∷ s) =
    if c == 10
    then some (c ∷ [], s)
    else elim (cut_line s) [ none ↦ none | some (l, r) ↦ some (c ∷ l, r) ]

pub data Sliced : Type 0 where
  line : Bytes → Bytes → Sliced
  full : Sliced
  ended : Sliced

-- `bufio.Reader.ReadSlice('\n')` with a buffer of `size` bytes.
unfoldable pub read_slice : ℕ → Bytes → Sliced
read_slice size s = elim (cut_line s) [
  | some (l, r) ↦ (if leb (length l) size then line l r else full)
  | none ↦ (if leb size (length s) then full else ended)
]

pub data Line : Type 0 where
  read : Bytes → Bytes → Bytes → Line
  failed : SniffError → Line

-- The buffer of `bufio.NewReaderSize(r, maxBytes+1)`, which has 16 bytes at least.
unfoldable pub buffer_size : ℕ → ℕ
buffer_size max_bytes = max (max_bytes + 1) 16

-- The end of the stream before a newline.
unfoldable pub end_error : Stream → SniffError
end_error s = elim s.end [
  | eof ↦ (if length s.bytes == 0 then closed else malformed)
  | broken ↦ read_failed
]

-- `readSniffLine`: the line without its terminator, the new prefix, and the rest.
unfoldable pub read_sniff_line : ℕ → Bytes → Stream → Line
unfolding end_error
read_sniff_line max_bytes prefix s = elim (read_slice (buffer_size max_bytes) s.bytes) [
  | full ↦ failed too_large
  | ended ↦ failed (end_error s)
  | line l r ↦
      (if ltb max_bytes (length prefix + length l)
        then failed too_large
        else read (trim_suffix 13 (trim_suffix 10 l)) (prefix ++ l) r)
]

-- `splitHeader`; `none` is the empty key of a malformed line.
unfoldable pub split_header : Bytes → Option (Bytes × Bytes)
split_header l = elim (cut_first b':' l) [
  | none ↦ none
  | some (key, value) ↦ (if length key == 0 then none else some (key, trim_space value))
]

unfoldable pub flush : Bytes → List Bytes → List Bytes
flush cur fields = if length cur == 0 then fields else cur ∷ fields

-- `bytes.Fields`, with the bytes of a space still to be skipped and the field so far.
unfoldable pub fields_from : ℕ → Bytes → Bytes → List Bytes
fields_from skip cur [] = if length cur == 0 then [] else cur ∷ []
fields_from (suc skip) cur (c ∷ s) = fields_from skip cur s
fields_from zero cur (c ∷ s) = elim (space_size (c ∷ s)) [
  | zero ↦ fields_from 0 (cur ++ c ∷ []) s
  | suc skip ↦ flush cur (fields_from skip [] s)
]

-- `rest[:i]` for the first of "/?#".
unfoldable pub authority : Bytes → Bytes
authority [] = []
authority (c ∷ s) = if c == b'/' || c == b'?' || c == b'#' then [] else c ∷ authority s

abbrev pub http_scheme : Bytes
http_scheme = codes "http://"

-- The second of at least three fields.
unfoldable pub request_target : List Bytes → Option Bytes
request_target (m ∷ target ∷ v ∷ more) = some target
request_target _ = none

-- `hostFromRequestLine`
unfoldable pub host_from_request_line : Bytes → Bytes
unfolding fields_from flush authority request_target
host_from_request_line l = elim (request_target (fields_from 0 [] l)) [
  | none ↦ []
  | some target ↦
      (if has_prefix (to_lower target) http_scheme then authority (drop 7 target) else [])
]

pub data Head : Type 0 where
  head : Bytes → Bytes → Bytes → Head
  bad : SniffError → Head

pub data Header : Type 0 where
  last : Header
  unusable : Header
  host_is : Bytes → Header
  other : Header

-- What the loop of `SniffHost` makes of one line.
unfoldable pub header_of : Bytes → Header
header_of [] = last
header_of (c ∷ l) = if c == 32 || c == 9 then unusable else elim (split_header (c ∷ l)) [
  | none ↦ unusable
  | some (key, value) ↦ (if equal_fold key (codes "host") then host_is value else other)
]

-- The loop over the headers, on fuel; each round takes at least a newline off the stream.
unfoldable pub read_headers : ℕ → ℕ → Bytes → Bytes → Stream → Head
read_headers zero max_bytes host prefix s = bad out_of_fuel
read_headers (suc fuel) max_bytes host prefix s = elim (read_sniff_line max_bytes prefix s) [
  | failed e ↦ bad e
  | read l prefix' r ↦ elim (header_of l) [
    | last ↦ head host prefix' r
    | unusable ↦ bad malformed
    | host_is value ↦ head value prefix' r
    | other ↦ read_headers fuel max_bytes host prefix' (record s { bytes = r })
  ]
]

pub data Sniffed : Type 0 where
  sniffed : Bytes → Bytes → Bytes → Sniffed
  rejected : SniffError → Sniffed

-- The end of `SniffHost`.
unfoldable pub finish : Head → Sniffed
finish (bad e) = rejected e
finish (head host prefix rest) =
    if length host == 0 then rejected no_usable_host else elim (normalize_host host) [
      | HostResult.ok norm ↦ sniffed norm prefix rest
      | HostResult.err no_host ↦ rejected no_usable_host
      | HostResult.err bad_host ↦ rejected invalid_host
    ]

unfoldable pub read_head : ℕ → Stream → Head
read_head max_bytes s = elim (read_sniff_line max_bytes [] s) [
  | failed e ↦ bad e
  | read l prefix r ↦
      read_headers (suc (length r)) max_bytes (host_from_request_line l) prefix
        (record s { bytes = r })
]

-- `SniffHost`: the routing key, the bytes consumed and the bytes left.
unfoldable pub sniff_host : Stream → ℤ → Sniffed
sniff_host s max_bytes =
    finish (read_head (if lez max_bytes (pos 0) then max_sniff_bytes else pos_part max_bytes) s)

-- `ReplayConn`: the prefix, then the rest.
unfoldable pub replay : Bytes → Bytes → Bytes
replay prefix rest = prefix ++ rest
