-- ===== src/Tunnel/UdpFrame.antt =====
-- internal/tunnel/udp_frame.go: datagrams on the UDP data channel, a length in four bytes, a
-- session id of sixteen, and the payload. A reader is the list of bytes still to come.
use qoqtun.Prelude.{
  ℕ, ◌+◌, ◌≤◌, ◌<◌, ◌≡◌, ◌||◌, not, Option, none, some, [], ◌∷◌, ◌++◌, arith, if◌then◌else◌, ◌==◌,
  ltb, leb, nat_eq, Bytes, bytes_eq, length, ap, ◌∙◌, drop, take, ◌*◌, ◌/◌, ◌%◌, ◌^◌, append_assoc,
  length-append, length-take, length-drop, take-length-append, drop-length-append,
}
use qoqtun.Prelude.Int.{int_eq}

-- `udpMaxPacket` and `sessionIDLen`
abbrev pub max_packet_bytes : ℕ
max_packet_bytes = 65507

abbrev pub id_len : ℕ
id_len = 16

-- `binary.BigEndian.PutUint32` and `Uint32`
unfoldable pub put_uint32 : ℕ → Bytes
put_uint32 n = (n / 2 ^ 24 % 256) ∷ (n / 2 ^ 16 % 256) ∷ (n / 2 ^ 8 % 256) ∷ (n % 256) ∷ []

unfoldable pub uint32 : Bytes → Option (ℕ × Bytes)
uint32 (a ∷ b ∷ c ∷ d ∷ s) = some (a * 2 ^ 24 + b * 2 ^ 16 + c * 2 ^ 8 + d, s)
uint32 _ = none

pub uint32-put_uint32 : (n : ℕ) (s : Bytes) → n < 2 ^ 32 → uint32 (put_uint32 n ++ s) ≡ some (n, s)
unfolding uint32 put_uint32
uint32-put_uint32 n s h = ground arith

pub data EncodeError : Type 0 where
  payload_too_large bad_id_length : EncodeError

pub data Encoded : Type 0 where
  ok : Bytes → Encoded
  err : EncodeError → Encoded

-- `udpFrame`
unfoldable pub udp_frame : Bytes → Bytes → Encoded
udp_frame id payload =
    if ltb max_packet_bytes (length payload)
    then err payload_too_large
    else if not (length id == id_len)
    then err bad_id_length
    else ok (put_uint32 ((id_len + length payload) % 2 ^ 32) ++ (id ++ payload))

-- `io.ReadFull` of n bytes: `none` is an early end of the stream.
unfoldable pub read_full : ℕ → Bytes → Option (Bytes × Bytes)
read_full n s = if leb n (length s) then some (take n s, drop n s) else none

pub read_full-append : (xs ys : Bytes) → read_full (length xs) (xs ++ ys) ≡ some (xs, ys)
unfolding read_full
read_full-append xs ys =
    ground (arith, length-append xs ys, take-length-append xs ys, drop-length-append xs ys)

pub data ReadError : Type 0 where
  short_read invalid_size : ReadError

pub data Received : Type 0 where
  got : Bytes → Bytes → Bytes → Received
  failed : ReadError → Received

-- The body, split after the session id.
unfoldable pub read_body : ℕ → Bytes → Received
read_body size s = elim (read_full size s) [
  | none ↦ failed short_read
  | some (body, rest) ↦ got (take id_len body) (drop id_len body) rest
]

-- `readUDPFrame`: session id, payload and the rest of the stream.
unfoldable pub read_udp_frame : Bytes → ℕ → Received
read_udp_frame s max_packet = elim (uint32 s) [
  | none ↦ failed short_read
  | some (size, rest) ↦
      (if ltb size id_len || ltb (id_len + max_packet) size
        then failed invalid_size
        else read_body size rest)
]

take-id : (id payload : Bytes) → length id ≡ id_len → take id_len (id ++ payload) ≡ id
take-id id payload h = rw (← h) (take-length-append id payload)

drop-id : (id payload : Bytes) → length id ≡ id_len → drop id_len (id ++ payload) ≡ payload
drop-id id payload h = rw (← h) (drop-length-append id payload)

read_body-append :
    (id payload rest : Bytes)
    → length id ≡ id_len
    → read_body (id_len + length payload) ((id ++ payload) ++ rest) ≡ got id payload rest
unfolding read_body
read_body-append id payload rest h =
    let size : length (id ++ payload) ≡ id_len + length payload =
      omega (arith, length-append id payload) in
    rw (← size, read_full-append (id ++ payload) rest, read_body)
      (ground (arith, take-id id payload h, drop-id id payload h))

udp_frame-eq-ok :
    (id payload frame : Bytes)
    → udp_frame id payload ≡ ok frame
    → (length id ≡ id_len)
      × (length payload ≤ max_packet_bytes)
      × (frame ≡ put_uint32 (id_len + length payload) ++ (id ++ payload))
unfolding udp_frame
udp_frame-eq-ok id payload frame e =
    let small : length payload ≤ max_packet_bytes = ground arith in
    let word : (id_len + length payload) % 2 ^ 32 ≡ id_len + length payload = omega arith in
    (ground arith, small, ground (arith, ap (λ n. put_uint32 n ++ (id ++ payload)) word))

-- What the sender frames the receiver reads back, and the next frame starts where this one ends,
-- as long as the receiver's cap admits the payload.
pub read-frame :
    (id payload frame rest : Bytes) (max_packet : ℕ)
    → udp_frame id payload ≡ ok frame
    → length payload ≤ max_packet
    → read_udp_frame (frame ++ rest) max_packet ≡ got id payload rest
unfolding read_udp_frame
read-frame id payload frame rest max_packet framed fits =
    let (sixteen, small, shape) = udp_frame-eq-ok id payload frame framed in
    let size = id_len + length payload in
    let header : uint32 (frame ++ rest) ≡ some (size, (id ++ payload) ++ rest) = rw shape (
      ap uint32 (append_assoc (put_uint32 size) (id ++ payload) rest)
      ∙ uint32-put_uint32 size ((id ++ payload) ++ rest) (omega arith)) in
    rw (header, read_udp_frame) (ground (arith, read_body-append id payload rest sixteen))

read_body_bounds :
    (size : ℕ) (s id payload rest : Bytes)
    → id_len ≤ size
    → read_body size s ≡ got id payload rest
    → (length id ≡ id_len) × (id_len + length payload ≡ size) × (size + length rest ≡ length s)
unfolding read_body read_full
read_body_bounds size s id payload rest le e = ground (
  arith,
  length-take size s,
  length-drop size s,
  length-take id_len (take size s),
  length-drop id_len (take size s),
)

-- Whatever the peer sends: a frame that is accepted has an id of sixteen bytes and a payload within
-- the cap, and takes exactly its own bytes off the stream.
pub read_udp_frame_bounds :
    (s id payload rest : Bytes) (max_packet : ℕ)
    → read_udp_frame s max_packet ≡ got id payload rest
    → (length id ≡ id_len)
      × (length payload ≤ max_packet)
      × (4 + id_len + length payload + length rest ≡ length s)
unfolding read_udp_frame uint32
read_udp_frame_bounds (a ∷ b ∷ c ∷ d ∷ s) id payload rest max_packet e =
    ground (arith, read_body_bounds (a * 2 ^ 24 + b * 2 ^ 16 + c * 2 ^ 8 + d) s id payload rest)
read_udp_frame_bounds s id payload rest max_packet e = ground arith
