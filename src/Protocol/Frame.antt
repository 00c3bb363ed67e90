-- ===== src/Protocol/Frame.antt =====
-- internal/protocol/protocol.go: frames of a length in four bytes and a JSON envelope. JSON itself
-- is a pair of functions that the section takes.
pub mod Stream
use qoqtun.Prelude.{
  ℕ, zero, suc, ◌+◌, Bool, ◌||◌, not, Option, none, some, ◌++◌, if◌then◌else◌, ◌==◌, ltb, nat_eq,
  Bytes, bytes_eq, length, take, ◌*◌, ◌%◌, ◌^◌,
}
use qoqtun.Prelude.Int.{ℤ, pos, int_eq}
use qoqtun.Tunnel.UdpFrame.{put_uint32, uint32, read_full}

-- `MaxFrameSize` and `ProtocolVersion`
abbrev pub max_frame_size : ℕ
max_frame_size = 64 * 1024

abbrev pub protocol_version : ℤ
protocol_version = pos 1

pub record Envelope : Type 0 where
  pub version : ℤ
  pub kind : Bytes
  pub seq : ℕ
  pub nonce : Bytes
  pub ts : ℤ
  pub payload : Option Bytes

pub data EncodeError : Type 0 where
  bad_payload no_nonce bad_envelope frame_too_large : EncodeError

pub data Encoded : Type 0 where
  frame : Bytes → Encoded
  refused : EncodeError → Encoded

pub data DecodeError : Type 0 where
  too_short invalid_size length_mismatch bad_json missing_type read_failed : DecodeError

pub data Decoded : Type 0 where
  envelope : Envelope → Decoded
  failed : DecodeError → Decoded

pub data ReadFrame : Type 0 where
  received : Envelope → Bytes → ReadFrame
  broken : DecodeError → ReadFrame

-- `size == 0 || size > MaxFrameSize`
unfoldable pub bad_size : ℕ → Bool
bad_size size = size == 0 || ltb max_frame_size size

unfoldable pub deliver : Decoded → Bytes → ReadFrame
deliver (envelope env) rest = received env rest
deliver (failed e) rest = broken e

-- The end of `Encode`, from the marshalled envelope.
unfoldable pub frame_of : Option Bytes → Encoded
frame_of none = refused bad_envelope
frame_of (some body) =
    if ltb max_frame_size (length body)
    then refused frame_too_large
    else frame (put_uint32 (length body % 2 ^ 32) ++ body)

-- The envelope that `Encode` builds; the payload is absent or marshalled.
unfoldable pub envelope_of : Bytes → ℕ → Option Bytes → Bytes → ℤ → Envelope
envelope_of kind seq raw nonce now = record {
  version = protocol_version;
  kind = kind;
  seq = seq;
  nonce = nonce;
  ts = now;
  payload = raw;
}

-- What marshalling the payload gave.
pub data Payload : Type 0 where
  no_payload unmarshallable : Payload
  raw_json : Bytes → Payload

-- The field of the envelope.
unfoldable pub raw_of : Payload → Option Bytes
raw_of (raw_json raw) = some raw
raw_of p = none

module _ (marshal : Envelope → Option Bytes) where
  -- `Encode`; the nonce and the time are what the system gave.
  unfoldable pub encode : Bytes → ℕ → Payload → Option Bytes → ℤ → Encoded
  encode kind seq unmarshallable random now = refused bad_payload
  encode kind seq no_payload none now = refused no_nonce
  encode kind seq (raw_json raw) none now = refused no_nonce
  encode kind seq no_payload (some nonce) now =
      frame_of (marshal (envelope_of kind seq none nonce now))
  encode kind seq (raw_json raw) (some nonce) now =
      frame_of (marshal (envelope_of kind seq (some raw) nonce now))

module _ (unmarshal : Bytes → Option Envelope) where
  -- The end of `Decode`, from the body.
  unfoldable pub decode_body : Bytes → Decoded
  decode_body body = elim (unmarshal body) [
    | none ↦ failed bad_json
    | some env ↦ (if length env.kind == 0 then failed missing_type else envelope env)
  ]

  -- `Decode`
  unfoldable pub decode : Bytes → Decoded
  decode f = elim (uint32 f) [
    | none ↦ failed too_short
    | some (size, body) ↦
        (if bad_size size
          then failed invalid_size
          else if not (length f == size + 4)
          then failed length_mismatch
          else decode_body body)
  ]

  -- `ReadFrame` after the header.
  unfoldable pub read_frame_body : Bytes → ℕ → Bytes → ReadFrame
  read_frame_body hdr size s = elim (read_full size s) [
    | none ↦ broken read_failed
    | some (body, rest) ↦ deliver (decode (hdr ++ body)) rest
  ]

  -- `ReadFrame`: the envelope and the rest of the stream.
  unfoldable pub read_frame : Bytes → ReadFrame
  read_frame s = elim (uint32 s) [
    | none ↦ broken read_failed
    | some (size, rest) ↦
        (if bad_size size then broken invalid_size else read_frame_body (take 4 s) size rest)
  ]
