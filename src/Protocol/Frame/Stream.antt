-- ===== src/Protocol/Frame/Stream.antt =====
-- internal/protocol/protocol.go: a stream of frames.
use qoqtun.Prelude.{
  ℕ, ◌+◌, ◌≤◌, ◌<◌, ◌≡◌, refl, false, Option, none, some, [], ◌∷◌, ◌++◌, arith, nat_eq, Bytes,
  bytes_eq, length, ap, ◌∙◌, take, ◌*◌, ◌%◌, ◌^◌, append_assoc, length-drop,
}
use qoqtun.Prelude.Int.{ℤ, int_eq}
use qoqtun.Tunnel.UdpFrame.{put_uint32, uint32, read_full, read_full-append, uint32-put_uint32}
use qoqtun.Protocol.Frame.{
  max_frame_size, Envelope, frame, received, frame_of, encode, envelope_of, raw_json, no_payload,
  unmarshallable, Payload, raw_of, decode_body, bad_size, decode, deliver, read_frame_body,
  read_frame,
}

frame_of-frame :
    (body f : Bytes)
    → frame_of (some body) ≡ frame f
    → (length body ≤ max_frame_size) × (f ≡ put_uint32 (length body) ++ body)
unfolding frame_of
frame_of-frame body f e =
    let small : length body ≤ max_frame_size = ground arith in
    let word : length body % 2 ^ 32 ≡ length body = omega arith in
    (small, ground (arith, ap (λ n. put_uint32 n ++ body) word))

length-put_uint32 : (n : ℕ) (s : Bytes) → length (put_uint32 n ++ s) ≡ 4 + length s
unfolding put_uint32
length-put_uint32 n s = ground arith

take-put_uint32 : (n : ℕ) (s : Bytes) → take 4 (put_uint32 n ++ s) ≡ put_uint32 n
unfolding put_uint32
take-put_uint32 n s = refl

module _ (unmarshal : Bytes → Option Envelope) where
  decode-body :
      (body : Bytes)
      → 0 < length body
      → length body ≤ max_frame_size
      → decode unmarshal (put_uint32 (length body) ++ body) ≡ decode_body unmarshal body
  unfolding decode bad_size
  decode-body body nonempty small =
      rw
        (
          decode,
          uint32-put_uint32 (length body) body (omega arith),
          length-put_uint32 (length body) body,
        )
        (ground arith)

  read_frame-head :
      (s hdr rest : Bytes) (n : ℕ)
      → uint32 s ≡ some (n, rest)
      → take 4 s ≡ hdr
      → bad_size n ≡ false
      → read_frame unmarshal s ≡ read_frame_body unmarshal hdr n rest
  unfolding read_frame
  read_frame-head s hdr rest n h t good = ground arith

  -- What is read at the start of a stream is what the body parses as.
  read_frame-body :
      (body rest : Bytes)
      → 0 < length body
      → length body ≤ max_frame_size
      → read_frame unmarshal (put_uint32 (length body) ++ (body ++ rest))
        ≡ deliver (decode_body unmarshal body) rest
  unfolding read_frame read_frame_body bad_size
  read_frame-body body rest nonempty small =
      read_frame-head (put_uint32 (length body) ++ (body ++ rest)) (put_uint32 (length body))
        (body ++ rest) (length body) (uint32-put_uint32 (length body) (body ++ rest) (omega arith))
        (take-put_uint32 (length body) (body ++ rest)) (ground arith)
      ∙ rw (read_frame_body, read_full-append body rest, decode-body body nonempty small) refl

  framed :
      (b : Option Bytes) (f rest : Bytes)
      → ((body : Bytes) → b ≡ some body → 0 < length body)
      → frame_of b ≡ frame f
      → (body : Bytes) × (b ≡ some body)
        × (read_frame unmarshal (f ++ rest) ≡ deliver (decode_body unmarshal body) rest)
  unfolding frame_of
  framed none f rest json e = ground (arith, e)
  framed (some body) f rest json e =
      let (small, shape) = frame_of-frame body f e in
      (
        body,
        refl,
        rw shape (
            ap (read_frame unmarshal) (append_assoc (put_uint32 (length body)) body rest)
            ∙ read_frame-body body rest (json body refl) small),
      )

  -- Whatever payload is encoded: a frame that the encoder made carries the JSON of the envelope that
  -- was built, and is read back as what that JSON parses as; the next frame starts where it ends, if
  -- the JSON of an envelope is never empty.
  pub read_frame-encode :
      (marshal : Envelope → Option Bytes) (kind : Bytes) (seq : ℕ) (p : Payload)
      (random : Option Bytes) (now : ℤ) (f rest : Bytes)
      → ((env : Envelope) (body : Bytes) → marshal env ≡ some body → 0 < length body)
      → encode marshal kind seq p random now ≡ frame f
      → (nonce : Bytes) × (body : Bytes) × (random ≡ some nonce)
        × (marshal (envelope_of kind seq (raw_of p) nonce now) ≡ some body)
        × (read_frame unmarshal (f ++ rest) ≡ deliver (decode_body unmarshal body) rest)
  unfolding encode raw_of
  read_frame-encode marshal kind seq unmarshallable random now f rest json e = ground (arith, e)
  read_frame-encode marshal kind seq no_payload none now f rest json e = ground (arith, e)
  read_frame-encode marshal kind seq (raw_json raw) none now f rest json e = ground (arith, e)
  read_frame-encode marshal kind seq no_payload (some nonce) now f rest json e =
      let (body, made, back) =
        framed (marshal (envelope_of kind seq none nonce now)) f rest (json _) e in
      (nonce, body, refl, made, back)
  read_frame-encode marshal kind seq (raw_json raw) (some nonce) now f rest json e =
      let (body, made, back) =
        framed (marshal (envelope_of kind seq (some raw) nonce now)) f rest (json _) e in
      (nonce, body, refl, made, back)

  body_bounds :
      (a b c d : ℕ) (size : ℕ) (s : Bytes) (env : Envelope) (rest : Bytes)
      → read_frame_body unmarshal (a ∷ b ∷ c ∷ d ∷ []) size s ≡ received env rest
      → size + length rest ≡ length s
  unfolding read_frame_body read_full deliver
  body_bounds a b c d size s env rest e = ground (arith, length-drop size s)

  -- Whatever the peer sends: an envelope that is read had a body of one byte at least and the limit
  -- at most, and exactly the body and the four bytes of its length are taken off the stream.
  pub read_frame_bounds :
      (s : Bytes) (env : Envelope) (rest : Bytes)
      → read_frame unmarshal s ≡ received env rest
      → (size : ℕ) × (0 < size) × (size ≤ max_frame_size) × (4 + size + length rest ≡ length s)
  unfolding read_frame uint32 bad_size
  read_frame_bounds (a ∷ b ∷ c ∷ d ∷ s) env rest e =
      let size = a * 2 ^ 24 + b * 2 ^ 16 + c * 2 ^ 8 + d in
      (
        size,
        ground (arith, body_bounds a b c d size s env rest),
        ground (arith, body_bounds a b c d size s env rest),
        ground (arith, body_bounds a b c d size s env rest),
      )
  read_frame_bounds s env rest e = ground arith
