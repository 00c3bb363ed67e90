-- ===== src/Examples/Messages.antt =====
-- internal/protocol and internal/tunnel/acl.go: runs of the validation, the access list and the
-- framing, on a package net that knows two networks.
use qoqtun.Protocol.Frame.{raw_of, deliver, decode_body}
use qoqtun.Prelude.{
  ℕ, ◌+◌, ◌≤◌, ◌<◌, ◌≡◌, refl, Bool, true, false, ◌&&◌, Option, none, some, List, [], ◌∷◌, ◌++◌,
  arith, if◌then◌else◌, ◌==◌, nat_eq, Bytes, codes, bytes_eq, length, bytes_beq, bytes_beq_iff,
}
use qoqtun.Prelude.Int.{pos, int_eq, int_beq}
use qoqtun.Net.{Net}
use qoqtun.Protocol.Frame.{
  Envelope, frame, encode, envelope_of, raw_json, read_frame, received, max_frame_size,
}
use qoqtun.Protocol.Frame.Stream.{read_frame-encode, read_frame_bounds}
use qoqtun.Tunnel.Acl.{targets_allow}
use qoqtun.Tunnel.Acl.Decided.{all_parse, some_allows, targets_allow_decided}

-- The network ten, of which every address is a part.
abbrev small_net : Net
small_net = record {
  Ip = ℕ;
  Network = ℕ;
  parse_ip = λ s. if s == codes "10.1.1.1" then some 1 else none;
  ip_string = λ ip. codes "10.1.1.1";
  is_v4 = λ ip. true;
  parse_cidr = λ s. if s == codes "10.0.0.0/8" then some 10 else none;
  contains = λ n ip. true;
  is_unspecified = λ ip. false;
  is_multicast = λ ip. false;
  is_link_local_unicast = λ ip. false;
  is_link_local_multicast = λ ip. false;
}

abbrev entries : List Bytes
entries = codes "10.0.0.0/8:*" ∷ []

targets_allow_decided_example :
    targets_allow small_net entries 1 (pos 80)
    ≡ (all_parse small_net entries && some_allows small_net entries 1 (pos 80))
targets_allow_decided_example = targets_allow_decided small_net entries 1 (pos 80)

-- A JSON of one byte, for the one envelope of this run.
abbrev the_envelope : Envelope
the_envelope = envelope_of (codes "ping") 7 (some (codes "{}")) (codes "n") (pos 1)

abbrev unmarshal : Bytes → Option Envelope
unmarshal b = if b == codes "j" then some the_envelope else none

abbrev is_payload : Option Bytes → Bool
is_payload none = false
is_payload (some p) = p == codes "{}"

-- No other envelope is written.
unfoldable marshal : Envelope → Option Bytes
marshal e =
    if e.version == pos 1
      && e.kind == codes "ping"
      && e.seq == 7
      && e.nonce == codes "n"
      && e.ts == pos 1
      && is_payload e.payload
    then some (codes "j")
    else none

is_payload_lem : (p : Option Bytes) → is_payload p ≡ true → p ≡ some (codes "{}")
is_payload_lem none h = ground arith
is_payload_lem (some p) h = ground (arith, bytes_beq_iff p (codes "{}"))

written : (e : Envelope) (body : Bytes) → marshal e ≡ some body → 0 < length body
unfolding marshal
written e body h = ground arith

encoded :
    encode marshal (codes "ping") 7 (raw_json (codes "{}")) (some (codes "n")) (pos 1)
    ≡ frame (0 ∷ 0 ∷ 0 ∷ 1 ∷ codes "j")
unfolding encode qoqtun.Protocol.Frame.frame_of marshal int_beq envelope_of bytes_beq
    qoqtun.Tunnel.UdpFrame.put_uint32
encoded = refl

read_frame-encode_example :
    (nonce : Bytes) × (body : Bytes) × (some (codes "n") ≡ some nonce)
    × (marshal (envelope_of (codes "ping") 7 (raw_of (raw_json (codes "{}"))) nonce (pos 1))
        ≡ some body)
    × (read_frame unmarshal ((0 ∷ 0 ∷ 0 ∷ 1 ∷ codes "j") ++ codes "rest")
        ≡ deliver (decode_body unmarshal body) (codes "rest"))
read_frame-encode_example =
    read_frame-encode unmarshal marshal (codes "ping") 7 (raw_json (codes "{}")) (some (codes "n"))
      (pos 1) (0 ∷ 0 ∷ 0 ∷ 1 ∷ codes "j") (codes "rest") written encoded

reads : read_frame unmarshal (0 ∷ 0 ∷ 0 ∷ 1 ∷ codes "jrest") ≡ received the_envelope (codes "rest")
unfolding read_frame qoqtun.Tunnel.UdpFrame.uint32 qoqtun.Protocol.Frame.bad_size
    qoqtun.Protocol.Frame.read_frame_body qoqtun.Tunnel.UdpFrame.read_full
    qoqtun.Protocol.Frame.deliver qoqtun.Protocol.Frame.decode qoqtun.Protocol.Frame.decode_body
    bytes_beq envelope_of
reads = refl

read_frame_bounds_example :
    (size : ℕ) × (0 < size)
    × (size ≤ max_frame_size)
    × (4 + size + length (codes "rest") ≡ length (0 ∷ 0 ∷ 0 ∷ 1 ∷ codes "jrest"))
read_frame_bounds_example =
    read_frame_bounds unmarshal (0 ∷ 0 ∷ 0 ∷ 1 ∷ codes "jrest") the_envelope (codes "rest") reads
