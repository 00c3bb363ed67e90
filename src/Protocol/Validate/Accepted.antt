-- ===== src/Protocol/Validate/Accepted.antt =====
-- internal/protocol/validate.go: what the accepted messages have.
use qoqtun.Prelude.{
  ◌<◌, ◌≡◌, refl, Bool, true, false, ◌&&◌, Option, none, some, List, arith, ◌==◌, nat_eq, Bytes,
  codes, bytes_eq, length, ◌≢◌, Bool-cases, inl, inr, ◌⊎◌, ◌↔◌, bytes_beq_iff,
}
use qoqtun.Prelude.Int.{ℤ, pos, negsuc, int_eq, int_beq, int_beq_iff, ◌≤ℤ◌}
use qoqtun.Prelude.Maps.{lookup}
use qoqtun.Net.{Net}
use qoqtun.Protocol.Messages.{Policy, Heartbeat, ServerHello, RegisterTunnel}
use qoqtun.Protocol.Validate.{
  Problem, outside, ◌then◌, reject_if, validate_heartbeat, known_kind, lacks_host, host_too_big,
  valid_targets, validate_policy, validate_server_hello, validate_register_tunnel,
  missing_session_id,
}
use qoqtun.Tunnel.Manager.{Manager, register, Registered, invalid_port, valid_port, at_limit}

then-none : (p q : Option Problem) → ((p then q) ≡ none) ↔ ((p ≡ none) × (q ≡ none))
unfolding ◌then◌
then-none none q = ground arith
then-none (some p) q = ground arith

reject_if-none : (b : Bool) (p : Problem) → (reject_if b p ≡ none) ↔ (b ≡ false)
unfolding reject_if
reject_if-none true p = ground arith
reject_if-none false p = ground arith

outside-false :
    (lo hi n : ℤ) (p : Problem) → (reject_if (outside lo hi n) p ≡ none) ↔ ((lo ≤ℤ n) × (n ≤ℤ hi))
outside-false lo hi n p = ground (arith, reject_if-none (outside lo hi n) p)

positive : (p : ℤ) → pos 0 ≤ℤ p → (p == pos 0) ≡ false → pos 1 ≤ℤ p
unfolding int_beq
positive (pos n) le ne = ground arith
positive (negsuc n) le ne = ground arith

heartbeat_iff :
    (b : Heartbeat)
    → (validate_heartbeat b ≡ none) ↔ (
        (pos 1 ≤ℤ b.interval_s)
        × (b.interval_s ≤ℤ pos 300)
        × (pos 1 ≤ℤ b.timeout_s)
        × (b.timeout_s ≤ℤ pos 60)
        × (pos 1 ≤ℤ b.miss_threshold)
        × (b.miss_threshold ≤ℤ pos 10))
unfolding validate_heartbeat ◌then◌ reject_if
heartbeat_iff b = ground arith

module _ (net : Net) where
  -- A policy that the client accepts is within the protocol's bounds, and each of its targets is
  -- well formed; every such policy is accepted.
  pub validate_policy_iff :
      (p : Policy)
      → (validate_policy net p ≡ none) ↔ (
          (pos 1 ≤ℤ p.max_tunnels)
          × (p.max_tunnels ≤ℤ pos 1024)
          × (pos 1 ≤ℤ p.max_conns)
          × (p.max_conns ≤ℤ pos 100000)
          × (pos 0 ≤ℤ p.bandwidth_bps)
          × (pos 0 ≤ℤ p.udp.max_sessions)
          × (p.udp.max_sessions ≤ℤ pos 65536)
          × (pos 0 ≤ℤ p.udp.max_packet)
          × (p.udp.max_packet ≤ℤ pos 65507)
          × (valid_targets net p.allowed_targets ≡ true))
  unfolding validate_policy ◌then◌ reject_if
  validate_policy_iff p = ground arith

  -- A server hello is accepted exactly if it names a session, its policy is acceptable and its
  -- heartbeat is within the protocol's bounds.
  pub validate_server_hello_iff :
      (h : ServerHello)
      → (validate_server_hello net (some h) ≡ none) ↔ (
          (0 < length h.session_id)
          × (validate_policy net h.policy ≡ none)
          × (pos 1 ≤ℤ h.heartbeat.interval_s)
          × (h.heartbeat.interval_s ≤ℤ pos 300)
          × (pos 1 ≤ℤ h.heartbeat.timeout_s)
          × (h.heartbeat.timeout_s ≤ℤ pos 60)
          × (pos 1 ≤ℤ h.heartbeat.miss_threshold)
          × (h.heartbeat.miss_threshold ≤ℤ pos 10))
  unfolding validate_server_hello
  validate_server_hello_iff h =
      let b = h.heartbeat in
      ground (
        arith,
        then-none (reject_if (length h.session_id == 0) missing_session_id)
            (validate_policy net h.policy then validate_heartbeat b),
        reject_if-none (length h.session_id == 0) missing_session_id,
        then-none (validate_policy net h.policy) (validate_heartbeat b),
        heartbeat_iff b,
      )

  -- What each of the tests of a registration says when it passes.
  validated_parts :
      (r : RegisterTunnel)
      → validate_register_tunnel net (some r) ≡ none
      → (known_kind r.kind ≡ true)
        × (pos 0 ≤ℤ r.remote_port)
        × (r.remote_port ≤ℤ pos 65535)
        × ((r.kind == codes "http" && r.remote_port == pos 0 && lacks_host r.http) ≡ false)
        × ((r.kind == codes "https" && r.remote_port == pos 0) ≡ false)
        × (host_too_big r.http ≡ false)
  unfolding validate_register_tunnel ◌then◌ reject_if
  validated_parts r ok = ground arith

  -- A registration that passes validation and is not for a host alone is not refused by the tunnel
  -- manager for its port, unless it is a TCP or UDP tunnel that names no port.
  pub validated-register :
      (r : RegisterTunnel) (m : Manager) (allowed : List Bytes) (max_tunnels : ℤ) (listens : Bool)
      → validate_register_tunnel net (some r) ≡ none
      → (r.remote_port == pos 0) ≡ false
      → (register m r.name r.kind r.remote_port allowed max_tunnels listens).0
        ≢ Registered.err invalid_port
  unfolding register valid_port
  validated-register r m allowed max_tunnels listens ok port =
      elim (Bool-cases (at_limit m max_tunnels)) [
        | inl full ↦ ground (arith, validated_parts r ok)
        | inr room ↦ by_owner (lookup r.remote_port m.ports) refl
      ]
    where
      by_owner :
          (o : Option Bytes)
          → lookup r.remote_port m.ports ≡ o
          → (register m r.name r.kind r.remote_port allowed max_tunnels listens).0
            ≢ Registered.err invalid_port
      by_owner none q = ground (arith, validated_parts r ok, positive r.remote_port, port)
      by_owner (some t) q = ground (arith, validated_parts r ok, positive r.remote_port, port)

  -- A registration that passes validation and names no port is for an HTTP tunnel with a host of
  -- at most 255 bytes, or for a TCP or UDP tunnel.
  pub validated_without_port :
      (r : RegisterTunnel)
      → validate_register_tunnel net (some r) ≡ none
      → r.remote_port ≡ pos 0
      → ((r.kind ≡ codes "http") × (lacks_host r.http ≡ false) × (host_too_big r.http ≡ false))
        ⊎ ((r.kind ≡ codes "tcp") ⊎ (r.kind ≡ codes "udp"))
  unfolding known_kind
  validated_without_port r ok port = ground (
    arith,
    validated_parts r ok,
    bytes_beq_iff r.kind (codes "tcp"),
    bytes_beq_iff r.kind (codes "udp"),
    bytes_beq_iff r.kind (codes "http"),
    int_beq_iff r.remote_port (pos 0),
  )
