-- ===== src/Config/Validate/Hello.antt =====
-- internal/config/validate.go, internal/control/server.go (policyFromConfig, heartbeatFromConfig)
-- and internal/protocol/validate.go: whether clients accept the hello of a server that runs with
-- an accepted configuration.
use qoqtun.Prelude.{true, Option, none, some, Bytes, length, ◌<◌}
use qoqtun.Prelude.Int.{ℤ, pos, ◌≤ℤ◌}
use qoqtun.Net.{Net}
use qoqtun.Protocol.Messages.{ServerHello}
use qoqtun.Protocol.Validate.{validate_server_hello, valid_targets}
use qoqtun.Protocol.Validate.Accepted.{validate_policy_iff, validate_server_hello_iff}
use qoqtun.Control.Server.{policy_from_config, heartbeat_from_config}
use qoqtun.Config.Server.{ServerConfig, PolicyConfig, HeartbeatConfig}
use qoqtun.Config.Rules.{
  Invalid, control_addr, enroll_addr, ◌also◌, refuse_if, check_policy, check_udp, check_heartbeat,
  check_range, fill_defaults,
}
use qoqtun.Config.Validate.{
  System, check_filled, check_ports_of, check_rest, control_port, enroll_port, validate_server,
}
use qoqtun.Config.Validate.Parts.{also-first, also-then}
use mathlib.Core.Path.{◌≡◌}
use mathlib.Core.Logic.{◌↔◌}
use native.Mathlib.Omega.{arith}

in_policy :
    (p : PolicyConfig)
    → check_policy p ≡ none
    → (pos 1 ≤ℤ p.max_tunnels_per_client)
      × (p.max_tunnels_per_client ≤ℤ pos 1024)
      × (pos 1 ≤ℤ p.max_conns_per_client)
      × (p.max_conns_per_client ≤ℤ pos 100000)
      × (pos 0 ≤ℤ p.bandwidth_bps_per_client)
unfolding check_policy ◌also◌ check_range refuse_if
in_policy p h = ground arith

in_udp :
    (p : PolicyConfig)
    → check_udp p ≡ none
    → (pos 0 ≤ℤ p.udp_max_sessions_per_tunnel)
      × (pos 0 ≤ℤ p.udp_max_packet)
      × (p.udp_max_packet ≤ℤ pos 65507)
unfolding check_udp ◌also◌ check_range refuse_if
in_udp p h = ground arith

in_heartbeat :
    (b : HeartbeatConfig)
    → check_heartbeat b ≡ none
    → (pos 1 ≤ℤ b.interval_s)
      × (b.interval_s ≤ℤ pos 300)
      × (pos 1 ≤ℤ b.timeout_s)
      × (pos 1 ≤ℤ b.miss_threshold)
unfolding check_heartbeat ◌also◌ check_range refuse_if
in_heartbeat b h = ground arith

module _ (sys : System) (net : Net) where
  rest-parts :
      (ctl enroll : ℤ) (c : ServerConfig)
      → check_rest sys net ctl enroll c ≡ none
      → (check_policy c.policy ≡ none)
        × (check_udp c.policy ≡ none)
        × (check_heartbeat c.heartbeat ≡ none)
  unfolding check_rest
  rest-parts ctl enroll c h =
      let policy = also-then _ _ (also-then _ _ h) in
      let udp = also-then _ _ (also-then _ _ (also-then _ _ policy)) in
      let heartbeat = also-then _ _ (also-then _ _ udp) in
      (also-first _ _ policy, also-first _ _ udp, also-first _ _ heartbeat)

  ports-parts :
      (c : ServerConfig)
      → check_ports_of sys net c ≡ none
      → (check_policy c.policy ≡ none)
        × (check_udp c.policy ≡ none)
        × (check_heartbeat c.heartbeat ≡ none)
  unfolding check_ports_of
  ports-parts c h =
      by_ports (control_port sys net c.listen.control_addr)
        (enroll_port sys net c.listen.enroll_addr) h
    where
      by_ports :
          (x y : Option ℤ)
          → (elim x as (λ z. Option Invalid) [
            | none ↦ some control_addr
            | some ctl ↦ elim y as (λ z. Option Invalid) [
              | none ↦ some enroll_addr
              | some enroll ↦ check_rest sys net ctl enroll c
            ]
          ])
            ≡ none
          → (check_policy c.policy ≡ none)
            × (check_udp c.policy ≡ none)
            × (check_heartbeat c.heartbeat ≡ none)
      by_ports none y k = ground arith
      by_ports (some ctl) none k = ground arith
      by_ports (some ctl) (some enroll) k = rest-parts ctl enroll c k

  -- Of a server whose configuration validation accepts, a client accepts the hello exactly if the
  -- UDP sessions per tunnel are 65536 at most, the heartbeat timeout 60 s and the miss threshold
  -- 10 at most, and the targets pass the client's own test, for a session id that is not empty.
  pub served_hello_iff :
      (c : ServerConfig) (session_id : Bytes)
      → (validate_server sys net c).0 ≡ none
      → 0 < length session_id
      → let c' = (validate_server sys net c).1 in
        (validate_server_hello net (
            some (record {
              session_id = session_id;
              policy = policy_from_config (some c');
              heartbeat = heartbeat_from_config (some c');
            }))
          ≡ none)
        ↔ ((c'.policy.udp_max_sessions_per_tunnel ≤ℤ pos 65536)
            × (c'.heartbeat.timeout_s ≤ℤ pos 60)
            × (c'.heartbeat.miss_threshold ≤ℤ pos 10)
            × (valid_targets net c'.policy.allowed_targets ≡ true))
  unfolding validate_server check_filled policy_from_config heartbeat_from_config
  served_hello_iff c id h len =
      let c' = fill_defaults c in
      let parts = ports-parts c' (also-then _ _ h) in
      let policy = in_policy c'.policy parts.0 in
      let udp = in_udp c'.policy parts.1 in
      let heartbeat = in_heartbeat c'.heartbeat parts.2 in
      let hello : ServerHello = record {
        session_id = id;
        policy = policy_from_config (some c');
        heartbeat = heartbeat_from_config (some c');
      } in
      let accepted = validate_server_hello_iff net hello in
      let policy_accepted = validate_policy_iff net hello.policy in
      ground (arith, accepted, policy_accepted)
