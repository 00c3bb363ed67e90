-- ===== src/Examples/Control.antt =====
-- internal/control and internal/metrics: runs of the control plane and of the counters.
use qoqtun.Prelude.{
  ℕ, arith, ◌⊎◌, ◌≡◌, refl, true, false, none, some, List, [], ◌∷◌, Bytes, codes, bytes_eq,
  bytes_beq, nat_eq,
}
use qoqtun.Prelude.Int.{pos, ◌-ℤ◌}
use qoqtun.Net.{Net}
use qoqtun.Protocol.Messages.{ClientHello, RegisterTunnel}
use qoqtun.Tunnel.Manager.{Tunnel}
use qoqtun.Config.Server.{default_server_config}
use qoqtun.Control.Server.{Limits, Server, Outside, policy_from_config, manager_in}
use qoqtun.Control.Connection.{
  client_hello, register_tunnel, unregister_tunnel, end_control, handle_shutdown,
}
use qoqtun.Control.Run.{Event, connected, message, ended, run}
use qoqtun.Control.Run.Drops.{RoutedState}
use qoqtun.Control.Run.Routed.{run-IsRouted, all_stay}
use qoqtun.Control.Run.Stale.{shutdown_strands}
use qoqtun.Control.Run.Offers.{Closes, Waits, on_open_settles}
use qoqtun.Metrics.{new_registry, client_stats}
use qoqtun.Metrics.Counted
use qoqtun.Metrics.Counted.{Call, open_call, record_call, opened, finished, all_opened, run_counts}
use qoqtun.Prelude.Maps.{lookup}
use qoqtun.Tunnel.Vhost
use qoqtun.Tunnel.Vhost.{Entry}
use qoqtun.Security.IpGate.{active}
use qoqtun.Control.PublicConns.{on_open}

abbrev lim : Limits
lim = record { Limiter = ℕ; new_limiter = λ r b. b; allow = λ now l. (true, l) }

abbrev small_net : Net
small_net = record {
  Ip = ℕ;
  Network = ℕ;
  parse_ip = λ s. some 1;
  ip_string = λ ip. codes "10.1.1.1";
  is_v4 = λ ip. true;
  parse_cidr = λ s. some 10;
  contains = λ n ip. true;
  is_unspecified = λ ip. false;
  is_multicast = λ ip. false;
  is_link_local_unicast = λ ip. false;
  is_link_local_multicast = λ ip. false;
}

abbrev new_server : Server ℕ
new_server = record {
  cfg = some default_server_config;
  policy = policy_from_config (some default_server_config);
  max_half_open = pos 1;
  vhost_port = pos 8080;
  sessions = [];
  managers = [];
  hosts = [];
  listener = record { refs = pos 0; listening = false };
  quotas = record { max_conns = pos 2; max_conns_tunnel = pos 1; client_sem = []; tunnel_sem = [] };
  client_bw = [];
  tunnel_bw = [];
  reg_lim = [];
  gate = record { conns = []; rates = []; max_per_ip = pos 1; rate = 1; burst = 1 };
  half_open = [];
  reservations = [];
  data_conns = [];
  channels = [];
  stats = new_registry;
  sent = [];
  closed = [];
}

abbrev alice : Bytes
alice = codes "alice"

abbrev hello : ClientHello
hello = record {
  client_id = alice;
  protocol_version = pos 1;
  name = codes "alice";
  note = [];
  capabilities = [];
}

abbrev outside : Outside
outside = record { now = 1; bind_error = none; fresh_id = some (codes "id") }

abbrev web : RegisterTunnel
web = record {
  name = codes "web";
  kind = codes "http";
  remote_port = pos 0;
  local = record { ip = codes "10.1.1.1"; port = pos 80 };
  http = some (codes "a.example");
}

abbrev visits : List Event
visits =
    connected 1 (codes "h") alice false (client_hello (some hello)) 1
    ∷ message 1 alice (register_tunnel (some web)) true outside
    ∷ message 1 alice (unregister_tunnel (some (codes "t_1"))) true outside
    ∷ ended 1 (codes "h") alice 2
    ∷ []

visits_stay : all_stay visits ≡ true
unfolding all_stay
visits_stay = refl

new_server-RoutedState : RoutedState new_server
unfolding lookup
new_server-RoutedState = record {
  valid = λ id m h. ground arith;
  distinct_hosts = ground arith;
  routed = λ host e h. ground arith;
}

run-IsRouted_example : RoutedState (run lim small_net visits new_server)
run-IsRouted_example =
    run-IsRouted lim small_net visits new_server visits_stay new_server-RoutedState

abbrev entry : Entry
entry = record { tunnel_id = codes "t_1"; client_id = alice }

-- The client has connected and registered the host.
abbrev serving : Server ℕ
serving =
    run lim small_net
      (connected 1 (codes "h") alice false (client_hello (some hello)) 1
        ∷ message 1 alice (register_tunnel (some web)) true outside
        ∷ [])
      new_server

is_served : lookup (codes "a.example") serving.hosts ≡ some entry
unfolding lookup bytes_beq run qoqtun.Control.Run.step qoqtun.Control.Connection.read_message
    qoqtun.Control.Tunnels.handle_register_tunnel qoqtun.Protocol.Validate.validate_register_tunnel
    qoqtun.Protocol.Validate.◌then◌ qoqtun.Protocol.Validate.reject_if
    qoqtun.Protocol.Validate.valid_tunnel_name qoqtun.Tunnel.Host.all_bytes
    qoqtun.Protocol.Validate.known_kind qoqtun.Prelude.Int.int_beq
    qoqtun.Protocol.Validate.lacks_host qoqtun.Protocol.Validate.validate_local_target
    qoqtun.Protocol.Validate.validate_local_ip qoqtun.Protocol.Validate.forbidden
    qoqtun.Protocol.Validate.host_too_big qoqtun.Control.Server.check_register_rate
    qoqtun.Control.Server.target_allowed qoqtun.Control.Connection.touch
    qoqtun.Control.Connection.handle_conn qoqtun.Control.HalfOpen.try_acquire
    qoqtun.Control.HalfOpen.count qoqtun.Protocol.Validate.validate_client_hello
    qoqtun.Protocol.Validate.capabilities_fit qoqtun.Session.register qoqtun.Prelude.Maps.insert
    policy_from_config default_server_config qoqtun.Tunnel.Acl.targets_allow
    qoqtun.Tunnel.Acl.parse_targets qoqtun.Tunnel.Acl.parse_target qoqtun.Prelude.Strings.cut_last
    qoqtun.Tunnel.Acl.rule_of qoqtun.Tunnel.Host.valid_labels qoqtun.Tunnel.Manager.add_vhost_tunnel
    qoqtun.Tunnel.Manager.at_limit manager_in qoqtun.Tunnel.Manager.new_manager Vhost.register
    qoqtun.Control.VhostListener.start_vhost qoqtun.Tunnel.Manager.fresh_tunnel
    qoqtun.Tunnel.Manager.tunnel_name qoqtun.Prelude.Strings.decimal qoqtun.Tunnel.Acl.parse_network
    qoqtun.Tunnel.Acl.parse_ports qoqtun.Tunnel.Acl.allows qoqtun.Tunnel.Acl.rule_allows
    qoqtun.Tunnel.Host.normalize_host qoqtun.Prelude.Strings.trim_space
    qoqtun.Prelude.Strings.space_size qoqtun.Prelude.Strings.trim_join
    qoqtun.Tunnel.Host.valid_hostname qoqtun.Tunnel.Host.canonical
    qoqtun.Prelude.Strings.trim_suffix qoqtun.Prelude.Strings.to_lower qoqtun.Tunnel.Host.strip_port
    qoqtun.Prelude.Strings.lower_join qoqtun.Tunnel.Host.valid_label qoqtun.Prelude.Strings.split
    qoqtun.Tunnel.Host.first_is qoqtun.Tunnel.Host.last_is
is_served = refl

shutdown_strands_example :
    let s' = end_control 1 (codes "h") alice 5 (handle_shutdown alice serving) in
    (lookup (codes "a.example") s'.hosts ≡ some entry)
    × (Vhost.register s'.hosts (codes "a.example") (codes "t_2") (codes "bob") ≡ none)
    × ((manager_in alice s'.managers).tunnels ≡ [])
shutdown_strands_example =
    shutdown_strands 1 (codes "h") alice (codes "a.example") (codes "t_2") (codes "bob") 5 entry
      serving is_served refl

abbrev tunnel : Tunnel
tunnel = record {
  id = codes "t_1";
  name = codes "db";
  typ = codes "tcp";
  remote_port = pos 20000;
  vhost_host = [];
}

on_open_settles_example :
    let s' = on_open lim 1 alice tunnel 7 (codes "10.1.1.1") outside new_server in
    (Closes 7 new_server s' ⊎ Waits alice tunnel 7 s')
    × (active s'.gate (codes "10.1.1.1") ≡ active new_server.gate (codes "10.1.1.1"))
on_open_settles_example =
    on_open_settles lim 1 alice tunnel 7 (codes "10.1.1.1") (codes "10.1.1.1") outside new_server

abbrev calls : List Call
calls =
    open_call alice (codes "t_1")
    ∷ open_call (codes "bob") (codes "t_1")
    ∷ record_call alice (codes "t_1") (pos 10) (pos 20) 5
    ∷ []

run_counts_example :
    let r = Counted.run calls new_registry in
    ((client_stats r alice).active_conns ≡ pos (opened alice calls) -ℤ pos (finished alice calls))
    × ((client_stats r alice).total_conns ≡ pos (opened alice calls))
    × (r.global_conns ≡ pos (all_opened calls))
run_counts_example = run_counts calls alice
