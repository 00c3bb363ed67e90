-- ===== src/Examples/Configuration.antt =====
-- internal/config: runs of the validation, on a system whose addresses all have one port, and of
-- the merge of the layers of a configuration.
use qoqtun.Prelude.{
  ℕ, ◌≡◌, refl, true, false, not, ◌||◌, ◌==◌, none, some, [], ◌∷◌, ◌++◌, codes, bytes_beq, ◌<◌,
  arith, length, ◌↔◌,
}
use qoqtun.Prelude.Int.{pos, int_eq, int_beq, ◌≤ℤ◌}
use qoqtun.Net.{Net}
use qoqtun.Protocol.Validate.{validate_server_hello, valid_targets, validate_register_tunnel}
use qoqtun.Tunnel.Manager.{port_allowed}
use qoqtun.Control.Server.{policy_from_config, heartbeat_from_config}
use qoqtun.Config.Server.{ServerConfig, default_server_config}
use qoqtun.Config.Rules.{◌also◌, check_ports, parse_port_range, valid_log_level, valid_log_format}
use qoqtun.Config.Validate.{
  System, validate_server, control_port, enroll_port, check_targets, valid_ttl, valid_log_file,
}
use qoqtun.Prelude.Strings.{
  atoi, cut_first, cut_last, trim_space, space_size, trim_join, has_byte, to_lower, lower_join,
  lower_byte,
}
use qoqtun.Config.Client.{
  Floats, TunnelConfig, ClientConfig, default_client_config, validate_client, ◌next◌,
}
use qoqtun.Config.Client.Registers.{accepted-registers}
use qoqtun.Client.Requests.{spec_of, request_of}
use qoqtun.Config.Validate.Ports.{validated-reserves}
use qoqtun.Config.Validate.Hello.{served_hello_iff}
use qoqtun.Prelude.{Bytes, bytes_eq, List, if◌then◌else◌}
use qoqtun.Config.Overlays.{
  Field, Overlay, Table, struct_field, field, no_fields, string_field, int_field, strings_field,
  structs_field, no_structs, entry, no_entries, table, elements, value, no_values, text, number,
  walk, walk_leaf, env_overlays,
}
use qoqtun.Config.Resolve.{FloatText, merge, apply_overlays}
use qoqtun.Config.Resolve.Merged.{field_at, newest, merge-newest}

abbrev one_port : System
one_port = record {
  split_host_port = λ s. some (codes "0.0.0.0", codes "7000");
  is_prefix = λ s. true;
  parse_duration = λ s. some (pos 60000000000);
  is_abs = λ s. true;
  clean = λ s. s;
}

abbrev plain_net : Net
plain_net = record {
  Ip = ℕ;
  Network = ℕ;
  parse_ip = λ s. some 1;
  ip_string = λ ip. codes "10.1.1.1";
  is_v4 = λ ip. true;
  parse_cidr = λ s. some 10;
  contains = λ n ip. true;
  is_unspecified = λ ip. false;
  is_multicast = λ ip. false;
  is_link_local_unicast = λ ip. false;
  is_link_local_multicast = λ ip. false;
}

abbrev in_srv : ServerConfig
in_srv = record default_server_config { state_dir = codes "/srv" }

is_accepted : (validate_server one_port plain_net in_srv).0 ≡ none
unfolding validate_server ◌also◌ bytes_beq default_server_config atoi int_beq check_ports
    parse_port_range cut_first trim_space space_size trim_join has_byte check_targets cut_last
    valid_ttl valid_log_level valid_log_format valid_log_file to_lower lower_join lower_byte
is_accepted = refl

has_control : control_port one_port plain_net in_srv.listen.control_addr ≡ some (pos 7000)
unfolding control_port default_server_config atoi
has_control = refl

has_enroll : enroll_port one_port plain_net in_srv.listen.enroll_addr ≡ some (pos 7000)
unfolding enroll_port default_server_config atoi
has_enroll = refl

validated-reserves_example :
    (port_allowed (validate_server one_port plain_net in_srv).1.policy.allowed_ports (pos 7000)
      ≡ false)
    × (pos 7000 == pos 0
          || not (
              port_allowed
                (validate_server one_port plain_net in_srv).1.policy.allowed_ports
                (pos 7000))
        ≡ true)
validated-reserves_example =
    validated-reserves one_port plain_net in_srv (pos 7000) (pos 7000) is_accepted has_control
      has_enroll

named : 0 < length (codes "id")
named = ground arith

served_hello_iff_example :
    let c' = (validate_server one_port plain_net in_srv).1 in
    (validate_server_hello plain_net (
        some (record {
          session_id = codes "id";
          policy = policy_from_config (some c');
          heartbeat = heartbeat_from_config (some c');
        }))
      ≡ none)
    ↔ ((c'.policy.udp_max_sessions_per_tunnel ≤ℤ pos 65536)
        × (c'.heartbeat.timeout_s ≤ℤ pos 60)
        × (c'.heartbeat.miss_threshold ≤ℤ pos 10)
        × (valid_targets plain_net c'.policy.allowed_targets ≡ true))
served_hello_iff_example = served_hello_iff one_port plain_net in_srv (codes "id") is_accepted named

abbrev floats : Floats
floats = record { Float = ℕ; is_zero = λ f. false; fifth = 0; outside_unit = λ f. false }

abbrev web : TunnelConfig
web = record {
  name = codes "web";
  kind = codes "http";
  remote_port = pos 0;
  local_ip = codes "10.1.1.1";
  local_port = pos 80;
  http_host = codes "a.example";
  enabled = true;
  idle_timeout = [];
}

abbrev laptop : ClientConfig ℕ
laptop = record (default_client_config floats) { server_addr = codes "a:7000"; tunnels = web ∷ [] }

laptop_accepted : (validate_client one_port plain_net floats laptop).0 ≡ none
unfolding validate_client ◌next◌ qoqtun.Config.Validate.split_addr atoi
    qoqtun.Config.Validate.valid_host_or_ip default_client_config valid_log_level bytes_beq to_lower
    lower_join valid_log_format valid_log_file qoqtun.Protocol.Validate.valid_tunnel_name
    qoqtun.Tunnel.Host.all_bytes int_beq qoqtun.Protocol.Validate.valid_hostname
    qoqtun.Protocol.Validate.valid_label qoqtun.Prelude.Strings.split qoqtun.Tunnel.Host.first_is
    qoqtun.Tunnel.Host.last_is qoqtun.Protocol.Validate.valid_labels
laptop_accepted = refl

web_listed : (validate_client one_port plain_net floats laptop).1.tunnels ≡ [] ++ web ∷ []
unfolding validate_client
web_listed = refl

accepted-registers_example :
    validate_register_tunnel plain_net (some (request_of (spec_of web))) ≡ none
accepted-registers_example =
    accepted-registers one_port plain_net floats laptop [] [] web (λ ip h. h) laptop_accepted
      web_listed

abbrev plain_text : FloatText
plain_text = record { Float = ℕ; sprint = λ x. []; parse_float = λ s. none }

abbrev built_in : Field ℕ
built_in = struct_field (
    field (codes "state_dir") (string_field (codes "/var/lib")) (
      field (codes "policy")
        (struct_field (
          field (codes "max_tunnels") (int_field (pos 16))
            (field (codes "allowed_ports") (strings_field []) no_fields)))
        no_fields))

abbrev server_file : Table ℕ
server_file =
    entry (codes "policy")
      (table (
        entry (codes "allowed_ports") (elements (value (text (codes "80")) no_values))
          (entry (codes "max_tunnels") (number (pos 32)) no_entries)))
      no_entries

-- The environment that sets `policy.max_tunnels` alone.
abbrev one_variable : Bytes → Bytes
one_variable name = if name == codes "QOQTUN_POLICY_MAX_TUNNELS" then codes "64" else []

abbrev command_line : List (Overlay ℕ)
command_line = record { path = codes "state_dir"; value = text (codes "/srv") } ∷ []

abbrev merged : Field ℕ
merged = struct_field (
    field (codes "state_dir") (string_field (codes "/srv")) (
      field (codes "policy")
        (struct_field (
          field (codes "max_tunnels") (int_field (pos 64))
            (field (codes "allowed_ports") (strings_field (codes "80" ∷ [])) no_fields)))
        no_fields))

is_merged : merge plain_text built_in (walk [] server_file) command_line one_variable ≡ some merged
unfolding merge walk bytes_beq qoqtun.Prelude.Strings.split atoi qoqtun.Prelude.Strings.decimal
is_merged = refl

abbrev max_tunnels_path : List Bytes
max_tunnels_path = codes "policy" ∷ codes "max_tunnels" ∷ []

merge-newest_example :
    field_at max_tunnels_path merged
    ≡ newest plain_text max_tunnels_path command_line (
        newest plain_text max_tunnels_path (env_overlays one_variable (walk_leaf [] built_in)) (
          newest plain_text max_tunnels_path
            (walk [] server_file)
            (field_at max_tunnels_path built_in)))
merge-newest_example =
    merge-newest plain_text built_in merged (walk [] server_file) command_line one_variable
      max_tunnels_path is_merged

-- An empty array of tables is taken for a list of strings, which the field refuses.
no_tunnels_refused :
    apply_overlays plain_text
      (walk [] (entry (codes "tunnels") (elements no_values) no_entries))
      (struct_field (field (codes "tunnels") (structs_field no_fields no_structs) no_fields))
    ≡ none
unfolding apply_overlays walk bytes_beq qoqtun.Prelude.Strings.split
no_tunnels_refused = refl
