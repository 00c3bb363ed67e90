-- ===== src/Examples/Tunnels.antt =====
-- internal/tunnel: runs of the manager, the routing table and the sniffing of a request.
use qoqtun.Prelude.{
  zero, suc, ◌≤◌, ◌≡◌, refl, true, false, none, some, List, [], ◌∷◌, if◌then◌else◌, ◌==◌, nat_eq,
  Bytes, codes, bytes_eq, length, bytes_beq, ◌≢◌, ◌/◌, ◌⊎◌, ◌↔◌,
}
use qoqtun.Prelude.Int.{pos, int_eq, int_beq}
use qoqtun.Prelude.Maps.{lookup, insert}
use qoqtun.Tunnel.Manager.{
  Tunnel, Pending, Manager, new_manager, tunnel_name, port_allowed, RegisterError, Registered, ok,
  err, at_limit, valid_port, fresh_tunnel, register, add_vhost_tunnel, unregister, open_connection,
  claim_data, paired, tunnel_by_id, entry_allows,
}
use qoqtun.Tunnel.Manager.Invariant.{IsValid, new_manager-IsValid}
use qoqtun.Tunnel.Manager.Steps.{Op, registers, adds_vhost, step, run, run-IsValid, port_exclusive}
use qoqtun.Tunnel.Manager.Ports.{register_iff, register_effect, unregister_effect}
use qoqtun.Tunnel.Manager.Pairing.{claim_data_paired}
use qoqtun.Tunnel.Vhost.{VhostTable, route}
use qoqtun.Tunnel.Vhost.Routing.{NoneLonger, IsLongest, route-IsLongest}
use qoqtun.Tunnel.Sniff.{Stream, eof, sniff_host, sniffed, rejected, out_of_fuel, replay}
use qoqtun.Tunnel.Sniff.Replay.{sniff_replay, sniff_ends, sniff_limit}
use qoqtun.Tunnel.Host.{HostResult, normalize_host, valid_hostname}
use qoqtun.Prelude.{suc, length}
use qoqtun.Prelude.Int.{◌≤ℤ◌, ◌<ℤ◌}
use qoqtun.Tunnel.Manager.{tunnel_name}
use qoqtun.Tunnel.Manager.Ports.{Covers}

abbrev web : Bytes
web = codes "web"

abbrev tcp : Bytes
tcp = codes "tcp"

abbrev allowed_ports : List Bytes
allowed_ports = codes "8000-8080" ∷ []

-- A tunnel on port 8000, and a vhost tunnel.
abbrev two_ops : List Op
two_ops =
    registers web tcp (pos 8000) allowed_ports (pos 4) true
    ∷ adds_vhost (codes "blog") (codes "blog.example.com") (pos 4)
    ∷ []

run-IsValid_example : IsValid (run new_manager two_ops)
run-IsValid_example = run-IsValid two_ops

abbrev first_tunnel : Tunnel
first_tunnel = record {
  id = codes "t_1";
  name = web;
  typ = tcp;
  remote_port = pos 8000;
  vhost_host = [];
}

registered_first : tunnel_by_id (run new_manager two_ops) (codes "t_1") ≡ some first_tunnel
unfolding tunnel_by_id lookup run step add_vhost_tunnel at_limit register new_manager valid_port
    port_allowed entry_allows bytes_beq qoqtun.Prelude.Strings.cut_first qoqtun.Prelude.Strings.atoi
    insert fresh_tunnel tunnel_name qoqtun.Prelude.Strings.decimal
registered_first = refl

port_exclusive_example : codes "t_1" ≡ codes "t_1"
unfolding int_beq
port_exclusive_example =
    port_exclusive two_ops (codes "t_1") (codes "t_1") first_tunnel first_tunnel registered_first
      registered_first refl refl

register_iff_example :
    ((register new_manager web tcp (pos 8000) allowed_ports (pos 4) true).0
      ≡ ok (fresh_tunnel new_manager web tcp (pos 8000) []))
    ↔ ((pos 0 <ℤ pos 4 → pos (length new_manager.tunnels) <ℤ pos 4)
        × (pos 1 ≤ℤ pos 8000)
        × (pos 8000 ≤ℤ pos 65535)
        × Covers allowed_ports (pos 8000)
        × (lookup (pos 8000) new_manager.ports ≡ none)
        × (true ≡ true))
register_iff_example = register_iff new_manager web tcp (pos 8000) allowed_ports (pos 4) true

abbrev registered : Registered × Manager
registered = register new_manager web tcp (pos 8000) allowed_ports (pos 4) true

abbrev web_tunnel : Tunnel
web_tunnel = fresh_tunnel new_manager web tcp (pos 8000) []

register_effect_example :
    ((registered.0 ≡ ok web_tunnel)
      × (lookup web_tunnel.id new_manager.tunnels ≡ none)
      × (web_tunnel.id ≡ tunnel_name (suc new_manager.seq))
      × (registered.1.seq ≡ suc new_manager.seq)
      × (lookup (codes "t_1") registered.1.tunnels ≡ (
          if web_tunnel.id == codes "t_1"
          then some web_tunnel
          else lookup (codes "t_1") new_manager.tunnels))
      × (lookup (pos 8000) registered.1.ports ≡ (
          if pos 8000 == pos 8000 then some web_tunnel.id else lookup (pos 8000) new_manager.ports))
      × (registered.1.pending ≡ new_manager.pending))
    ⊎ ((e : RegisterError) × (registered.0 ≡ err e)
        × (registered.1.tunnels ≡ new_manager.tunnels)
        × (registered.1.ports ≡ new_manager.ports)
        × (registered.1.pending ≡ new_manager.pending))
register_effect_example =
    register_effect new_manager web tcp (pos 8000) allowed_ports (pos 4) true (codes "t_1")
      (pos 8000) new_manager-IsValid

abbrev two : Manager
two = run new_manager two_ops

unregister_effect_example :
    (tunnel_by_id (unregister two (codes "t_1")) (codes "t_2")
      ≡ (if codes "t_1" == codes "t_2" then none else tunnel_by_id two (codes "t_2")))
    × (lookup (pos 8000) (unregister two (codes "t_1")).ports
        ≡ (if pos 8000 == pos 8000 then none else lookup (pos 8000) two.ports))
    × (lookup (codes "c") (unregister two (codes "t_1")).pending
        ≡ elim (lookup (codes "c") two.pending) [
          | none ↦ none
          | some pc ↦ (if pc.tunnel_id == codes "t_1" then none else some pc)
        ])
    × ((unregister two (codes "t_1")).stopped ≡ codes "t_1" ∷ two.stopped)
unregister_effect_example =
    unregister_effect two (codes "t_1") (codes "t_2") (codes "c") first_tunnel (pos 8000)
      (run-IsValid two_ops) registered_first

-- A public connection that waits for the first tunnel.
abbrev waiting : Manager
waiting = (open_connection two first_tunnel (some 7) (pos 5) 100 (some (codes "c"))).1

abbrev pending_c : Pending
pending_c = record { conn = some 7; tunnel_id = codes "t_1"; deadline = 105 }

waits : lookup (codes "c") waiting.pending ≡ some pending_c
unfolding lookup open_connection insert run step add_vhost_tunnel at_limit register new_manager
    valid_port port_allowed entry_allows bytes_beq qoqtun.Prelude.Strings.cut_first
    qoqtun.Prelude.Strings.atoi
waits = refl

claim_data_paired_example :
    ((claim_data waiting (codes "c") 101).0 ≡ paired (some 7) first_tunnel)
    ↔ ((101 ≤ 105) × (lookup (codes "t_1") waiting.tunnels ≡ some first_tunnel))
claim_data_paired_example = claim_data_paired waiting (codes "c") 101 pending_c first_tunnel waits

-- Two rules above one host.
abbrev rules : VhostTable
rules =
    (codes "example.com", record { tunnel_id = codes "t_1"; client_id = codes "a" })
    ∷ (codes "b.example.com", record { tunnel_id = codes "t_2"; client_id = codes "b" })
    ∷ []

abbrev request : Bytes
request = codes "GET / HTTP/1.1\r\nHost: Blog.Example.com\r\n\r\nbody"

abbrev request_stream : Stream
request_stream = record { bytes = request; end = eof }

abbrev request_head : Bytes
request_head = codes "GET / HTTP/1.1\r\nHost: Blog.Example.com\r\n"

sniffs :
    sniff_host request_stream (pos 0)
    ≡ sniffed (codes "blog.example.com") request_head (codes "\r\nbody")
unfolding sniff_host qoqtun.Tunnel.Sniff.finish qoqtun.Tunnel.Sniff.read_head
    qoqtun.Tunnel.Sniff.read_sniff_line qoqtun.Tunnel.Sniff.read_slice qoqtun.Tunnel.Sniff.cut_line
    qoqtun.Tunnel.Sniff.buffer_size qoqtun.Tunnel.Sniff.read_headers qoqtun.Tunnel.Sniff.header_of
    qoqtun.Prelude.Strings.trim_suffix qoqtun.Tunnel.Sniff.split_header
    qoqtun.Prelude.Strings.cut_first bytes_beq qoqtun.Prelude.Strings.to_lower
    qoqtun.Prelude.Strings.trim_space normalize_host valid_hostname qoqtun.Tunnel.Host.canonical
    qoqtun.Tunnel.Host.strip_port qoqtun.Prelude.Strings.cut_last qoqtun.Tunnel.Host.valid_label
    qoqtun.Prelude.Strings.split qoqtun.Tunnel.Host.first_is qoqtun.Tunnel.Host.last_is
    qoqtun.Tunnel.Host.all_bytes qoqtun.Tunnel.Host.valid_labels qoqtun.Prelude.Strings.equal_fold
    qoqtun.Prelude.Strings.fold_join qoqtun.Prelude.Strings.space_size
    qoqtun.Prelude.Strings.trim_join qoqtun.Prelude.Strings.lower_join
sniffs = refl

sniff_replay_example :
    (replay request_head (codes "\r\nbody") ≡ request)
    × (length request_head ≤ sniff_limit (pos 0))
    × (valid_hostname (codes "blog.example.com") ≡ true)
    × (normalize_host (codes "blog.example.com") ≡ HostResult.ok (codes "blog.example.com"))
sniff_replay_example =
    sniff_replay request_stream (pos 0) (codes "blog.example.com") request_head (codes "\r\nbody")
      sniffs

sniff_ends_example : sniff_host request_stream (pos 0) ≢ rejected out_of_fuel
sniff_ends_example = sniff_ends request_stream (pos 0)

blog_host : lookup (codes "x.b.example.com") rules ≡ none
unfolding lookup bytes_beq
blog_host = refl

route-IsLongest_example :
    ((route rules (codes "x.b.example.com") ≡ none) × NoneLonger (codes "x.b.example.com") 0 rules)
    ⊎ IsLongest (codes "x.b.example.com") 0 rules (route rules (codes "x.b.example.com"))
unfolding lookup bytes_beq
route-IsLongest_example =
    route-IsLongest rules (codes "x.b.example.com") (refl, (refl, tt)) blog_host
