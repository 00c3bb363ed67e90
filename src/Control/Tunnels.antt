-- ===== src/Control/Tunnels.antt =====
-- internal/control/server.go: the handlers that register and remove tunnels. A payload that does
-- not decode is `none`.
use qoqtun.Prelude.{
  ℕ, suc, ◌&&◌, not, Option, none, some, [], ◌∷◌, ◌++◌, ◌==◌, ◌*◌, if◌then◌else◌, length, Bytes,
  codes, bytes_eq, nat_eq, is_some,
}
use qoqtun.Prelude.Int.{ℤ, pos, negsuc, int_eq}
use qoqtun.Prelude.Strings.{decimal}
use qoqtun.Net.{Net}
use qoqtun.Protocol.Messages.{RegisterTunnel}
use qoqtun.Protocol.Validate.{validate_register_tunnel}
use qoqtun.Client.Errors.{contains}
use qoqtun.Tunnel.Host.{HostResult, normalize_host}
use qoqtun.Tunnel.Manager.{
  Tunnel, Manager, RegisterError, tunnel_limit, invalid_port, not_allowed, listen_failed, in_use,
  Registered, ok, err, register, add_vhost_tunnel, unregister, open_connection, tunnel_by_id,
  second,
}
use qoqtun.Tunnel.Vhost
use qoqtun.Control.VhostListener.{start_vhost, stop_vhost}
use qoqtun.Control.Ports.{check_port_arbitration}
use qoqtun.Control.Server.{
  Limits, Server, Outside, Code, Frame, refused, registered, unregistered, send, manager_for,
  put_manager, teardown, check_register_rate, target_allowed, policy_from_config, protocol_error,
  rate_limited, target_not_allowed, port_in_use, port_not_allowed, name_invalid, name_conflict,
  internal, invalid,
}

-- `%d`
unfoldable pub int_text : ℤ → Bytes
int_text (pos n) = decimal n
int_text (negsuc n) = b'-' ∷ decimal (suc n)

-- The text of an error of `Register` or `AddVhostTunnel`, given that of the failed bind.
unfoldable pub error_text : RegisterTunnel → ℤ → Bytes → RegisterError → Bytes
error_text r limit os tunnel_limit = codes "tunnel limit reached (" ++ (int_text limit ++ codes ")")
error_text r limit os invalid_port = codes "invalid remote port " ++ int_text r.remote_port
error_text r limit os not_allowed =
    codes "remote port " ++ (int_text r.remote_port ++ codes " not allowed by policy")
error_text r limit os (in_use owner) =
    codes "remote port " ++ (int_text r.remote_port ++ (codes " already in use by " ++ owner))
error_text r limit os listen_failed =
    (if r.kind == codes "udp" then codes "udp listen on " else codes "listen on ")
    ++ (int_text r.remote_port ++ (codes ": " ++ os))

-- `mapRegisterErr`
unfoldable pub map_register_err : Bytes → Code
map_register_err msg =
    if contains msg (codes "not allowed")
    then port_not_allowed
    else if contains msg (codes "already in use")
    then port_in_use
    else if contains msg (codes "tunnel limit")
    then Code.tunnel_limit
    else if contains msg (codes "invalid")
    then name_invalid
    else internal

-- `req.Type == "http" && req.RemotePort == 0 && req.HTTP != nil && req.HTTP.Host != ""`
unfoldable pub vhost_of : RegisterTunnel → Option Bytes
vhost_of r =
    if r.kind == codes "http" && r.remote_port == pos 0
    then elim r.http [ none ↦ none | some h ↦ (if length h == 0 then none else some h) ]
    else none

abbrev pub os_text : Option Bytes → Bytes
os_text none = []
os_text (some e) = e

module _ {Limiter : Type 0} where
  -- The shared listener is started or the registration is undone.
  unfoldable pub start_listener : ℕ → Bytes → Tunnel → Outside → Server Limiter → Server Limiter
  start_listener c id t w s =
      let r = start_vhost s.vhost_port (not (is_some w.bind_error)) s.listener in
      let s' : Server Limiter = record s { listener = r.1 } in
      if r.0
      then send c (registered t.id s.vhost_port) s'
      else send c (refused internal) (
          put_manager id (unregister (manager_for id s') t.id)
            (record s' { hosts = Vhost.unregister_tunnel t.id s'.hosts }))

  -- The host of a new vhost tunnel enters the routing table, or the tunnel is removed.
  unfoldable pub route_host : ℕ → Bytes → Bytes → Tunnel → Outside → Server Limiter → Server Limiter
  unfolding start_listener
  route_host c id host t w s = elim (Vhost.register s.hosts host t.id id) [
    | none ↦ send c (refused name_conflict) (put_manager id (unregister (manager_for id s) t.id) s)
    | some hosts ↦ start_listener c id t w (record s { hosts = hosts })
  ]

  -- What `AddVhostTunnel` returned, and the manager that it left.
  unfoldable pub place_vhost :
      ℕ
      → Bytes
      → RegisterTunnel
      → Bytes
      → Outside
      → Server Limiter
      → Registered × Manager
      → Server Limiter
  unfolding route_host error_text map_register_err
  place_vhost c id r host w s (err e, m) =
      send c (refused (map_register_err (error_text r (policy_from_config s.cfg).max_tunnels [] e)))
        s
  place_vhost c id r host w s (ok t, m) = route_host c id host t w (put_manager id m s)

  unfoldable pub add_vhost :
      ℕ → Bytes → RegisterTunnel → Bytes → Outside → Server Limiter → Server Limiter
  unfolding place_vhost
  add_vhost c id r host w s =
      place_vhost c id r host w s
        (add_vhost_tunnel (manager_for id s) r.name host (policy_from_config s.cfg).max_tunnels)

  -- `handleRegisterVhost`
  unfoldable pub handle_register_vhost :
      ℕ → Bytes → RegisterTunnel → Bytes → Outside → Server Limiter → Server Limiter
  unfolding add_vhost
  handle_register_vhost c id r raw w s = elim (normalize_host raw) [
    | HostResult.err e ↦ send c (refused name_invalid) s
    | HostResult.ok host ↦ add_vhost c id r host w s
  ]

  -- The answer, and for a UDP tunnel the connection that its client is to open.
  unfoldable pub open_channel :
      ℕ → Bytes → RegisterTunnel → Tunnel → Outside → Server Limiter → Server Limiter
  open_channel c id r t w s =
      let o = open_connection (manager_for id s) t none (pos (10 * second)) w.now w.fresh_id in
      if r.kind == codes "udp"
      then elim o.0 [
        | none ↦ put_manager id o.1 s
        | some conn_id ↦ send c (Frame.open_connection conn_id t.id) (put_manager id o.1 s)
      ]
      else s

  unfoldable pub register_port :
      ℕ → Bytes → RegisterTunnel → Outside → Server Limiter → Server Limiter
  unfolding open_channel error_text map_register_err
  register_port c id r w s =
      let p = policy_from_config s.cfg in
      let a =
        register (manager_for id s) r.name r.kind r.remote_port p.allowed_ports p.max_tunnels
          (not (is_some w.bind_error)) in
      elim a.0 [
        | err e ↦
            send c
              (refused (map_register_err (error_text r p.max_tunnels (os_text w.bind_error) e)))
              (put_manager id a.1 s)
        | ok t ↦
            open_channel c id r t w (send c (registered t.id t.remote_port) (put_manager id a.1 s))
      ]

  unfoldable pub arbitrate_port :
      ℕ → Bytes → RegisterTunnel → Outside → Server Limiter → Server Limiter
  unfolding register_port
  arbitrate_port c id r w s =
      let a = check_port_arbitration r.remote_port id w.now s.reservations in
      let s' : Server Limiter = record s { reservations = a.1 } in
      if a.0 then register_port c id r w s' else send c (refused port_in_use) s'

  unfoldable pub register_tunnel :
      ℕ → Bytes → RegisterTunnel → Outside → Server Limiter → Server Limiter
  unfolding arbitrate_port handle_register_vhost vhost_of
  register_tunnel c id r w s = elim (vhost_of r) [
    | some host ↦ handle_register_vhost c id r host w s
    | none ↦ arbitrate_port c id r w s
  ]

  -- The host of the tunnel that was found leaves the table.
  unfoldable pub forget_host : Bytes → Option Tunnel → Server Limiter → Server Limiter
  forget_host tunnel_id none s = s
  forget_host tunnel_id (some t) s = if length t.vhost_host == 0 then s else record s {
    hosts = Vhost.unregister_tunnel tunnel_id s.hosts;
    listener = stop_vhost s.listener;
  }

  unfoldable pub drop_tunnel : ℕ → Bytes → Bytes → Server Limiter → Server Limiter
  drop_tunnel c id tunnel_id s =
      send c (unregistered tunnel_id)
        (put_manager id (unregister (manager_for id s) tunnel_id) (teardown tunnel_id s))

  -- `handleUnregisterTunnel` after its checks.
  unfoldable pub remove_tunnel : ℕ → Bytes → Bytes → Server Limiter → Server Limiter
  unfolding forget_host drop_tunnel
  remove_tunnel c id tunnel_id s =
      drop_tunnel c id tunnel_id
        (forget_host tunnel_id (tunnel_by_id (manager_for id s) tunnel_id) s)

module _ (lim : Limits) (net : Net) where
  -- `handleRegisterTunnel`
  unfoldable pub handle_register_tunnel :
      ℕ → Bytes → Option RegisterTunnel → Outside → Server lim.Limiter → Server lim.Limiter
  unfolding register_tunnel
  handle_register_tunnel c id none w s = send c (refused protocol_error) s
  handle_register_tunnel c id (some r) w s = elim (validate_register_tunnel net (some r)) [
    | some p ↦ send c (refused (invalid p)) s
    | none ↦
        let a = check_register_rate lim id w.now s in
        (if not a.0
          then send c (refused rate_limited) a.1
          else if not (target_allowed lim net r.local a.1)
          then send c (refused target_not_allowed) a.1
          else register_tunnel c id r w a.1)
  ]

  -- `handleUnregisterTunnel`
  unfoldable pub handle_unregister_tunnel :
      ℕ → Bytes → Option Bytes → ℕ → Server lim.Limiter → Server lim.Limiter
  unfolding remove_tunnel
  handle_unregister_tunnel c id none now s = s
  handle_unregister_tunnel c id (some tunnel_id) now s =
      let a = check_register_rate lim id now s in
      if a.0 then remove_tunnel c id tunnel_id a.1 else send c (refused rate_limited) a.1
