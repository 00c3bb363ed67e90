-- ===== src/Tunnel/Manager.antt =====
-- internal/tunnel/server.go: the tunnel manager of one client. A public connection is a number;
-- `closed` lists the connections that the manager has closed, `stopped` the tunnels whose listener,
-- UDP sockets and channel it has closed. The mutex makes each method one
-- step; one read loop calls `Register`, so its two critical sections are taken together.
pub mod Invariant
pub mod Steps
pub mod Ports
pub mod Pairing
use qoqtun.Prelude.{
  ℕ, zero, suc, ◌+◌, ◌*◌, Bool, true, false, ◌&&◌, ◌||◌, not, Option, none, some, List, [], ◌∷◌,
  ◌++◌, if◌then◌else◌, ◌==◌, ltb, nat_eq, Bytes, codes, bytes_eq, length, map,
}
use qoqtun.Prelude.Int.{ℤ, pos, pos_part, ltz, lez, int_eq}
use qoqtun.Prelude.Maps.{Map, lookup, insert, delete, retain}
use qoqtun.Prelude.Strings.{cut_first, atoi, decimal}

pub record Tunnel : Type 0 where
  pub id : Bytes
  pub name : Bytes
  pub typ : Bytes
  pub remote_port : ℤ
  pub vhost_host : Bytes

-- A public connection (none for a UDP channel) that waits for the client's data connection.
pub record Pending : Type 0 where
  pub conn : Option ℕ
  pub tunnel_id : Bytes
  pub deadline : ℕ

pub record Manager : Type 0 where
  pub seq : ℕ
  pub tunnels : Map Bytes Tunnel
  pub ports : Map ℤ Bytes
  pub pending : Map Bytes Pending
  pub closed : List ℕ
  pub stopped : List Bytes

unfoldable pub new_manager : Manager
new_manager = record { seq = 0; tunnels = []; ports = []; pending = []; closed = []; stopped = [] }

-- `fmt.Sprintf("t_%d", seq)`
unfoldable pub tunnel_name : ℕ → Bytes
tunnel_name n = codes "t_" ++ decimal n

unfoldable pub tunnel_count : Manager → ℕ
tunnel_count m = length m.tunnels

unfoldable pub ports_of : Manager → List ℤ
ports_of m = map (λ e. e.0) m.ports

unfoldable pub all_tunnels : Manager → List Tunnel
all_tunnels m = map (λ e. e.1) m.tunnels

unfoldable pub tunnel_by_id : Manager → Bytes → Option Tunnel
tunnel_by_id m id = lookup id m.tunnels

-- One entry of the policy: "N", "N-M" or "*".
unfoldable pub entry_allows : Bytes → ℤ → Bool
entry_allows e port = if e == codes "*" then true else elim (cut_first b'-' e) [
  | some (l, r) ↦ elim (atoi l) [
    | none ↦ false
    | some lo ↦ elim (atoi r) [ none ↦ false | some hi ↦ lez lo port && lez port hi ]
  ]
  | none ↦ elim (atoi e) [ none ↦ false | some p ↦ p == port ]
]

unfoldable pub port_allowed : List Bytes → ℤ → Bool
port_allowed [] port = false
port_allowed (e ∷ es) port = entry_allows e port || port_allowed es port

pub data RegisterError : Type 0 where
  tunnel_limit invalid_port not_allowed listen_failed : RegisterError
  in_use : Bytes → RegisterError

pub data Registered : Type 0 where
  ok : Tunnel → Registered
  err : RegisterError → Registered

-- `maxTunnels > 0 && m.TunnelCount() >= maxTunnels`
unfoldable pub at_limit : Manager → ℤ → Bool
unfolding tunnel_count
at_limit m max_tunnels = ltz (pos 0) max_tunnels && lez max_tunnels (pos (tunnel_count m))

unfoldable pub valid_port : ℤ → Bool
valid_port p = lez (pos 1) p && lez p (pos 65535)

-- The tunnel that the next registration makes.
unfoldable pub fresh_tunnel : Manager → Bytes → Bytes → ℤ → Bytes → Tunnel
fresh_tunnel m name typ port host = record {
  id = tunnel_name (suc m.seq);
  name = name;
  typ = typ;
  remote_port = port;
  vhost_host = host;
}

-- `Register`; `listens` says whether the public listener could be started.
unfoldable pub register : Manager → Bytes → Bytes → ℤ → List Bytes → ℤ → Bool → Registered × Manager
register m name typ port allowed max_tunnels listens =
    let t = fresh_tunnel m name typ port [] in
    if at_limit m max_tunnels
    then (err tunnel_limit, m)
    else if not (valid_port port)
    then (err invalid_port, m)
    else if not (port_allowed allowed port)
    then (err not_allowed, m)
    else elim (lookup port m.ports) [
      | some owner ↦ (err (in_use owner), m)
      | none ↦
          (if listens
            then (
              ok t,
              record m {
                seq = suc m.seq;
                tunnels = insert t.id t m.tunnels;
                ports = insert port t.id m.ports;
              },
            )
            else (err listen_failed, record m { seq = suc m.seq }))
    ]

-- `AddVhostTunnel`: a tunnel with no port of its own.
unfoldable pub add_vhost_tunnel : Manager → Bytes → Bytes → ℤ → Registered × Manager
add_vhost_tunnel m name host max_tunnels =
    let t = fresh_tunnel m name (codes "http") (pos 0) host in
    if at_limit m max_tunnels
    then (err tunnel_limit, m)
    else (ok t, record m { seq = suc m.seq; tunnels = insert t.id t m.tunnels })

-- `closePendingConn`
abbrev pub close_pending : Pending → List ℕ → List ℕ
close_pending p closed = elim p.conn [ none ↦ closed | some c ↦ c ∷ closed ]

-- The connections that a loop over the pending table closes.
unfoldable pub close_where : (Pending → Bool) → Map Bytes Pending → List ℕ → List ℕ
close_where p [] closed = closed
close_where p ((id, pc) ∷ m) closed =
    close_where p m (if p pc then close_pending pc closed else closed)

-- `Unregister`
unfoldable pub unregister : Manager → Bytes → Manager
unregister m id = elim (lookup id m.tunnels) [
  | none ↦ m
  | some t ↦ record m {
    tunnels = delete id m.tunnels;
    ports = delete t.remote_port m.ports;
    pending = retain (λ _ pc. not (pc.tunnel_id == id)) m.pending;
    closed = close_where (λ pc. pc.tunnel_id == id) m.pending m.closed;
    stopped = id ∷ m.stopped;
  }
]

unfoldable pub unregister_each : List Bytes → Manager → Manager
unregister_each [] m = m
unregister_each (id ∷ ids) m = unregister_each ids (unregister m id)

-- `UnregisterAll`: the ids are collected first.
unfoldable pub unregister_all : Manager → Manager
unfolding unregister_each
unregister_all m = unregister_each (map (λ e. e.0) m.tunnels) m

abbrev pub second : ℕ
second = 1000000000

-- `OpenConnection`, with the random id and the clock as arguments; `none` is a failing generator.
unfoldable pub open_connection :
    Manager → Tunnel → Option ℕ → ℤ → ℕ → Option Bytes → Option Bytes × Manager
open_connection m t conn claim_timeout now none = (none, m)
open_connection m t conn claim_timeout now (some conn_id) =
    let wait = if lez claim_timeout (pos 0) then 10 * second else pos_part claim_timeout in
    let pc : Pending = record { conn = conn; tunnel_id = t.id; deadline = now + wait } in
    (some conn_id, record m { pending = insert conn_id pc m.pending })

pub data Claimed : Type 0 where
  paired : Option ℕ → Tunnel → Claimed
  unknown_conn claim_timed_out tunnel_gone : Claimed

-- `ClaimData`
unfoldable pub claim_data : Manager → Bytes → ℕ → Claimed × Manager
claim_data m conn_id now = elim (lookup conn_id m.pending) [
  | none ↦ (unknown_conn, m)
  | some pc ↦
      let taken = record m { pending = delete conn_id m.pending } in
      let dropped = record m {
        pending = delete conn_id m.pending;
        closed = close_pending pc m.closed;
      } in
      (if ltb pc.deadline now
        then (claim_timed_out, dropped)
        else elim (lookup pc.tunnel_id m.tunnels) [
          | none ↦ (tunnel_gone, dropped)
          | some t ↦ (paired pc.conn t, taken)
        ])
]

-- `CleanupExpired`
unfoldable pub cleanup_expired : Manager → ℕ → Manager
cleanup_expired m now = record m {
  pending = retain (λ _ pc. not (ltb pc.deadline now)) m.pending;
  closed = close_where (λ pc. ltb pc.deadline now) m.pending m.closed;
}
