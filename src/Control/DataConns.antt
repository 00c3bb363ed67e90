-- ===== src/Control/DataConns.antt =====
-- internal/control/server.go: data connections. A connection that carries a channel or a splice ends
-- in an event of its own.
use qoqtun.Prelude.{
  ℕ, ◌&&◌, Option, none, some, List, [], ◌∷◌, ◌*◌, ◌==◌, if◌then◌else◌, Bytes, codes, bytes_eq,
  nat_eq, Bool,
}
use qoqtun.Prelude.Int.{ℤ, pos}
use qoqtun.Prelude.Maps.{insert, delete}
use qoqtun.Protocol.Messages.{OpenData}
use qoqtun.Protocol.Validate.{validate_open_data}
use qoqtun.Tunnel.Manager.{
  Tunnel, Manager, Claimed, paired, claim_data, open_connection, second, unknown_conn,
  claim_timed_out, tunnel_gone,
}
use qoqtun.Session.{Session, get}
use qoqtun.Metrics.{conn_opened, record_conn}
use qoqtun.Control.DataQuota.{acquire_data_quota, release_data_quota}
use qoqtun.Control.Server.{
  Server, Outside, Frame, Channel, send, close_conn, manager_for, put_manager, use_buckets,
}

unfoldable pub is_channel_of : Bytes → Bytes → Channel → Bool
is_channel_of id tunnel_id ch = ch.client_id == id && ch.tunnel_id == tunnel_id

-- The channels that `SetUDPChannel` closes, and those that it leaves.
unfoldable pub old_channels : Bytes → Bytes → List Channel → List ℕ → List ℕ
old_channels id tunnel_id [] closed = closed
old_channels id tunnel_id (ch ∷ chs) closed =
    old_channels id tunnel_id chs
      (if is_channel_of id tunnel_id ch then ch.conn ∷ closed else closed)

unfoldable pub other_channels : Bytes → Bytes → List Channel → List Channel
other_channels id tunnel_id [] = []
other_channels id tunnel_id (ch ∷ chs) =
    let rest = other_channels id tunnel_id chs in
    if is_channel_of id tunnel_id ch then rest else ch ∷ rest

-- `udpChannelReadLoop` on its end: the channel is forgotten if it is still the tunnel's.
unfoldable pub drop_channel : Bytes → Bytes → ℕ → List Channel → List Channel
drop_channel id tunnel_id conn [] = []
drop_channel id tunnel_id conn (ch ∷ chs) =
    let rest = drop_channel id tunnel_id conn chs in
    if is_channel_of id tunnel_id ch && (ch.conn == conn) then rest else ch ∷ rest

module _ {Limiter : Type 0} where
  -- `SetUDPChannel`
  unfoldable pub set_udp_channel : Bytes → Bytes → ℕ → Server Limiter → Server Limiter
  unfolding is_channel_of
  set_udp_channel id tunnel_id conn s = record s {
    channels =
        record { client_id = id; tunnel_id = tunnel_id; conn = conn }
        ∷ other_channels id tunnel_id s.channels;
    closed = old_channels id tunnel_id s.channels s.closed;
  }

  abbrev pub close_public : Option ℕ → Server Limiter → Server Limiter
  close_public none s = s
  close_public (some public) s = record s { closed = public ∷ s.closed }

  -- A claim for a UDP tunnel.
  unfoldable pub start_channel : Bytes → Tunnel → Option ℕ → ℕ → Server Limiter → Server Limiter
  unfolding set_udp_channel
  start_channel id t public conn s =
      let s' = close_public public s in
      let q = acquire_data_quota id t.id s'.quotas in
      let s'' : Server Limiter = record s' { quotas = q.1 } in
      if q.0
      then set_udp_channel id t.id conn
          (use_buckets id t.id (record s'' { stats = conn_opened id t.id s''.stats }))
      else close_conn conn s''

  -- A claim for any other tunnel: the splice starts.
  unfoldable pub start_data :
      Bytes → Bytes → Tunnel → Option ℕ → ℕ → Server Limiter → Server Limiter
  unfolding start_channel
  start_data id conn_id t public conn s =
      if t.typ == codes "udp"
      then start_channel id t public conn s
      else record s { data_conns = insert conn_id conn s.data_conns }

  -- `ClaimData` and what follows.
  unfoldable pub claimed : Bytes → Bytes → ℕ → Server Limiter → Claimed × Manager → Server Limiter
  unfolding start_data
  claimed id conn_id conn s (paired public t, m) =
      start_data id conn_id t public conn (put_manager id m s)
  claimed id conn_id conn s (unknown_conn, m) = close_conn conn (put_manager id m s)
  claimed id conn_id conn s (claim_timed_out, m) = close_conn conn (put_manager id m s)
  claimed id conn_id conn s (tunnel_gone, m) = close_conn conn (put_manager id m s)

  unfoldable pub claim : Bytes → Bytes → ℕ → ℕ → Server Limiter → Server Limiter
  unfolding claimed
  claim id conn_id conn now s =
      claimed id conn_id conn s (claim_data (manager_for id s) conn_id now)

  -- `handleDataConn`: a payload that is not valid ends the handler, with the connection open.
  unfoldable pub handle_data_conn :
      Bytes → Option OpenData → ℕ → ℕ → Server Limiter → Server Limiter
  unfolding claim
  handle_data_conn id none conn now s = s
  handle_data_conn id (some d) conn now s = elim (validate_open_data (some d)) [
    | some p ↦ s
    | none ↦ claim id d.conn_id conn now s
  ]

  -- The end of a splice: what was read and written, and the deferred calls.
  unfoldable pub splice_done : Bytes → Bytes → Bytes → ℤ → ℤ → ℕ → Server Limiter → Server Limiter
  splice_done id tunnel_id conn_id rx tx now s = record s {
    stats = record_conn id tunnel_id rx tx now s.stats;
    quotas = release_data_quota id tunnel_id s.quotas;
    data_conns = delete conn_id s.data_conns;
  }

  unfoldable pub reopen :
      Bytes → Tunnel → Option Session → Server Limiter → Option Bytes × Manager → Server Limiter
  reopen id t none s o = s
  reopen id t (some sess) s (none, m) = s
  reopen id t (some sess) s (some conn_id, m) =
      send sess.conn (Frame.open_connection conn_id t.id) (put_manager id m s)

  -- `OnUDPChannelClosed`
  unfoldable pub channel_closed : Bytes → Tunnel → ℕ → Outside → Server Limiter → Server Limiter
  unfolding drop_channel is_channel_of reopen
  channel_closed id t conn w s =
      reopen id t (get s.sessions id)
        (record s {
          channels = drop_channel id t.id conn s.channels;
          quotas = release_data_quota id t.id s.quotas;
          closed = conn ∷ s.closed;
        })
        (open_connection (manager_for id s) t none (pos (10 * second)) w.now w.fresh_id)
