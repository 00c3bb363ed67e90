-- ===== src/Metrics.antt =====
-- internal/metrics/metrics.go: the counters of clients and tunnels. A counter is an int64, taken as
-- an integer that does not overflow.
pub mod Rate
pub mod Counted
use qoqtun.Prelude.{
  ℕ, Bool, Option, none, some, List, [], ◌∷◌, ◌==◌, if◌then◌else◌, Bytes, bytes_eq,
}
use qoqtun.Prelude.Int.{ℤ, pos, negsuc, ltz, ◌+ℤ◌}
use qoqtun.Prelude.Maps.{Map, lookup, insert, delete}
use qoqtun.Metrics.Rate.{RateWindow, new_rate_window, add}

pub record TunnelStats : Type 0 where
  pub rx_bytes : ℤ
  pub tx_bytes : ℤ
  pub active_conns : ℤ
  pub total_conns : ℤ
  pub udp_rx_packets : ℤ
  pub udp_tx_packets : ℤ

pub record ClientStats : Type 0 where
  pub rx_bytes : ℤ
  pub tx_bytes : ℤ
  pub active_conns : ℤ
  pub total_conns : ℤ
  pub tunnels : Map Bytes TunnelStats

pub record Registry : Type 0 where
  pub clients : Map Bytes ClientStats
  pub global_rx : ℤ
  pub global_tx : ℤ
  pub global_conns : ℤ
  pub global_rate : RateWindow

unfoldable pub new_registry : Registry
unfolding new_rate_window
new_registry = record {
  clients = [];
  global_rx = pos 0;
  global_tx = pos 0;
  global_conns = pos 0;
  global_rate = new_rate_window;
}

abbrev pub new_tunnel_stats : TunnelStats
new_tunnel_stats = record {
  rx_bytes = pos 0;
  tx_bytes = pos 0;
  active_conns = pos 0;
  total_conns = pos 0;
  udp_rx_packets = pos 0;
  udp_tx_packets = pos 0;
}

abbrev pub new_client_stats : ClientStats
new_client_stats = record {
  rx_bytes = pos 0;
  tx_bytes = pos 0;
  active_conns = pos 0;
  total_conns = pos 0;
  tunnels = [];
}

-- `Client` and `Tunnel`: made on the first use.
unfoldable pub client_stats : Registry → Bytes → ClientStats
client_stats r id = elim (lookup id r.clients) [ none ↦ new_client_stats | some c ↦ c ]

unfoldable pub tunnel_stats : ClientStats → Bytes → TunnelStats
tunnel_stats c id = elim (lookup id c.tunnels) [ none ↦ new_tunnel_stats | some t ↦ t ]

unfoldable pub put_tunnel : Bytes → TunnelStats → ClientStats → ClientStats
put_tunnel id t c = record c { tunnels = insert id t c.tunnels }

unfoldable pub put_client : Bytes → ClientStats → Registry → Registry
put_client id c r = record r { clients = insert id c r.clients }

-- `RemoveClient`
unfoldable pub remove_client : Bytes → Registry → Registry
remove_client id r = record r { clients = delete id r.clients }

-- `RemoveTunnel`
unfoldable pub remove_tunnel : Bytes → Bytes → Registry → Registry
remove_tunnel id tunnel_id r = elim (lookup id r.clients) [
  | none ↦ r
  | some c ↦ put_client id (record c { tunnels = delete tunnel_id c.tunnels }) r
]

-- `RecordConn` at a time in seconds.
unfoldable pub record_conn : Bytes → Bytes → ℤ → ℤ → ℕ → Registry → Registry
record_conn id tunnel_id rx tx now r =
    let c = client_stats r id in
    let t = tunnel_stats c tunnel_id in
    let t' : TunnelStats = record t {
      rx_bytes = t.rx_bytes +ℤ rx;
      tx_bytes = t.tx_bytes +ℤ tx;
      active_conns = t.active_conns +ℤ negsuc 0;
    } in
    let c' : ClientStats = record c {
      rx_bytes = c.rx_bytes +ℤ rx;
      tx_bytes = c.tx_bytes +ℤ tx;
      active_conns = c.active_conns +ℤ negsuc 0;
    } in
    record (put_client id (put_tunnel tunnel_id t' c') r) {
      global_rx = r.global_rx +ℤ rx;
      global_tx = r.global_tx +ℤ tx;
      global_rate = add (rx +ℤ tx) now r.global_rate;
    }

-- `ConnOpened`
unfoldable pub conn_opened : Bytes → Bytes → Registry → Registry
conn_opened id tunnel_id r =
    let c = client_stats r id in
    let t = tunnel_stats c tunnel_id in
    let t' : TunnelStats = record t {
      active_conns = t.active_conns +ℤ pos 1;
      total_conns = t.total_conns +ℤ pos 1;
    } in
    let c' : ClientStats = record c {
      active_conns = c.active_conns +ℤ pos 1;
      total_conns = c.total_conns +ℤ pos 1;
    } in
    record (put_client id (put_tunnel tunnel_id t' c') r) { global_conns = r.global_conns +ℤ pos 1 }

-- `RecordUDP`: a count of packets for each direction.
unfoldable pub record_udp : Bytes → Bytes → ℤ → ℤ → Registry → Registry
record_udp id tunnel_id rx tx r =
    let c = client_stats r id in
    let t = tunnel_stats c tunnel_id in
    let t' : TunnelStats = record t {
      udp_rx_packets = if ltz (pos 0) rx then t.udp_rx_packets +ℤ rx else t.udp_rx_packets;
      udp_tx_packets = if ltz (pos 0) tx then t.udp_tx_packets +ℤ tx else t.udp_tx_packets;
    } in
    put_client id (put_tunnel tunnel_id t' c) r
