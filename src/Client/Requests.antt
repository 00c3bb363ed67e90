-- ===== src/Client/Requests.antt =====
-- internal/clientcore/client.go: the request that a tunnel of the configuration is registered with
-- (cmd/client/main.go copies the one to the other).
use qoqtun.Prelude.{
  Bool, ◌&&◌, not, none, some, ◌==◌, if◌then◌else◌, length, Bytes, codes, bytes_eq, nat_eq,
}
use qoqtun.Prelude.Int.{ℤ}
use qoqtun.Protocol.Messages.{RegisterTunnel}
use qoqtun.Config.Client.{TunnelConfig}

pub record TunnelSpec : Type 0 where
  pub name : Bytes
  pub kind : Bytes
  pub remote_port : ℤ
  pub local_ip : Bytes
  pub local_port : ℤ
  pub http_host : Bytes
  pub enabled : Bool

unfoldable pub spec_of : TunnelConfig → TunnelSpec
spec_of t = record {
  name = t.name;
  kind = t.kind;
  remote_port = t.remote_port;
  local_ip = t.local_ip;
  local_port = t.local_port;
  http_host = t.http_host;
  enabled = t.enabled;
}

-- The request that `RegisterTunnel` sends.
unfoldable pub request_of : TunnelSpec → RegisterTunnel
request_of t = record {
  name = t.name;
  kind = t.kind;
  remote_port = t.remote_port;
  local = record { ip = t.local_ip; port = t.local_port };
  http = if t.kind == codes "http" && not (length t.http_host == 0) then some t.http_host else none;
}
