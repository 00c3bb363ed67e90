-- ===== src/Session.antt =====
-- internal/session/session.go: the registry of connected clients. A `*Session` is the number of its
-- control connection, which is fresh for each connection; the counters of a session stand in a
-- record of their own.
use qoqtun.Prelude.{ℕ, Option, List, if◌then◌else◌, Bytes, bytes_eq, nat_eq, length, map, is_some}
use qoqtun.Prelude.Maps.{Map, lookup, insert, delete}

pub record Session : Type 0 where
  pub client_id : Bytes
  pub conn : ℕ
  pub tunnels : ℕ
  pub conns : ℕ
  pub last_active : ℕ

unfoldable pub touch : ℕ → Session → Session
touch now s = record s { last_active = now }

unfoldable pub set_tunnels : ℕ → Session → Session
set_tunnels n s = record s { tunnels = n }

unfoldable pub set_conns : ℕ → Session → Session
set_conns n s = record s { conns = n }

abbrev pub Registry : Type 0
Registry = Map Bytes Session

pub data RegisterResult : Type 0 where
  registered : Registry → RegisterResult
  exists : RegisterResult

unfoldable pub register : Registry → Session → RegisterResult
register r s =
    if is_some (lookup s.client_id r) then exists else registered (insert s.client_id s r)

-- `Unregister` removes by client id, whichever session stands there.
unfoldable pub unregister : Registry → Bytes → Option Session × Registry
unregister r id = (lookup id r, delete id r)

unfoldable pub get : Registry → Bytes → Option Session
get r id = lookup id r

unfoldable pub len : Registry → ℕ
len r = length r

unfoldable pub all : Registry → List Session
all r = map (λ e. e.1) r
