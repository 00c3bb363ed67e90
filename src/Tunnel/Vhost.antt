-- ===== src/Tunnel/Vhost.antt =====
-- internal/tunnel/vhost.go: the table that routes HTTP hosts to tunnels.
pub mod Routing
use qoqtun.Prelude.{
  ℕ, zero, suc, Bool, ◌&&◌, not, Option, none, some, [], ◌∷◌, if◌then◌else◌, ◌==◌, ltb, nat_eq,
  Bytes, bytes_eq, length, is_some,
}
use qoqtun.Prelude.Int.{int_eq}
use qoqtun.Prelude.Maps.{Map, lookup, insert, retain}
use qoqtun.Prelude.Strings.{has_suffix}

pub record Entry : Type 0 where
  pub tunnel_id : Bytes
  pub client_id : Bytes

abbrev pub VhostTable : Type 0
VhostTable = Map Bytes Entry

-- `Register`; `none` is ErrNameConflict.
unfoldable pub register : VhostTable → Bytes → Bytes → Bytes → Option VhostTable
register t host tunnel_id client_id =
    if is_some (lookup host t)
    then none
    else some (insert host (record { tunnel_id = tunnel_id; client_id = client_id }) t)

-- `UnregisterTunnel`
unfoldable pub unregister_tunnel : Bytes → VhostTable → VhostTable
unregister_tunnel id t = retain (λ _ e. not (e.tunnel_id == id)) t

unfoldable pub count : VhostTable → ℕ
count t = length t

-- A rule matches the hosts below it.
unfoldable pub below : Bytes → Bytes → Bool
below host rule = has_suffix host (b'.' ∷ rule)

-- The test of the loop of `Lookup`.
unfoldable pub improves : Bytes → ℕ → Bytes → Bool
improves host best_len rule = ltb best_len (length rule) && below host rule

-- The loop of `Lookup` over the rules, with the best length so far and its entry.
unfoldable pub best_suffix : Bytes → ℕ → Option Entry → VhostTable → Option Entry
best_suffix host best_len best [] = best
best_suffix host best_len best ((rule, e) ∷ t) =
    let better = improves host best_len rule in
    best_suffix host (if better then length rule else best_len) (if better then some e else best) t

-- `Lookup`
unfoldable pub route : VhostTable → Bytes → Option Entry
route t host = elim (lookup host t) [ some e ↦ some e | none ↦ best_suffix host 0 none t ]
