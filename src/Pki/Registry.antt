-- ===== src/Pki/Registry.antt =====
-- internal/pki/registry.go: the enrolled clients and their file, which holds the records themselves
-- for the JSON. A write is atomic, and its outcome is an argument.
use qoqtun.Prelude.{
  ℕ, Bool, true, false, Option, List, [], ◌∷◌, ◌==◌, nat_eq, if◌then◌else◌, length, Bytes, bytes_eq,
  is_some,
}
use qoqtun.Prelude.Maps.{Map, lookup, insert}
use qoqtun.Pki.Sign.{valid_client_id}

pub record ClientRecord : Type 0 where
  pub client_id : Bytes
  pub name : Bytes
  pub note : Bytes
  pub cert_serial : Bytes
  pub created_at : ℕ

pub record ClientRegistry : Type 0 where
  pub by_id : Map Bytes ClientRecord
  pub file : List ClientRecord

-- The loop of `LoadClientRegistry`; a missing file has no records.
unfoldable pub fill : List ClientRecord → Map Bytes ClientRecord → Map Bytes ClientRecord
fill [] m = m
fill (r ∷ rs) m = fill rs (if length r.client_id == 0 then m else insert r.client_id r m)

-- `LoadClientRegistry` of a file that parses.
unfoldable pub load_client_registry : List ClientRecord → ClientRegistry
unfolding fill
load_client_registry rs = record { by_id = fill rs []; file = rs }

unfoldable pub records : Map Bytes ClientRecord → List ClientRecord
records [] = []
records ((k, r) ∷ m) = r ∷ records m

-- `save`
unfoldable pub save : Bool → ClientRegistry → Bool × ClientRegistry
unfolding records
save false r = (false, r)
save true r = (true, record r { file = records r.by_id })

-- `Add`
unfoldable pub add : ClientRecord → Bool → ClientRegistry → Bool × ClientRegistry
unfolding save
add rec saved r =
    if valid_client_id rec.client_id
    then save saved (record r { by_id = insert rec.client_id rec r.by_id })
    else (false, r)

-- `Get` and `Exists`
unfoldable pub get : ClientRegistry → Bytes → Option ClientRecord
get r id = lookup id r.by_id

unfoldable pub exists : ClientRegistry → Bytes → Bool
exists r id = is_some (lookup id r.by_id)
