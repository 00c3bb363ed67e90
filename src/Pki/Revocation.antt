-- ===== src/Pki/Revocation.antt =====
-- internal/pki/revoked.go: the serials of revoked certificates and their file.
use qoqtun.Prelude.{
  ℕ, Bool, true, false, List, [], ◌∷◌, ◌==◌, nat_eq, if◌then◌else◌, length, Bytes, bytes_eq,
  is_some,
}
use qoqtun.Prelude.Maps.{Map, lookup, insert}

pub record RevokedEntry : Type 0 where
  pub serial : Bytes
  pub revoked_at : ℕ
  pub reason : Bytes

pub record RevocationList : Type 0 where
  pub by_id : Map Bytes RevokedEntry
  pub file : List RevokedEntry

-- The loop of `LoadRevocationList`; a missing file has no entries.
unfoldable pub fill : List RevokedEntry → Map Bytes RevokedEntry → Map Bytes RevokedEntry
fill [] m = m
fill (e ∷ es) m = fill es (if length e.serial == 0 then m else insert e.serial e m)

-- `LoadRevocationList` of a file that parses.
unfoldable pub load_revocation_list : List RevokedEntry → RevocationList
unfolding fill
load_revocation_list es = record { by_id = fill es []; file = es }

unfoldable pub entries : Map Bytes RevokedEntry → List RevokedEntry
entries [] = []
entries ((k, e) ∷ m) = e ∷ entries m

-- `save`
unfoldable pub save : Bool → RevocationList → Bool × RevocationList
unfolding entries
save false l = (false, l)
save true l = (true, record l { file = entries l.by_id })

-- `Revoke`
unfoldable pub revoke : Bytes → Bytes → ℕ → Bool → RevocationList → Bool × RevocationList
unfolding save
revoke serial reason now saved l =
    if length serial == 0
    then (false, l)
    else save saved (record l {
      by_id = insert serial (record { serial = serial; revoked_at = now; reason = reason }) l.by_id;
    })

-- `IsRevoked`
unfoldable pub is_revoked : RevocationList → Bytes → Bool
is_revoked l serial = is_some (lookup serial l.by_id)
