-- ===== src/Auth/TokenStore/Spent.antt =====
-- internal/auth/store.go: a used token in the map and in the file.
use qoqtun.Prelude.{
  ℕ, ◌≡◌, refl, Bool, true, false, ◌&&◌, ◌||◌, not, some, List, [], ◌∷◌, arith, ◌==◌, nat_eq, Bytes,
  bytes_eq, length, is_some, Bool-cases, inl, inr, bytes_beq_iff, bytes_beq_refl,
}
use qoqtun.Prelude.Int.{int_eq}
use qoqtun.Prelude.Maps.{Map, lookup, insert, retain, lookup-insert}
use qoqtun.Auth.TokenStore.{TokenRecord, fill, values, keeps}

-- Every record stands under its own id, which is not empty.
unfoldable pub keyed : Map Bytes TokenRecord → Bool
keyed [] = true
keyed ((k, r) ∷ m) = k == r.token_id && not (length k == 0) && keyed m

-- No record of the id is unused.
unfoldable pub spent : Bytes → Map Bytes TokenRecord → Bool
spent id [] = true
spent id ((k, r) ∷ m) = (not (k == id) || r.used) && spent id m

unfoldable pub spent_in : Bytes → List TokenRecord → Bool
spent_in id [] = true
spent_in id (r ∷ rs) = (not (r.token_id == id) || r.used) && spent_in id rs

unfoldable pub listed : Bytes → List TokenRecord → Bool
listed id [] = false
listed id (r ∷ rs) = r.token_id == id || listed id rs

-- The token is in the map, and used.
abbrev pub IsSpent : Bytes → Map Bytes TokenRecord → Type 0
IsSpent id m = (keyed m ≡ true) × (spent id m ≡ true) × (is_some (lookup id m) ≡ true)

pub keyed-insert :
    (k : Bytes) (r : TokenRecord) (m : Map Bytes TokenRecord)
    → (k == r.token_id) ≡ true
    → (length k == 0) ≡ false
    → keyed m ≡ true
    → keyed (insert k r m) ≡ true
unfolding keyed insert
keyed-insert k r [] a b h = ground arith
keyed-insert k r ((j, s) ∷ m) a b h = ground (arith, keyed-insert k r m a b)

pub spent-insert :
    (id k : Bytes) (r : TokenRecord) (m : Map Bytes TokenRecord)
    → (not (k == id) || r.used) ≡ true
    → spent id m ≡ true
    → spent id (insert k r m) ≡ true
unfolding spent insert
spent-insert id k r [] u h = ground arith
spent-insert id k r ((j, s) ∷ m) u h = ground (arith, spent-insert id k r m u)

pub keyed-lookup :
    (id : Bytes) (r : TokenRecord) (m : Map Bytes TokenRecord)
    → keyed m ≡ true
    → lookup id m ≡ some r
    → ((id == r.token_id) ≡ true) × ((length id == 0) ≡ false)
unfolding keyed lookup
keyed-lookup id r [] h q = ground arith
keyed-lookup id r ((j, s) ∷ m) h q =
    ground (arith, keyed-lookup id r m, bytes_beq_iff j id, bytes_beq_iff j s.token_id)

pub spent-lookup :
    (id : Bytes) (r : TokenRecord) (m : Map Bytes TokenRecord)
    → spent id m ≡ true
    → lookup id m ≡ some r
    → r.used ≡ true
unfolding spent lookup
spent-lookup id r [] h q = ground arith
spent-lookup id r ((j, s) ∷ m) h q = ground (arith, spent-lookup id r m)

-- A purge keeps used tokens.
pub spent-retain :
    (id : Bytes) (now : ℕ) (m : Map Bytes TokenRecord)
    → spent id m ≡ true
    → spent id (retain (keeps now) m) ≡ true
unfolding spent retain
spent-retain id now [] h = h
spent-retain id now ((j, s) ∷ m) h = ground (arith, spent-retain id now m)

pub lookup-retain-spent :
    (id : Bytes) (now : ℕ) (m : Map Bytes TokenRecord)
    → spent id m ≡ true
    → is_some (lookup id m) ≡ true
    → is_some (lookup id (retain (keeps now) m)) ≡ true
unfolding spent lookup retain keeps
lookup-retain-spent id now [] h q = q
lookup-retain-spent id now ((j, s) ∷ m) h q = elim (Bool-cases (keeps now j s)) [
  | inl e ↦ rw e (ground (arith, lookup-retain-spent id now m))
  | inr e ↦ rw e (ground (arith, lookup-retain-spent id now m))
]

pub keyed-retain :
    (now : ℕ) (m : Map Bytes TokenRecord) → keyed m ≡ true → keyed (retain (keeps now) m) ≡ true
unfolding keyed retain
keyed-retain now [] h = h
keyed-retain now ((j, s) ∷ m) h = ground (arith, keyed-retain now m)

pub spent-values :
    (id : Bytes) (m : Map Bytes TokenRecord)
    → keyed m ≡ true
    → spent id m ≡ true
    → spent_in id (values m) ≡ true
unfolding keyed spent spent_in values
spent-values id [] k h = refl
spent-values id ((j, s) ∷ m) k h = ground (arith, spent-values id m, bytes_beq_iff j s.token_id)

pub listed-values :
    (id : Bytes) (m : Map Bytes TokenRecord)
    → keyed m ≡ true
    → is_some (lookup id m) ≡ true
    → listed id (values m) ≡ true
unfolding keyed lookup listed values
listed-values id [] k h = ground arith
listed-values id ((j, s) ∷ m) k h = ground (arith, listed-values id m, bytes_beq_iff j s.token_id)

-- Reading a list of records back.
pub keyed-fill :
    (rs : List TokenRecord) (m : Map Bytes TokenRecord) → keyed m ≡ true → keyed (fill rs m) ≡ true
unfolding fill
keyed-fill [] m h = h
keyed-fill (r ∷ rs) m h = elim (Bool-cases (length r.token_id == 0)) [
  | inl e ↦ rw e (keyed-fill rs m h)
  | inr e ↦ rw e (
      keyed-fill rs (insert r.token_id r m)
        (keyed-insert r.token_id r m (bytes_beq_refl r.token_id) e h))
]

pub spent-fill :
    (id : Bytes) (rs : List TokenRecord) (m : Map Bytes TokenRecord)
    → spent_in id rs ≡ true
    → spent id m ≡ true
    → spent id (fill rs m) ≡ true
unfolding fill spent_in
spent-fill id [] m u h = h
spent-fill id (r ∷ rs) m u h = elim (Bool-cases (length r.token_id == 0)) [
  | inl e ↦ rw e (spent-fill id rs m (ground arith) h)
  | inr e ↦ rw e (
      spent-fill id rs (insert r.token_id r m) (ground arith)
        (spent-insert id r.token_id r m (ground arith) h))
]

pub lookup-fill :
    (id : Bytes) (rs : List TokenRecord) (m : Map Bytes TokenRecord)
    → (length id == 0) ≡ false
    → (listed id rs || is_some (lookup id m)) ≡ true
    → is_some (lookup id (fill rs m)) ≡ true
unfolding fill listed
lookup-fill id [] m ne h = ground arith
lookup-fill id (r ∷ rs) m ne h = elim (Bool-cases (length r.token_id == 0)) [
  | inl e ↦ rw e (lookup-fill id rs m ne (ground (arith, bytes_beq_iff r.token_id id)))
  | inr e ↦ rw e (
      lookup-fill id rs (insert r.token_id r m) ne
        (ground (arith, lookup-insert r.token_id id r m)))
]

pub IsSpent-retain :
    (id : Bytes) (now : ℕ) (m : Map Bytes TokenRecord)
    → IsSpent id m
    → IsSpent id (retain (keeps now) m)
IsSpent-retain id now m h =
    (keyed-retain now m h.0, spent-retain id now m h.1, lookup-retain-spent id now m h.1 h.2)

pub IsSpent-insert :
    (id k : Bytes) (r : TokenRecord) (m : Map Bytes TokenRecord)
    → (k == r.token_id) ≡ true
    → (length k == 0) ≡ false
    → (not (k == id) || r.used) ≡ true
    → IsSpent id m
    → IsSpent id (insert k r m)
IsSpent-insert id k r m own named u h = (
  keyed-insert k r m own named h.0,
  spent-insert id k r m u h.1,
  ground (arith, lookup-insert k id r m, h.2),
)
