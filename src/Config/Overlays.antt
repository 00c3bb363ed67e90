-- ===== src/Config/Overlays.antt =====
-- internal/config/resolve.go: the overlays of a file and of the environment. A struct is the list of
-- its fields with their tags, as reflection sees it; a table of TOML is the list of its entries in
-- the order of `sort.Strings`.
use qoqtun.Prelude.{
  ℕ, Bool, ◌&&◌, ◌||◌, Option, none, some, List, [], ◌∷◌, ◌++◌, ◌==◌, ◌-◌, if◌then◌else◌, length,
  leb, Bytes, codes, bytes_eq, nat_eq,
}
use qoqtun.Prelude.Int.{ℤ}

mutual
  pub data Field (F : Type 0) : Type 0 where
    string_field : Bytes → Field F
    bool_field : Bool → Field F
    int_field : ℤ → Field F
    float_field : F → Field F
    strings_field : List Bytes → Field F
    -- A slice of structs, with the zero value of their type.
    structs_field : Fields F → Structs F → Field F
    struct_field : Fields F → Field F

  pub data Fields (F : Type 0) : Type 0 where
    no_fields : Fields F
    field : Bytes → Field F → Fields F → Fields F

  pub data Structs (F : Type 0) : Type 0 where
    no_structs : Structs F
    struct : Fields F → Structs F → Structs F

mutual
  pub data Value (F : Type 0) : Type 0 where
    text : Bytes → Value F
    flag : Bool → Value F
    number : ℤ → Value F
    float : F → Value F
    texts : List Bytes → Value F
    elements : Values F → Value F
    table : Table F → Value F

  pub data Values (F : Type 0) : Type 0 where
    no_values : Values F
    value : Value F → Values F → Values F

  pub data Table (F : Type 0) : Type 0 where
    no_entries : Table F
    entry : Bytes → Value F → Table F → Table F

pub record Overlay (F : Type 0) : Type 0 where
  pub path : Bytes
  pub value : Value F

-- `findField`, and a struct with that field set.
unfoldable pub find_field : {F : Type 0} → Bytes → Fields F → Option (Field F)
find_field k no_fields = none
find_field k (field tag f fs) = let rest = find_field k fs in if tag == k then some f else rest

unfoldable pub put_field : {F : Type 0} → Bytes → Field F → Fields F → Fields F
put_field k g no_fields = no_fields
put_field k g (field tag f fs) =
    let rest = put_field k g fs in if tag == k then field tag g fs else field tag f rest

unfoldable pub as_struct : {F : Type 0} → Option (Field F) → Option (Fields F)
as_struct (some (struct_field fs)) = some fs
as_struct f = none

unfoldable pub find_struct : {F : Type 0} → Bytes → Fields F → Option (Fields F)
unfolding as_struct find_field
find_struct k fs = as_struct (find_field k fs)

unfoldable pub upper_byte : ℕ → ℕ
upper_byte c = if leb b'a' c && leb c b'z' then c - 32 else if c == b'.' then b'_' else c

-- A tag is of ASCII letters, so that `strings.ToUpper` goes byte by byte.
unfoldable pub env_name : Bytes → Bytes
unfolding upper_byte
env_name [] = []
env_name (c ∷ s) = upper_byte c ∷ env_name s

unfoldable pub join_path : Bytes → Bytes → Bytes
join_path prefix k = if length prefix == 0 then k else prefix ++ b'.' ∷ k

-- A list whose elements are all strings.
unfoldable pub all_strings : {F : Type 0} → Values F → Option (List Bytes)
all_strings no_values = some []
all_strings (value (text s) vs) = elim (all_strings vs) [ none ↦ none | some ss ↦ some (s ∷ ss) ]
all_strings (value v vs) = none

unfoldable pub of_list : {F : Type 0} → Values F → Value F
unfolding all_strings
of_list vs = elim (all_strings vs) [ none ↦ elements vs | some ss ↦ texts ss ]

-- `fileOverlays` is its `walk` at the empty prefix.
unfoldable mutual
  unfolding join_path of_list

  pub walk : {F : Type 0} → Bytes → Table F → List (Overlay F)
  walk prefix no_entries = []
  walk prefix (entry k v m) = walk_value (join_path prefix k) v ++ walk prefix m

  pub walk_value : {F : Type 0} → Bytes → Value F → List (Overlay F)
  walk_value path (table m) = walk path m
  walk_value path (elements vs) = record { path = path; value = of_list vs } ∷ []
  walk_value path v = record { path = path; value = v } ∷ []

-- `walkLeaves`: the paths that it visits.
unfoldable mutual
  unfolding join_path

  pub walk_leaves : {F : Type 0} → Bytes → Fields F → List Bytes
  walk_leaves prefix no_fields = []
  walk_leaves prefix (field tag f fs) =
      let rest = walk_leaves prefix fs in
      let own = walk_leaf (join_path prefix tag) f in
      if length tag == 0 || tag == codes "-" then rest else own ++ rest

  pub walk_leaf : {F : Type 0} → Bytes → Field F → List Bytes
  walk_leaf path (struct_field fs) = walk_leaves path fs
  walk_leaf path (strings_field ss) = []
  walk_leaf path (structs_field zero fss) = []
  walk_leaf path f = path ∷ []

-- `envOverlaysFor` with the prefix QOQTUN_.
unfoldable pub env_overlays : {F : Type 0} → (Bytes → Bytes) → List Bytes → List (Overlay F)
unfolding env_name
env_overlays getenv [] = []
env_overlays getenv (p ∷ ps) =
    let v = getenv (codes "QOQTUN_" ++ env_name p) in
    let rest = env_overlays getenv ps in
    if length v == 0 then rest else record { path = p; value = text v } ∷ rest
