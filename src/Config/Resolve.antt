-- ===== src/Config/Resolve.antt =====
-- internal/config/resolve.go: the overlays of the layers of a configuration are applied in order.
-- Printing and parsing floating-point numbers are parameters.
pub mod Merged
use qoqtun.Prelude.{
  ℕ, Bool, true, false, ◌&&◌, ◌||◌, Option, none, some, List, [], ◌∷◌, ◌++◌, ◌==◌, ◌-◌,
  if◌then◌else◌, length, leb, Bytes, codes, bytes_eq, nat_eq, suc,
}
use qoqtun.Prelude.Int.{ℤ, pos, negsuc}
use qoqtun.Prelude.Strings.{atoi, decimal, split}
use qoqtun.Config.Overlays.{
  Field, Fields, Structs, Value, Values, Table, Overlay, find_field, put_field, as_struct,
  find_struct, upper_byte, env_name, join_path, all_strings, of_list, walk, walk_value, walk_leaves,
  walk_leaf, env_overlays, string_field, bool_field, int_field, float_field, strings_field,
  structs_field, struct_field, no_fields, field, no_structs, struct, text, flag, number, float,
  texts, elements, table, no_values, value, no_entries, entry,
}

pub record FloatText : Type 1 where
  pub Float : Type 0
  pub sprint : Float → Bytes
  pub parse_float : Bytes → Option Float

-- `strconv.ParseBool`
abbrev pub true_texts : List Bytes
true_texts = codes "1" ∷ codes "t" ∷ codes "T" ∷ codes "true" ∷ codes "TRUE" ∷ codes "True" ∷ []

abbrev pub false_texts : List Bytes
false_texts = codes "0" ∷ codes "f" ∷ codes "F" ∷ codes "false" ∷ codes "FALSE" ∷ codes "False" ∷ []

unfoldable pub is_one_of : Bytes → List Bytes → Bool
is_one_of s [] = false
is_one_of s (t ∷ ts) = s == t || is_one_of s ts

unfoldable pub parse_bool : Bytes → Option Bool
unfolding is_one_of
parse_bool s =
    if is_one_of s true_texts
    then some true
    else if is_one_of s false_texts
    then some false
    else none

-- `fmt.Sprint` of an integer.
unfoldable pub sprint_int : ℤ → Bytes
sprint_int (pos n) = decimal n
sprint_int (negsuc n) = b'-' ∷ decimal (suc n)

module _ (floats : FloatText) where
  -- `fmt.Sprint` of a value that a number or a truth value can be read from.
  unfoldable pub sprint_value : Value floats.Float → Option Bytes
  unfolding sprint_int
  sprint_value (text s) = some s
  sprint_value (flag true) = some (codes "true")
  sprint_value (flag false) = some (codes "false")
  sprint_value (number n) = some (sprint_int n)
  sprint_value (float x) = some (floats.sprint x)
  sprint_value v = none

  -- `setField` on a field that is no slice.
  unfoldable pub set_scalar : Field floats.Float → Value floats.Float → Option (Field floats.Float)
  unfolding sprint_value parse_bool
  set_scalar (string_field old) (text s) = some (string_field s)
  set_scalar (bool_field old) v = elim (sprint_value v) [
    | none ↦ none
    | some s ↦ elim (parse_bool s) [ none ↦ none | some b ↦ some (bool_field b) ]
  ]
  set_scalar (int_field old) v = elim (sprint_value v) [
    | none ↦ none
    | some s ↦ elim (atoi s) [ none ↦ none | some n ↦ some (int_field n) ]
  ]
  set_scalar (float_field old) v = elim (sprint_value v) [
    | none ↦ none
    | some s ↦ elim (floats.parse_float s) [ none ↦ none | some x ↦ some (float_field x) ]
  ]
  set_scalar f v = none

  -- `setField`, its loop over the tables of an array, and `buildFromMap`.
  unfoldable mutual
    unfolding set_scalar find_struct find_field put_field

    pub set_field : Field floats.Float → Value floats.Float → Option (Field floats.Float)
    set_field (strings_field old) (texts ss) = some (strings_field ss)
    set_field (structs_field zero old) (elements vs) = elim (build_all zero vs) [
      | none ↦ none
      | some es ↦ some (structs_field zero es)
    ]
    set_field f v = set_scalar f v

    pub build_all : Fields floats.Float → Values floats.Float → Option (Structs floats.Float)
    build_all zero no_values = some no_structs
    build_all zero (value (table m) vs) =
        let rest = build_all zero vs in
        elim (build_from_map zero m) [
          | none ↦ none
          | some e ↦ elim rest [ none ↦ none | some es ↦ some (struct e es) ]
        ]
    build_all zero (value v vs) = none

    pub build_from_map : Fields floats.Float → Table floats.Float → Option (Fields floats.Float)
    build_from_map fs no_entries = some fs
    build_from_map fs (entry k (table sub) m) = elim (find_struct k fs) [
      | none ↦ none
      | some gs ↦ elim (build_from_map gs sub) [
        | none ↦ none
        | some hs ↦ build_from_map (put_field k (struct_field hs) fs) m
      ]
    ]
    build_from_map fs (entry k v m) = elim (find_field k fs) [
      | none ↦ none
      | some f ↦ elim (set_field f v) [ none ↦ none | some g ↦ build_from_map (put_field k g fs) m ]
    ]

  -- `applyOne`, from the field that the first part of the path is looked up in.
  unfoldable pub apply_one :
      Field floats.Float → List Bytes → Value floats.Float → Option (Field floats.Float)
  unfolding set_field find_field put_field
  apply_one f [] v = set_field f v
  apply_one (struct_field fs) (k ∷ ks) v = elim (find_field k fs) [
    | none ↦ none
    | some f ↦ elim (apply_one f ks v) [
      | none ↦ none
      | some g ↦ some (struct_field (put_field k g fs))
    ]
  ]
  apply_one f (k ∷ ks) v = none

  abbrev pub parts : Bytes → List Bytes
  parts path = let (k, ks) = split b'.' path in k ∷ ks

  -- `ApplyOverlays`
  unfoldable pub apply_overlays :
      List (Overlay floats.Float) → Field floats.Float → Option (Field floats.Float)
  unfolding apply_one
  apply_overlays [] c = some c
  apply_overlays (o ∷ os) c = elim (apply_one c (parts o.path) o.value) [
    | none ↦ none
    | some c' ↦ apply_overlays os c'
  ]

  -- `ResolveServer` and `ResolveClient`, up to the validation of the result.
  unfoldable pub merge :
      Field floats.Float
      → List (Overlay floats.Float)
      → List (Overlay floats.Float)
      → (Bytes → Bytes)
      → Option (Field floats.Float)
  unfolding apply_overlays env_overlays walk_leaf
  merge defaults file_overlays cli_overlays getenv =
      apply_overlays (file_overlays ++ env_overlays getenv (walk_leaf [] defaults) ++ cli_overlays)
        defaults
