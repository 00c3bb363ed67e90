-- ===== src/Config/Resolve/Merged.antt =====
-- internal/config/resolve.go: which layer a field of the merged configuration comes from.
use qoqtun.Prelude.{
  ◌≡◌, refl, ◌∙◌, sym, subst, Bool, true, false, Option, none, some, List, [], ◌∷◌, ◌++◌, ◌==◌,
  if◌then◌else◌, Bytes, bytes_eq, Bool-cases, Option-cases, inl, inr, arith, ◌&&◌, ap, ==_eq,
}
use qoqtun.Config.Overlays.{
  Field, Fields, Value, Overlay, string_field, bool_field, int_field, float_field, strings_field,
  structs_field, struct_field, no_fields, field, find_field, put_field, env_overlays, walk_leaf,
}
use qoqtun.Config.Resolve.{
  FloatText, set_field, set_scalar, apply_one, apply_overlays, parts, merge, sprint_value,
}

-- What stands at a path, if no part of it leads through anything but structs.
unfoldable pub leaf : {F : Type 0} → Field F → Option (Field F)
leaf (struct_field fs) = none
leaf f = some f

unfoldable pub field_at : {F : Type 0} → List Bytes → Field F → Option (Field F)
unfolding leaf find_field
field_at [] f = leaf f
field_at (k ∷ ks) (struct_field fs) = elim (find_field k fs) [
  | none ↦ none
  | some g ↦ field_at ks g
]
field_at (k ∷ ks) f = none

unfoldable pub same_path : List Bytes → List Bytes → Bool
same_path [] [] = true
same_path (a ∷ as') (b ∷ bs) = a == b && same_path as' bs
same_path a b = false

find-put_self :
    {F : Type 0} (k : Bytes) (f g : Field F) (fs : Fields F)
    → find_field k fs ≡ some f
    → find_field k (put_field k g fs) ≡ some g
unfolding find_field put_field
find-put_self k f g no_fields h = ground (arith, h)
find-put_self k f g (field tag old fs) h = elim (Bool-cases (tag == k)) [
  | inl e ↦ rw e (rw e refl)
  | inr e ↦ rw (e, find-put_self k f g fs (rw e at h)) (rw e refl)
]

find-put_other :
    {F : Type 0} (k j : Bytes) (g : Field F) (fs : Fields F)
    → (k == j) ≡ false
    → find_field j (put_field k g fs) ≡ find_field j fs
unfolding find_field put_field
find-put_other k j g no_fields ne = refl
find-put_other k j g (field tag old fs) ne = elim (Bool-cases (tag == k)) [
  | inl e ↦
      let apart : (tag == j) ≡ false = subst (λ x. (x == j) ≡ false) (sym (==_eq tag k e)) ne in
      rw (e, apart) refl
  | inr e ↦ rw (e, find-put_other k j g fs ne) refl
]

some-leaf :
    (floats : FloatText) (f g : Field floats.Float) (v : Value floats.Float)
    → set_field floats f v ≡ some g
    → leaf g ≡ some g
unfolding set_field set_scalar leaf sprint_value
some-leaf floats (string_field s) g v h = ground (arith, h)
some-leaf floats (bool_field s) g v h = ground (arith, h)
some-leaf floats (int_field s) g v h = ground (arith, h)
some-leaf floats (float_field s) g v h = ground (arith, h)
some-leaf floats (strings_field s) g v h = ground (arith, h)
some-leaf floats (structs_field z s) g v h = ground (arith, h)
some-leaf floats (struct_field s) g v h = ground (arith, h)

field_at-down :
    {F : Type 0} (j : Bytes) (js : List Bytes) (fs : Fields F) (f : Field F)
    → find_field j fs ≡ some f
    → field_at (j ∷ js) (struct_field fs) ≡ field_at js f
unfolding field_at
field_at-down j js fs f h = rw (field_at, h) refl

field_at-beside :
    {F : Type 0} (j : Bytes) (js : List Bytes) (fs gs : Fields F)
    → find_field j gs ≡ find_field j fs
    → field_at (j ∷ js) (struct_field gs) ≡ field_at (j ∷ js) (struct_field fs)
unfolding field_at
field_at-beside j js fs gs h = rw (field_at, h) refl

-- A value that is set at a path keeps its kind, so that nothing is below it.
leaf-below :
    (floats : FloatText) (f g : Field floats.Float) (v : Value floats.Float) (k : Bytes)
    (ks : List Bytes)
    → set_field floats f v ≡ some g
    → field_at (k ∷ ks) g ≡ field_at (k ∷ ks) f
unfolding set_field set_scalar field_at sprint_value
leaf-below floats (string_field s) g v k ks h = ground (arith, h)
leaf-below floats (bool_field s) g v k ks h = ground (arith, h)
leaf-below floats (int_field s) g v k ks h = ground (arith, h)
leaf-below floats (float_field s) g v k ks h = ground (arith, h)
leaf-below floats (strings_field s) g v k ks h = ground (arith, h)
leaf-below floats (structs_field z s) g v k ks h = ground (arith, h)
leaf-below floats (struct_field s) g v k ks h = ground (arith, h)

module _ (floats : FloatText) where
  -- A value that an overlay puts over what is at its path.
  unfoldable pub over :
      Option (Field floats.Float) → Value floats.Float → Option (Field floats.Float)
  unfolding set_field
  over none v = none
  over (some f) v = set_field floats f v

  over-leaf :
      (f g : Field floats.Float) (v : Value floats.Float)
      → set_field floats f v ≡ some g
      → over (leaf f) v ≡ some g
  unfolding over leaf set_field set_scalar
  over-leaf (string_field s) g v h = h
  over-leaf (bool_field s) g v h = h
  over-leaf (int_field s) g v h = h
  over-leaf (float_field s) g v h = h
  over-leaf (strings_field s) g v h = h
  over-leaf (structs_field z s) g v h = h
  over-leaf (struct_field s) g v h = ground (arith, h)

  -- What an overlay does in a struct.
  applied :
      (fs : Fields floats.Float) (g : Field floats.Float) (k : Bytes) (ks : List Bytes)
      (v : Value floats.Float)
      → apply_one floats (struct_field fs) (k ∷ ks) v ≡ some g
      → (f : Field floats.Float) × (f' : Field floats.Float) × (find_field k fs ≡ some f)
        × (apply_one floats f ks v ≡ some f')
        × (g ≡ struct_field (put_field k f' fs))
  unfolding apply_one
  applied fs g k ks v h = elim (Option-cases (find_field k fs)) [
    | inl gone ↦ ground (arith, h, gone)
    | inr (f, there) ↦ elim (Option-cases (apply_one floats f ks v)) [
      | inl failed ↦ ground (arith, rw (apply_one, there, failed) at h)
      | inr (f', done) ↦ (f, f', there, done, ground (arith, rw (apply_one, there, done) at h))
    ]
  ]

  field_at-apply_one :
      (f g : Field floats.Float) (ks js : List Bytes) (v : Value floats.Float)
      → apply_one floats f ks v ≡ some g
      → field_at js g ≡ (if same_path ks js then over (field_at js f) v else field_at js f)
  unfolding apply_one field_at same_path leaf
  field_at-apply_one f g [] [] v h = some-leaf floats f g v h ∙ sym (over-leaf f g v h)
  field_at-apply_one f g [] (j ∷ js) v h = leaf-below floats f g v j js h
  field_at-apply_one (struct_field fs) g (k ∷ ks) [] v h =
      let (f, f', there, done, eq) = applied fs g k ks v h in rw eq refl
  field_at-apply_one (struct_field fs) g (k ∷ ks) (j ∷ js) v h =
      let (f, f', there, done, eq) = applied fs g k ks v h in
      elim (Bool-cases (k == j)) [
        | inl e ↦
            let at_j : find_field j fs ≡ some f =
              subst (λ x. find_field x fs ≡ some f) (==_eq k j e) there in
            let set_j : find_field j (put_field k f' fs) ≡ some f' =
              subst (λ x. find_field x (put_field k f' fs) ≡ some f') (==_eq k j e)
                (find-put_self k f f' fs there) in
            rw
              (eq, e, field_at-down j js fs f at_j, field_at-down j js (put_field k f' fs) f' set_j)
              (field_at-apply_one f f' ks js v done)
        | inr e ↦
            rw (eq, e) (field_at-beside j js fs (put_field k f' fs) (find-put_other k j f' fs e))
      ]
  field_at-apply_one f g (k ∷ ks) js v h = ground (arith, h)

  -- The newest of the overlays that name a path decides, over what stood there.
  unfoldable pub newest :
      List Bytes
      → List (Overlay floats.Float)
      → Option (Field floats.Float)
      → Option (Field floats.Float)
  unfolding over same_path
  newest js [] d = d
  newest js (o ∷ os) d =
      newest js os (if same_path (parts floats o.path) js then over d o.value else d)

  newest-append :
      (js : List Bytes) (os ps : List (Overlay floats.Float)) (d : Option (Field floats.Float))
      → newest js (os ++ ps) d ≡ newest js ps (newest js os d)
  unfolding newest
  newest-append js [] ps d = refl
  newest-append js (o ∷ os) ps d = newest-append js os ps _

  field_at-apply_overlays :
      (os : List (Overlay floats.Float)) (c out : Field floats.Float) (js : List Bytes)
      → apply_overlays floats os c ≡ some out
      → field_at js out ≡ newest js os (field_at js c)
  unfolding apply_overlays newest
  field_at-apply_overlays [] c out js h = ground (arith, h)
  field_at-apply_overlays (o ∷ os) c out js h =
      elim (Option-cases (apply_one floats c (parts floats o.path) o.value)) [
        | inl failed ↦ ground (arith, rw (apply_overlays, failed) at h)
        | inr (c', done) ↦
            field_at-apply_overlays os c' out js (rw (apply_overlays, done) at h)
            ∙ ap (newest js os) (field_at-apply_one c c' (parts floats o.path) js o.value done)
      ]

  -- When the layers of a configuration are merged, each field that is no struct has the value that
  -- the command line gives it last; where it is silent, the environment; where that is silent too,
  -- the file; and the default of the field if no layer names its path.
  pub merge-newest :
      (defaults out : Field floats.Float) (file cli : List (Overlay floats.Float))
      (getenv : Bytes → Bytes) (js : List Bytes)
      → merge floats defaults file cli getenv ≡ some out
      → field_at js out
        ≡ newest js cli (
            newest js
              (env_overlays getenv (walk_leaf [] defaults))
              (newest js file (field_at js defaults)))
  unfolding merge
  merge-newest defaults out file cli getenv js h =
      let env = env_overlays getenv (walk_leaf [] defaults) in
      field_at-apply_overlays (file ++ env ++ cli) defaults out js h
      ∙ newest-append js (file ++ env) cli (field_at js defaults)
      ∙ ap (newest js cli) (newest-append js file env (field_at js defaults))
