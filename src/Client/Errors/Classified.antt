-- ===== src/Client/Errors/Classified.antt =====
-- internal/clientcore/errors.go: what a classified error is.
use qoqtun.Prelude.{
  ◌≡◌, refl, true, ◌||◌, some, arith, if◌then◌else◌, nat_eq, bytes_eq, Bool-cases, inl, inr,
}
use qoqtun.Prelude.Int.{int_eq}
use qoqtun.Client.Errors.{
  Error, permanent, temporary, message, is_permanent, is_temporary, is_graceful, is_marked,
  classify,
}

-- Every error is classified: the result is permanent or temporary, it is graceful exactly if the
-- error was, an error of no kind is permanent exactly if its message is marked, and classifying
-- again changes nothing.
pub classify_lem :
    (e : Error)
    → (c : Error) × (classify (some e) ≡ some c)
      × ((is_permanent c || is_temporary c) ≡ true)
      × (is_graceful c ≡ is_graceful e)
      × (is_permanent c
          ≡ (if is_permanent e || is_temporary e then is_permanent e else is_marked (message e)))
      × (classify (some c) ≡ some c)
unfolding classify is_permanent is_temporary is_graceful
classify_lem e = elim (Bool-cases (is_permanent e || is_temporary e)) [
  | inl kind ↦ (e, rw kind refl, kind, refl, rw kind refl, rw kind refl)
  | inr no_kind ↦ elim (Bool-cases (is_marked (message e))) [
    | inl marked ↦
        (permanent e, rw (no_kind, marked) refl, refl, refl, rw (no_kind, marked) refl, refl)
    | inr plain_text ↦ (
      temporary e,
      rw (no_kind, plain_text) refl,
      ground arith,
      refl,
      rw (no_kind, plain_text) (ground arith),
      ground arith,
    )
  ]
]
