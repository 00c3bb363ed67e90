-- ===== src/Client/Errors.antt =====
-- internal/clientcore/errors.go: which errors are retried. An error is its chain of wrappings, which
-- `errors.As` and `errors.Is` walk.
pub mod Classified
use qoqtun.Prelude.{
  zero, suc, Bool, true, false, ◌||◌, Option, none, some, List, [], ◌∷◌, ◌++◌, if◌then◌else◌, ◌==◌,
  nat_eq, Bytes, codes, bytes_eq, length,
}
use qoqtun.Prelude.Int.{int_eq}
use qoqtun.Prelude.Strings.{to_lower, has_prefix}

pub data Error : Type 0 where
  graceful_shutdown : Error
  permanent : Error → Error
  temporary : Error → Error
  -- `fmt.Errorf` with %w after a text, and an error of no kind of its own
  wrapped : Bytes → Error → Error
  plain : Bytes → Error

-- `Error()`
unfoldable pub message : Error → Bytes
message graceful_shutdown = codes "graceful shutdown"
message (permanent e) = codes "permanent error: " ++ message e
message (temporary e) = codes "temporary error: " ++ message e
message (wrapped s e) = s ++ message e
message (plain s) = s

-- `IsPermanent`
unfoldable pub is_permanent : Error → Bool
is_permanent graceful_shutdown = false
is_permanent (permanent e) = true
is_permanent (temporary e) = is_permanent e
is_permanent (wrapped s e) = is_permanent e
is_permanent (plain s) = false

-- `IsTemporary`
unfoldable pub is_temporary : Error → Bool
is_temporary graceful_shutdown = false
is_temporary (permanent e) = is_temporary e
is_temporary (temporary e) = true
is_temporary (wrapped s e) = is_temporary e
is_temporary (plain s) = false

-- `errors.Is(err, ErrGracefulShutdown)`
unfoldable pub is_graceful : Error → Bool
is_graceful graceful_shutdown = true
is_graceful (permanent e) = is_graceful e
is_graceful (temporary e) = is_graceful e
is_graceful (wrapped s e) = is_graceful e
is_graceful (plain s) = false

-- `strings.Contains`
unfoldable pub contains : Bytes → Bytes → Bool
contains [] p = length p == 0
contains (c ∷ s) p = has_prefix (c ∷ s) p || contains s p

unfoldable pub contains_any : Bytes → List Bytes → Bool
contains_any s [] = false
contains_any s (p ∷ ps) = contains s p || contains_any s ps

-- `permanentMarkers`, sought in the message in lower case.
abbrev pub permanent_markers : List Bytes
permanent_markers =
    codes "certificate"
    ∷ codes "x509"
    ∷ codes "unknown authority"
    ∷ codes "bad certificate"
    ∷ codes "permanent"
    ∷ codes "server rejected"
    ∷ codes "server fatal error"
    ∷ codes "not allowed"
    ∷ codes "revoked"
    ∷ codes "expired"
    ∷ codes "unsupported protocol version"
    ∷ []

-- The codes of the protocol's fatal errors.
abbrev pub fatal_codes : List Bytes
fatal_codes =
    codes "ERR_AUTH_FAILED"
    ∷ codes "ERR_CERT_REVOKED"
    ∷ codes "ERR_CERT_EXPIRED"
    ∷ codes "ERR_VERSION_UNSUPPORTED"
    ∷ []

unfoldable pub is_marked : Bytes → Bool
is_marked m = contains_any (to_lower m) permanent_markers || contains_any m fatal_codes

-- `Classify`; no error is `none`.
unfoldable pub classify : Option Error → Option Error
classify none = none
classify (some e) =
    if is_permanent e || is_temporary e
    then some e
    else if is_marked (message e)
    then some (permanent e)
    else some (temporary e)
