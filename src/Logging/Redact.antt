-- ===== src/Logging/Redact.antt =====
-- internal/logging/redact.go: secrets in the attributes of a log record. The value of an attribute
-- that is no string is of a type of the caller's.
use qoqtun.Prelude.{
  ℕ, suc, ◌≡◌, refl, Bool, true, false, ◌&&◌, ◌||◌, not, List, [], ◌∷◌, ◌++◌, ◌==◌, if◌then◌else◌,
  length, leb, ltb, Bytes, codes, bytes_eq, bytes_beq, arith, nat_eq, Bool-cases, inl, inr,
}
use qoqtun.Prelude.Strings.{to_lower, split}
use qoqtun.Client.Errors.{contains_any}

pub data Shown (V : Type 0) : Type 0 where
  string_value : Bytes → Shown V
  other_value : V → Shown V

pub record Attr (V : Type 0) : Type 0 where
  pub key : Bytes
  pub shown : Shown V

abbrev pub redacted : Bytes
redacted = codes "***"

abbrev pub sensitive_keys : List Bytes
sensitive_keys =
    codes "key"
    ∷ codes "token"
    ∷ codes "secret"
    ∷ codes "password"
    ∷ codes "passwd"
    ∷ codes "pwd"
    ∷ codes "cert"
    ∷ codes "private"
    ∷ codes "privkey"
    ∷ codes "api_key"
    ∷ codes "apikey"
    ∷ codes "credential"
    ∷ codes "authorization"
    ∷ codes "cookie"
    ∷ codes "signature"
    ∷ codes "fingerprint"
    ∷ []

abbrev pub between : ℕ → ℕ → ℕ → Bool
between lo hi c = leb lo c && leb c hi

abbrev pub is_alnum : ℕ → Bool
is_alnum c = between b'a' b'z' c || between b'A' b'Z' c || between b'0' b'9' c

unfoldable pub is_hex_digit : ℕ → Bool
is_hex_digit c = between b'0' b'9' c || between b'a' b'f' c || between b'A' b'F' c

unfoldable pub is_url_byte : ℕ → Bool
is_url_byte c = is_alnum c || c == b'_' || c == b'-'

unfoldable pub is_b64_byte : ℕ → Bool
unfolding is_url_byte
is_b64_byte c = is_url_byte c || c == b'+' || c == b'/'

unfoldable pub all_of : (ℕ → Bool) → Bytes → Bool
all_of p [] = true
all_of p (c ∷ s) = p c && all_of p s

-- `longHex`
unfoldable pub is_long_hex : Bytes → Bool
unfolding all_of is_hex_digit
is_long_hex v = leb 32 (length v) && all_of is_hex_digit v

-- `longB64`, after so many bytes of the text.
unfoldable pub is_long_b64 : ℕ → Bytes → Bool
unfolding is_b64_byte
is_long_b64 n [] = leb 44 n
is_long_b64 n (c ∷ s) =
    let rest = is_long_b64 (suc n) s in
    if is_b64_byte c then rest else leb 44 n && (c ∷ s == codes "=" || c ∷ s == codes "==")

abbrev pub is_segment : Bytes → Bool
is_segment s = not (length s == 0) && all_of is_url_byte s

unfoldable pub are_three : Bytes → List Bytes → Bool
unfolding all_of is_url_byte
are_three a (b ∷ c ∷ []) = is_segment a && is_segment b && is_segment c
are_three a rest = false

-- `jwtLike`
unfoldable pub is_jwt : Bytes → Bool
unfolding are_three
is_jwt v = let (a, rest) = split b'.' v in are_three a rest

-- `isSensitiveValue`
unfoldable pub is_sensitive_value : Bytes → Bool
unfolding is_long_hex is_long_b64 is_jwt
is_sensitive_value v =
    not (ltb (length v) 16) && (is_long_hex v || is_long_b64 0 v || leb 40 (length v) && is_jwt v)

unfoldable pub is_sensitive : Bytes → Bytes → Bool
unfolding is_sensitive_value
is_sensitive key v = contains_any (to_lower key) sensitive_keys || is_sensitive_value v

-- `RedactAttr`
unfoldable pub redact_value : {V : Type 0} → Bytes → Shown V → Shown V
unfolding is_sensitive
redact_value key (string_value v) = string_value (if is_sensitive key v then redacted else v)
redact_value key (other_value v) = other_value v

unfoldable pub redact_attr : {V : Type 0} → Attr V → Attr V
unfolding redact_value
redact_attr a = record a { shown = redact_value a.key a.shown }

-- The loop of `Handle` over the attributes of a record.
unfoldable pub redact_all : {V : Type 0} → List (Attr V) → List (Attr V)
unfolding redact_attr
redact_all [] = []
redact_all (a ∷ as') = redact_attr a ∷ redact_all as'

-- `WithAttrs` and `Handle`: a handler has the attributes that every record of it begins with.
unfoldable pub with_attrs : {V : Type 0} → List (Attr V) → List (Attr V) → List (Attr V)
with_attrs own added = own ++ added

unfoldable pub handle : {V : Type 0} → List (Attr V) → List (Attr V) → List (Attr V)
unfolding redact_all
handle own attrs = own ++ redact_all attrs

-- A string that may be shown has no telling key and looks like no secret, or marks a redaction.
unfoldable pub may_show : {V : Type 0} → Bytes → Shown V → Bool
unfolding is_sensitive
may_show key (string_value v) = not (is_sensitive key v) || v == redacted
may_show key (other_value v) = true

unfoldable pub is_hidden : {V : Type 0} → List (Attr V) → Bool
unfolding may_show
is_hidden [] = true
is_hidden (a ∷ as') = may_show a.key a.shown && is_hidden as'

redact_value-may_show :
    {V : Type 0} (key : Bytes) (x : Shown V) → may_show key (redact_value key x) ≡ true
unfolding may_show redact_value bytes_beq
redact_value-may_show key (string_value v) = elim (Bool-cases (is_sensitive key v)) [
  | inl secret ↦ ground arith
  | inr plain ↦ ground (arith, plain)
]
redact_value-may_show key (other_value v) = refl

-- A record that was redacted shows no string that has a telling key or looks like a secret, but the
-- mark of a redaction.
pub redact_all-hidden : {V : Type 0} (as' : List (Attr V)) → is_hidden (redact_all as') ≡ true
unfolding redact_all is_hidden redact_attr
redact_all-hidden [] = refl
redact_all-hidden (a ∷ as') = rw (redact_value-may_show a.key a.shown) (redact_all-hidden as')
