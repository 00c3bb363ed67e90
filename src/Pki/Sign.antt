-- ===== src/Pki/Sign.antt =====
-- internal/pki/sign.go and pki.go: client ids, and what is signed for a request. Parsing and signing
-- with crypto/x509 are parameters. The random serial is an argument. Times are nanoseconds; a
-- certificate holds whole seconds.
use qoqtun.Prelude.{
  ℕ, ◌+◌, ◌-◌, ◌*◌, ◌/◌, ◌≡◌, Bool, true, false, ◌&&◌, ◌||◌, not, Option, none, some, List, ◌∷◌,
  ◌==◌, nat_eq, if◌then◌else◌, length, Bytes, bytes_eq, leb, ltb,
}
use qoqtun.Prelude.Int.{ℤ, pos, pos_part, ltz}
use qoqtun.Prelude.Strings.{is_lower}
use qoqtun.Tunnel.Host.{all_bytes}

pub record Csr : Type 0 where
  pub common_name : Bytes
  pub unit : List Bytes
  -- `PublicKeyAlgorithm == x509.Ed25519`, `CheckSignature() == nil`
  pub is_ed25519 : Bool
  pub signature_valid : Bool

pub record Certificate : Type 0 where
  pub common_name : Bytes
  pub unit : List Bytes
  pub serial : ℕ
  pub not_before : ℕ
  pub not_after : ℕ

-- `ParseCSR`, `x509.CreateCertificate` in PEM, unless it fails, and `ParseCertificate`
pub record X509 : Type 0 where
  pub parse_csr : Bytes → Option Csr
  pub create_certificate : Certificate → Option Bytes
  pub parse_certificate : Bytes → Option Certificate

pub record Ca : Type 0 where
  pub not_after : ℕ
  pub pem : Bytes

-- `ValidateClientID`: "cl_" and 26 characters of a to z and 2 to 7.
abbrev pub is_id_byte : ℕ → Bool
is_id_byte c = is_lower c || leb b'2' c && leb c b'7'

unfoldable pub valid_client_id : Bytes → Bool
valid_client_id (c ∷ l ∷ u ∷ s) =
    c == b'c' && l == b'l' && u == b'_' && length s == 26 && all_bytes is_id_byte s
valid_client_id _ = false

abbrev pub second : ℕ
second = 1000000000

-- The template of the certificate, which does not outlive the authority.
unfoldable pub template : Ca → Csr → ℤ → ℕ → ℕ → Certificate
template ca csr days serial now =
    let until = now + pos_part days * (24 * 3600 * second) in
    record {
      common_name = csr.common_name;
      unit = csr.unit;
      serial = serial;
      not_before = now - 300 * second;
      not_after = if ltb ca.not_after until then ca.not_after else until;
    }

-- The time that a certificate has instead of one with a fraction of a second.
abbrev pub whole_seconds : ℕ → ℕ
whole_seconds t = t / second * second

-- What a certificate for a client reads as: X.509 keeps its name, its serial, and the second of the
-- end of its validity.
abbrev pub ReadsBack : X509 → Type 0
ReadsBack x =
    (c : Certificate) (text : Bytes)
    → valid_client_id c.common_name ≡ true
    → x.create_certificate c ≡ some text
    → (c' : Certificate) × (x.parse_certificate text ≡ some c')
      × (c'.common_name ≡ c.common_name)
      × (c'.serial ≡ c.serial)
      × (c'.not_after ≡ whole_seconds c.not_after)

module _ (x : X509) where
  -- `SignClientCertificate`; the serial is absent when the random source fails.
  unfoldable pub sign_client_certificate : Ca → Bytes → ℤ → Option ℕ → ℕ → Option Bytes
  unfolding template valid_client_id
  sign_client_certificate ca text days random now = elim (x.parse_csr text) [
    | none ↦ none
    | some csr ↦ elim random [
      | none ↦ none
      | some serial ↦
          (if not csr.is_ed25519
              || not csr.signature_valid
              || not (valid_client_id csr.common_name)
              || ltz days (pos 1)
              || ltz (pos 825) days
            then none
            else x.create_certificate (template ca csr days serial now))
    ]
  ]
