-- ===== src/Examples/Enrollment.antt =====
-- internal/enroll and internal/pki: runs of the endpoint, with certificates of bytes that hold the
-- serial, the validity and the name.
use qoqtun.Prelude.{
  ℕ, ◌≡◌, refl, ◌≤◌, Bool, true, false, ◌&&◌, Option, none, some, List, [], ◌∷◌, arith, ◌==◌, Bytes,
  bytes_eq, bytes_beq, codes, Bool-cases, ap, sym, inl, inr, ◌≢◌, ◌+◌, ◌*◌, ◌/◌, ◌∙◌, ==_eq,
}
use qoqtun.Prelude.Int.{pos}
use qoqtun.Prelude.Maps.{lookup}
use qoqtun.Prelude.Strings.{decimal}
use qoqtun.Auth.TokenStore
use qoqtun.Auth.TokenStore.{TokenRecord, consumed, consume}
use qoqtun.Auth.TokenStore.Once.{IsWell}
use qoqtun.Pki.Sign.{
  second, whole_seconds, ReadsBack, X509, Csr, Certificate, Ca, valid_client_id,
  sign_client_certificate,
}
use qoqtun.Pki.Registry.{ClientRegistry, ClientRecord, exists, add}
use qoqtun.Tunnel.Host.{all_bytes}
use qoqtun.Enroll.Server.{
  Request, Draws, State, Event, accepted, goes_on, spent, granted, start_enroll, enters,
  handle_enroll, run,
}
use qoqtun.Enroll.Server.Identities.{IsSettled, run-Keeps}
use qoqtun.Enroll.Server.Settled.{IsKeyed, Undisturbed}
use qoqtun.Enroll.Server.Tokens.{enroll_spends_once}
use qoqtun.Enroll.Server.Granted.{granted_lem}

abbrev a_name : Bytes
a_name = codes "cl_abcdefghijklmnopqrstuvwxyz"

abbrev a_csr : Csr
a_csr = record { common_name = a_name; unit = []; is_ed25519 = true; signature_valid = true }

-- A certificate keeps the seconds of its times and the name and the serial of the client.
abbrev write : Certificate → Option Bytes
write c = some (c.serial ∷ c.not_before / second ∷ c.not_after / second ∷ c.common_name)

abbrev read : Bytes → Option Certificate
read (a ∷ b ∷ e ∷ s) = some (record {
  common_name = s;
  unit = [];
  serial = a;
  not_before = b * second;
  not_after = e * second;
})
read _ = none

abbrev x509 : X509
x509 = record { parse_csr = λ s. some a_csr; create_certificate = write; parse_certificate = read }

x509-ReadsBack : ReadsBack x509
x509-ReadsBack c text valid h =
    let e : c.serial ∷ c.not_before / second ∷ c.not_after / second ∷ c.common_name ≡ text =
      ground (arith, h) in
    (
      record {
        common_name = c.common_name;
        unit = [];
        serial = c.serial;
        not_before = c.not_before / second * second;
        not_after = whole_seconds c.not_after;
      },
      ap read (sym e),
      refl,
      refl,
      refl,
    )

abbrev hash : Bytes → Bytes
hash s = s

abbrev a_token : TokenRecord
a_token = record {
  token_id = codes "a";
  hash = codes "secret";
  expires_at = 100 * second;
  used = false;
  revoked = false;
  created_by = [];
  created_at = 0;
}

abbrev start : State ℕ
start = record {
  tokens = record {
    store = record { by_id = (codes "a", a_token) ∷ []; last = none };
    file = none;
  };
  registry = record { by_id = []; file = [] };
  revoked = record { by_id = []; file = [] };
  limits = [];
  handlers = [];
  sent = [];
}

abbrev ca : Ca
ca = record { not_after = 50 * second; pem = codes "ca" }

abbrev request : Request
request = record {
  kind = codes "enroll";
  token = codes "secret";
  csr = codes "csr";
  name = codes "laptop";
  note = [];
}

abbrev draws : Draws
draws = record {
  now = 10 * second + 5;
  serial = some 7;
  tokens_saved = some 2;
  registry_saved = true;
}

abbrev pem : Bytes
pem = 7 ∷ 0 ∷ 50 ∷ a_name

-- The registry that a handler sees.
abbrev nobody : ClientRegistry
nobody = start.registry

is_granted :
    (handle_enroll x509 ca (pos 90) hash request draws draws draws start.tokens nobody nobody).0
    ≡ granted pem (codes "ca") (50 * second)
unfolding handle_enroll consume TokenStore.consume_loaded TokenStore.find_hash
    TokenStore.reload_if_changed bytes_beq lookup TokenStore.act TokenStore.verdict TokenStore.spend
    TokenStore.save_locked sign_client_certificate all_bytes exists add
is_granted = refl

granted_lem_example :
    let done =
      handle_enroll x509 ca (pos 90) hash request draws draws draws start.tokens nobody nobody in
    (id : Bytes) × (csr : Csr) × (rec : ClientRecord) × (serial : ℕ) × ((consume hash
        (codes "secret")
        draws.now
        (some 2)
        start.tokens).0
      ≡ consumed id)
    × (x509.parse_csr (codes "csr") ≡ some csr)
    × (csr.is_ed25519 && csr.signature_valid && valid_client_id csr.common_name ≡ true)
    × (lookup csr.common_name nobody.by_id ≡ none)
    × (lookup csr.common_name done.2.by_id ≡ some rec)
    × (draws.serial ≡ some serial)
    × (rec.cert_serial ≡ decimal serial)
    × (50 * second ≤ 50 * second)
granted_lem_example =
    granted_lem x509 ca (pos 90) hash request draws draws draws start.tokens nobody nobody pem
      (codes "ca") (50 * second) x509-ReadsBack is_granted

tokens-IsWell : IsWell start.tokens.store.by_id
unfolding qoqtun.Auth.TokenStore.Spent.keyed bytes_beq lookup
tokens-IsWell = (refl, (refl, tt))

is_consumed :
    (consume hash (codes "secret") draws.now (some 2) start.tokens).0 ≡ consumed (codes "a")
unfolding consume TokenStore.consume_loaded TokenStore.find_hash TokenStore.reload_if_changed
    bytes_beq lookup TokenStore.act TokenStore.verdict TokenStore.spend TokenStore.save_locked
is_consumed = refl

abbrev take : ℕ → ℕ → Bool × ℕ
take now l = (true, l)

-- Another connection with the same token comes while the first is served.
abbrev again : List Event
again =
    accepted 2 (codes "h") none draws
    ∷ goes_on 2 (some request) draws
    ∷ goes_on 1 none draws
    ∷ goes_on 1 none draws
    ∷ goes_on 2 none draws
    ∷ goes_on 1 none draws
    ∷ []

abbrev spending : State ℕ
spending =
    enters x509 ca (pos 90) hash 0 take 1 (codes "h")
      (start_enroll x509 ca (pos 90) hash request draws start.tokens).0
      (record start { tokens = (start_enroll x509 ca (pos 90) hash request draws start.tokens).1 })

enroll_spends_once_example :
    (consume hash
      (codes "secret")
      draws.now
      (some 2)
      (run x509 ca (pos 90) hash 0 take again spending).tokens).0
    ≢ consumed (codes "a")
enroll_spends_once_example =
    enroll_spends_once hash x509 ca (pos 90) 0 take (codes "a") 1 (codes "h") request request draws
      draws again start tokens-IsWell is_consumed

abbrev laptop : ClientRecord
laptop = record {
  client_id = a_name;
  name = codes "laptop";
  note = [];
  cert_serial = codes "7";
  created_at = 1;
}

-- A client is enrolled, and another enrollment under its id is under way.
abbrev enrolled : State ℕ
enrolled = record start {
  registry = record { by_id = (a_name, laptop) ∷ []; file = [] };
  handlers = (1, (codes "h", spent request)) ∷ [];
}

is_enrolled : lookup a_name enrolled.registry.by_id ≡ some laptop
unfolding lookup bytes_beq
is_enrolled = refl

enrolled-IsKeyed : IsKeyed enrolled.registry
unfolding lookup
enrolled-IsKeyed id rec h = elim (Bool-cases (a_name == id)) [
  | inl own ↦
      let q : some laptop ≡ some rec = rw own at h in
      let e : laptop ≡ rec = ground arith in ap (λ r. r.client_id) (sym e) ∙ ==_eq a_name id own
  | inr other ↦ ground (arith, rw other at h)
]

enrolled-Undisturbed : Undisturbed a_name laptop enrolled.handlers
unfolding lookup
enrolled-Undisturbed n host stage at r good bad e named = ground (arith, at, e)

run-Keeps_example :
    IsSettled x509 ca
      (pos 90)
      hash
      0
      take
      a_name
      laptop
      (run x509 ca (pos 90) hash 0 take again enrolled)
run-Keeps_example =
    run-Keeps x509 ca (pos 90) hash 0 take a_name laptop again enrolled is_enrolled enrolled-IsKeyed
      enrolled-Undisturbed

-- Two enrollments for one id look for it before either adds its record: both are granted.
abbrev two_spent : State ℕ
two_spent = record start {
  handlers = (1, (codes "h", spent request)) ∷ (2, (codes "i", spent request)) ∷ [];
}

abbrev side_by_side : List Event
side_by_side =
    goes_on 1 none draws
    ∷ goes_on 2 none draws
    ∷ goes_on 1 none draws
    ∷ goes_on 2 none draws
    ∷ goes_on 1 none draws
    ∷ goes_on 2 none draws
    ∷ []

both_granted :
    (run x509 ca (pos 90) hash 0 take side_by_side two_spent).sent
    ≡ granted pem (codes "ca") (50 * second) ∷ granted pem (codes "ca") (50 * second) ∷ []
unfolding run lookup qoqtun.Prelude.Maps.insert sign_client_certificate all_bytes exists
    qoqtun.Prelude.Maps.delete add
both_granted = refl
