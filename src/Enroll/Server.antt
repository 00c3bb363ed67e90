-- ===== src/Enroll/Server.antt =====
-- internal/enroll/server.go: the handlers of the enrollment endpoint over the token store, the
-- registry of clients, the revocation list and the limiter. Each connection has a handler of its own;
-- a step of it is one access of what they share, and the steps of different handlers interleave in
-- any order. The certificate of the peer is what the TLS handshake verified; a request that does not
-- parse is `none`.
pub mod Signed
pub mod Settled
pub mod Identities
pub mod Tokens
pub mod Granted
use qoqtun.Prelude.{
  ℕ, Bool, true, false, Option, none, some, List, [], ◌∷◌, ◌==◌, if◌then◌else◌, Bytes, codes,
  bytes_eq, nat_eq,
}
use qoqtun.Prelude.Int.{ℤ}
use qoqtun.Prelude.Maps.{Map, lookup, insert, delete}
use qoqtun.Prelude.Strings.{decimal}
use qoqtun.Auth.TokenStore
use qoqtun.Auth.TokenStore.{
  Consumed, consumed, token_invalid, token_revoked, token_expired, token_used, persist_failed,
  consume,
}
use qoqtun.Enroll.RateLimit.{IpState, allow, report}
use qoqtun.Pki.Sign.{X509, Certificate, Ca, sign_client_certificate}
use qoqtun.Pki.Registry.{ClientRecord, ClientRegistry, add, get, exists}
use qoqtun.Pki.Revocation.{RevocationList, is_revoked}

pub record Request : Type 0 where
  pub kind : Bytes
  pub token : Bytes
  pub csr : Bytes
  pub name : Bytes
  pub note : Bytes

pub data Code : Type 0 where
  code_token_invalid code_token_expired code_token_used code_name_conflict code_rate_limited : Code
  code_bad_request code_auth_failed code_cert_revoked code_internal : Code

-- A certificate, that of the authority and the end of the validity, or a refusal.
pub data Response : Type 0 where
  granted : Bytes → Bytes → ℕ → Response
  denied : Code → Response

unfoldable pub is_ok : Response → Bool
is_ok (granted cert ca until) = true
is_ok (denied e) = false

-- The certificate of the peer is that of the handshake. Between two stages of a handler any other
-- handler may run: it has read no request yet, has spent a token, renews the certificate of a client,
-- has made a record that it adds next, with the answer where that succeeds and where it fails, or
-- has its answer.
pub data Stage : Type 0 where
  opened : Option Certificate → Stage
  spent : Request → Stage
  renewing : Bytes → Request → Stage
  recording : ClientRecord → Response → Response → Stage
  replying : Response → Stage

-- `sent` lists the responses, the newest first; `handlers` has the host and the stage of each
-- connection that is being served.
pub record State (Limiter : Type 0) : Type 0 where
  pub tokens : TokenStore.State
  pub registry : ClientRegistry
  pub revoked : RevocationList
  pub limits : Map Bytes (IpState Limiter)
  pub handlers : Map ℕ (Bytes × Stage)
  pub sent : List Response

-- The clock, the random serial, and the outcomes of the writes of the two files.
pub record Draws : Type 0 where
  pub now : ℕ
  pub serial : Option ℕ
  pub tokens_saved : Option ℕ
  pub registry_saved : Bool

-- The answer to a token that is not consumed.
unfoldable pub refusal : Consumed → Option Code
refusal (consumed id) = none
refusal token_invalid = some code_token_invalid
refusal token_expired = some code_token_expired
refusal token_used = some code_token_used
refusal token_revoked = some code_token_invalid
refusal persist_failed = some code_internal

-- `verifyPeerCertificate` after the chain was verified.
abbrev pub peer_refused : RevocationList → Certificate → Bool
peer_refused l c = is_revoked l (decimal c.serial)

-- A connection is accepted from a host, with the certificate of its peer; or a handler takes its next
-- step, with the request that it reads if that is to read one.
pub data Event : Type 0 where
  accepted : ℕ → Bytes → Option Certificate → Draws → Event
  goes_on : ℕ → Option Request → Draws → Event

module _ (x : X509) (ca : Ca) (days : ℤ) where
  -- `certSerial`
  unfoldable pub cert_serial : Bytes → Bytes
  cert_serial pem = elim (x.parse_certificate pem) [ none ↦ [] | some c ↦ decimal c.serial ]

  -- `signFromCSR`
  unfoldable pub sign_from_csr : Bytes → Draws → Option (Bytes × Certificate)
  sign_from_csr csr d = elim (sign_client_certificate x ca csr days d.serial d.now) [
    | none ↦ none
    | some pem ↦ elim (x.parse_certificate pem) [ none ↦ none | some c ↦ some (pem, c) ]
  ]

  -- `handleEnroll` up to the test that no client has the id.
  unfoldable pub check_signed :
      Request → Draws → ClientRegistry → Option (Bytes × Certificate) → Stage
  unfolding cert_serial
  check_signed r d reg none = replying (denied code_bad_request)
  check_signed r d reg (some (pem, c)) =
      if exists reg c.common_name
      then replying (denied code_name_conflict)
      else recording
          (record {
            client_id = c.common_name;
            name = r.name;
            note = r.note;
            cert_serial = cert_serial pem;
            created_at = d.now;
          })
          (granted pem ca.pem c.not_after) (denied code_internal)

  -- `handleRenew` up to the record that it adds, if the client is known; the certificate is handed
  -- out even where that fails.
  unfoldable pub renewed : Bytes → Response → Option ClientRecord → Stage
  unfolding cert_serial
  renewed pem answer none = replying answer
  renewed pem answer (some rec) =
      recording (record rec { cert_serial = cert_serial pem }) answer answer

  unfoldable pub renew_signed : Bytes → ClientRegistry → Option (Bytes × Certificate) → Stage
  unfolding renewed
  renew_signed id reg none = replying (denied code_bad_request)
  renew_signed id reg (some (pem, c)) =
      if c.common_name == id
      then renewed pem (granted pem ca.pem c.not_after) (get reg id)
      else replying (denied code_bad_request)

  -- The call of `Add`.
  unfoldable pub add_record :
      ClientRecord → Response → Response → Draws → ClientRegistry → Response × ClientRegistry
  add_record rec good bad d reg =
      let a = add rec d.registry_saved reg in (if a.0 then good else bad, a.1)

  -- `handleRenew` up to the signature.
  unfoldable pub start_renew : Option Certificate → Request → RevocationList → Stage
  start_renew none r l = replying (denied code_auth_failed)
  start_renew (some old) r l =
      if is_revoked l (decimal old.serial)
      then replying (denied code_cert_revoked)
      else renewing old.common_name r

  unfoldable pub after_token : Request → Option Code → Stage
  after_token r (some e) = replying (denied e)
  after_token r none = spent r

  module _ (hash_token : Bytes → Bytes) where
    -- `handleEnroll` up to the signature: the token is spent.
    unfoldable pub start_enroll : Request → Draws → TokenStore.State → Stage × TokenStore.State
    unfolding refusal after_token
    start_enroll r d t =
        let c = consume hash_token r.token d.now d.tokens_saved t in
        (after_token r (refusal c.0), c.1)

    -- The end of `handleEnroll`, from the stage after its signature, with the registry as it is when
    -- the record is added; no enrollment is at another stage then.
    unfoldable pub finish : Stage → Draws → ClientRegistry → Response × ClientRegistry
    unfolding add_record
    finish (recording rec good bad) d reg = add_record rec good bad d reg
    finish (replying a) d reg = (a, reg)
    finish _ d reg = (denied code_internal, reg)

    -- What a handler that has yet to sign does next.
    unfoldable pub sign_next : Stage → Draws → ClientRegistry → Stage
    unfolding check_signed sign_from_csr renew_signed
    sign_next (spent r) d reg = check_signed r d reg (sign_from_csr r.csr d)
    sign_next (renewing id r) d reg = renew_signed id reg (sign_from_csr r.csr d)
    sign_next stage d reg = stage

    -- `handleEnroll`, with the registry as it is when the id is looked up and as it is when the record
    -- is added.
    unfoldable pub handle_enroll :
        Request
        → Draws
        → Draws
        → Draws
        → TokenStore.State
        → ClientRegistry
        → ClientRegistry
        → Response × TokenStore.State × ClientRegistry
    unfolding start_enroll sign_next finish
    handle_enroll r d1 d2 d3 t at_test at_add =
        let a = start_enroll r d1 t in
        let f = finish (sign_next a.0 d2 at_test) d3 at_add in (f.0, a.1, f.1)

    module _ {Limiter : Type 0} (fresh : Limiter) (take : ℕ → Limiter → Bool × Limiter) where
      unfoldable pub report_to : Bytes → Bool → ℕ → State Limiter → State Limiter
      report_to host ok now s = record s { limits = report fresh take now host ok s.limits }

      abbrev pub answer : Response → State Limiter → State Limiter
      answer a s = record s { sent = a ∷ s.sent }

      abbrev pub enters : ℕ → Bytes → Stage → State Limiter → State Limiter
      enters n host stage s = record s { handlers = insert n (host, stage) s.handlers }

      abbrev pub leaves : ℕ → State Limiter → State Limiter
      leaves n s = record s { handlers = delete n s.handlers }

      -- `handleConn` once the request is read, up to the first step of its handler.
      unfoldable pub read_request :
          ℕ → Bytes → Option Certificate → Option Request → Draws → State Limiter → State Limiter
      unfolding start_enroll start_renew report_to
      read_request n host peer none d s = leaves n (report_to host false d.now s)
      read_request n host peer (some r) d s =
          let a = start_enroll r d s.tokens in
          if r.kind == codes "enroll"
          then enters n host a.0 (record s { tokens = a.1 })
          else if r.kind == codes "renew"
          then enters n host (start_renew peer r s.revoked) s
          else enters n host (replying (denied code_bad_request)) (report_to host false d.now s)

      -- The step that a handler takes next.
      unfoldable pub advance :
          ℕ → Bytes → Stage → Option Request → Draws → State Limiter → State Limiter
      unfolding read_request sign_next add_record report_to is_ok
      advance n host (opened peer) r d s = read_request n host peer r d s
      advance n host (recording rec good bad) r d s =
          let a = add_record rec good bad d s.registry in
          enters n host (replying a.0) (record s { registry = a.1 })
      advance n host (replying a) r d s = leaves n (answer a (report_to host (is_ok a) d.now s))
      advance n host stage r d s = enters n host (sign_next stage d s.registry) s

      -- The start of `handleConn`.
      unfoldable pub accept : ℕ → Bytes → Option Certificate → Draws → State Limiter → State Limiter
      accept n host peer d s =
          let a = allow fresh take d.now host s.limits in
          let s' : State Limiter = record s { limits = a.1 } in
          if a.0 then enters n host (opened peer) s' else answer (denied code_rate_limited) s'

      unfoldable pub step : Event → State Limiter → State Limiter
      unfolding accept advance
      step (accepted n host peer d) s = accept n host peer d s
      step (goes_on n r d) s = elim (lookup n s.handlers) [
        | none ↦ s
        | some (host, stage) ↦ advance n host stage r d s
      ]

      unfoldable pub run : List Event → State Limiter → State Limiter
      unfolding step
      run [] s = s
      run (e ∷ es) s = run es (step e s)
