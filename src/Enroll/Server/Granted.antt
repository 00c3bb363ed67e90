-- ===== src/Enroll/Server/Granted.antt =====
-- internal/enroll/server.go and internal/pki/sign.go: what an enrollment that succeeds has checked.
use qoqtun.Prelude.{
  ℕ, ◌≡◌, refl, ◌≤◌, true, ◌&&◌, Option, none, some, arith, Bytes, bytes_eq, Option-cases, inl, inr,
  sym, ◌≢◌, ◌⊎◌, ap, ◌∙◌,
}
use qoqtun.Prelude.Int.{ℤ}
use qoqtun.Prelude.Maps.{lookup}
use qoqtun.Prelude.Strings.{decimal}
use qoqtun.Auth.TokenStore
use qoqtun.Auth.TokenStore.{
  Consumed, consumed, token_invalid, token_revoked, token_expired, token_used, persist_failed,
  consume,
}
use qoqtun.Pki.Sign.{
  ReadsBack, whole_seconds, X509, Csr, Certificate, Ca, valid_client_id, template,
}
use qoqtun.Pki.Registry.{ClientRecord, ClientRegistry}
use qoqtun.Enroll.Server.{
  Request, Response, Draws, granted, refusal, cert_serial, sign_from_csr, check_signed, recording,
  replying, Stage, add_record, start_enroll, after_token, sign_next, finish, handle_enroll,
}
use qoqtun.Enroll.Server.Signed.{
  Signs, sign_client_certificate_lem, sign_from_csr_lem, check_signed_lem, add_record_lem,
  template_lem,
}

refusal-none : (c : Consumed) → refusal c ≡ none → (id : Bytes) × (c ≡ consumed id)
unfolding refusal
refusal-none (consumed id) h = (id, refl)
refusal-none token_invalid h = ground arith
refusal-none token_expired h = ground arith
refusal-none token_used h = ground arith
refusal-none token_revoked h = ground arith
refusal-none persist_failed h = ground arith

module _ (x : X509) (ca : Ca) (days : ℤ) (hash_token : Bytes → Bytes) where
  finish_recording :
      (stage : Stage) (d : Draws) (reg : ClientRegistry) (pem ca_pem : Bytes) (until : ℕ)
      → (finish x ca days hash_token stage d reg).0 ≡ granted pem ca_pem until
      → (stage ≡ replying (granted pem ca_pem until))
        ⊎ ((rec : ClientRecord) × (good : Response) × (bad : Response) × (stage
              ≡ recording rec good bad))
  unfolding finish
  finish_recording (recording rec good bad) d reg pem ca_pem until h = inr (rec, good, bad, refl)
  finish_recording (replying a) d reg pem ca_pem until h = inl (ap replying h)
  finish_recording stage d reg pem ca_pem until h = ground (arith, h)

  check_refuses :
      (r : Request) (d : Draws) (reg : ClientRegistry) (o : Option (Bytes × Certificate))
      (pem ca_pem : Bytes) (until : ℕ)
      → check_signed x ca days r d reg o ≢ replying (granted pem ca_pem until)
  unfolding check_signed
  check_refuses r d reg none pem ca_pem until h = ground (arith, h)
  check_refuses r d reg (some (p, c)) pem ca_pem until h = ground (arith, h)

  -- The parts of a handler whose enrollment succeeds.
  handle_enroll-granted :
      (r : Request) (d1 d2 d3 : Draws) (t : TokenStore.State) (at_test at_add : ClientRegistry)
      (pem ca_pem : Bytes) (until : ℕ)
      → (handle_enroll x ca days hash_token r d1 d2 d3 t at_test at_add).0
        ≡ granted pem ca_pem until
      → ((id : Bytes) × ((consume hash_token r.token d1.now d1.tokens_saved t).0 ≡ consumed id))
        × ((rec : ClientRecord) × (good : Response) × (bad : Response) × (check_signed x ca days r
                d2 at_test
                (sign_from_csr x ca days r.csr d2)
              ≡ recording rec good bad)
            × ((add_record x ca days rec good bad d3 at_add).0 ≡ granted pem ca_pem until)
            × ((handle_enroll x ca days hash_token r d1 d2 d3 t at_test at_add).2
                ≡ (add_record x ca days rec good bad d3 at_add).1))
  unfolding handle_enroll start_enroll after_token sign_next finish
  handle_enroll-granted r d1 d2 d3 t at_test at_add pem ca_pem until h =
      let c = consume hash_token r.token d1.now d1.tokens_saved t in
      let stage = check_signed x ca days r d2 at_test (sign_from_csr x ca days r.csr d2) in
      elim (Option-cases (refusal c.0)) [
        | inr (e, refused) ↦ ground (arith, rw (handle_enroll, start_enroll, refused) at h)
        | inl valid ↦
            let q : (finish x ca days hash_token stage d3 at_add).0 ≡ granted pem ca_pem until =
              rw (handle_enroll, start_enroll, valid) at h in
            elim (finish_recording stage d3 at_add pem ca_pem until q) [
              | inl early ↦ absurd (
                  check_refuses r d2 at_test (sign_from_csr x ca days r.csr d2) pem ca_pem until
                    early)
              | inr (rec, good, bad, e) ↦ (
                refusal-none c.0 valid,
                (
                  rec,
                  good,
                  bad,
                  e,
                  rw (e, finish) at q,
                  rw (handle_enroll, start_enroll, valid, e, finish) refl,
                ),
              )
            ]
      ]

  -- An enrollment that succeeds has spent a token, and its request was for a key of Ed25519, signed
  -- by that key, and for a valid client id that was not enrolled when the handler looked; the
  -- certificate ends with the authority's at the latest, and with the answer the client is enrolled
  -- with the serial of its certificate: whatever other handlers did to the registry in between, if a
  -- certificate that was made for a client reads back with its name, its serial and the second of its
  -- end.
  pub granted_lem :
      (r : Request) (d1 d2 d3 : Draws) (t : TokenStore.State) (at_test at_add : ClientRegistry)
      (pem ca_pem : Bytes) (until : ℕ)
      → ReadsBack x
      → (handle_enroll x ca days hash_token r d1 d2 d3 t at_test at_add).0
        ≡ granted pem ca_pem until
      → let done = handle_enroll x ca days hash_token r d1 d2 d3 t at_test at_add in
        (id : Bytes) × (csr : Csr) × (rec : ClientRecord) × (serial : ℕ) × ((consume hash_token
            r.token d1.now d1.tokens_saved t).0
          ≡ consumed id)
        × (x.parse_csr r.csr ≡ some csr)
        × (csr.is_ed25519 && csr.signature_valid && valid_client_id csr.common_name ≡ true)
        × (lookup csr.common_name at_test.by_id ≡ none)
        × (lookup csr.common_name done.2.by_id ≡ some rec)
        × (d2.serial ≡ some serial)
        × (rec.cert_serial ≡ decimal serial)
        × (until ≤ ca.not_after)
  unfolding Signs cert_serial
  granted_lem r d1 d2 d3 t at_test at_add pem ca_pem until round h =
      let ((id, spent_id), (rec, good, bad, stage, answer, left)) =
        handle_enroll-granted r d1 d2 d3 t at_test at_add pem ca_pem until h in
      let (p, c, made, free, named_rec, serial_of, is_good, is_bad) =
        check_signed_lem x ca days r d2 at_test (sign_from_csr x ca days r.csr d2) rec good bad
          stage in
      let (gives, there) =
        add_record_lem x ca days rec good d3 at_add pem ca_pem until (rw is_bad at answer) in
      let (signed, read) = sign_from_csr_lem x ca days r.csr d2 p c made in
      let (csr, serial, (parsed, key, signature, valid, drawn, created)) =
        sign_client_certificate_lem x ca days r.csr d2 p signed in
      let (name, number, bound) = template_lem x ca days csr serial d2.now in
      let (c', back, name', number', end') =
        round (template ca csr days serial d2.now) p (rw name valid) created in
      let same : some c ≡ some c' = sym read ∙ back in
      let e : c ≡ c' = ground arith in
      let named : c.common_name ≡ csr.common_name = ap (λ k. k.common_name) e ∙ name' ∙ name in
      let numbered : c.serial ≡ serial = ap (λ k. k.serial) e ∙ number' ∙ number in
      let ends : c.not_after ≡ whole_seconds (template ca csr days serial d2.now).not_after =
        ap (λ k. k.not_after) e ∙ end' in
      let granted_so : granted p ca.pem c.not_after ≡ granted pem ca_pem until =
        sym is_good ∙ gives in
      let last : c.not_after ≡ until = ground arith in
      (
        id,
        csr,
        rec,
        serial,
        spent_id,
        parsed,
        ground (arith, key, signature, valid),
        rw named at free,
        rw (left, is_bad) (rw (named_rec, named) at there),
        drawn,
        serial_of ∙ rw (cert_serial, read, numbered) refl,
        rw (sym last, ends) (omega (arith, bound)),
      )
