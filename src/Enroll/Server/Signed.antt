-- ===== src/Enroll/Server/Signed.antt =====
-- internal/enroll/server.go and internal/pki/sign.go: what the signing of a request has checked, and
-- the record that is made for its certificate and added.
use qoqtun.Prelude.{
  ℕ, ◌≡◌, refl, ◌≤◌, true, not, ◌||◌, Option, none, some, arith, Bytes, bytes_eq, Bool-cases,
  Option-cases, inl, inr, ap, ◌∙◌,
}
use qoqtun.Prelude.Int.{ℤ, pos, ltz}
use qoqtun.Prelude.Maps.{lookup, lookup-insert_self}
use qoqtun.Pki.Sign.{X509, Csr, Certificate, Ca, valid_client_id, template, sign_client_certificate}
use qoqtun.Pki.Registry.{ClientRecord, ClientRegistry, add, save, exists}
use qoqtun.Enroll.Server.{
  Request, Response, Draws, granted, denied, code_internal, cert_serial, sign_from_csr,
  check_signed, recording, add_record,
}

module _ (x : X509) (ca : Ca) (days : ℤ) where
  -- What the signing of a request has checked, and the certificate that it made.
  unfoldable pub Signs : Bytes → Draws → Bytes → Csr → ℕ → Type 0
  Signs text d pem csr serial =
      (x.parse_csr text ≡ some csr)
      × (csr.is_ed25519 ≡ true)
      × (csr.signature_valid ≡ true)
      × (valid_client_id csr.common_name ≡ true)
      × (d.serial ≡ some serial)
      × (x.create_certificate (template ca csr days serial d.now) ≡ some pem)

  pub sign_client_certificate_lem :
      (text : Bytes) (d : Draws) (pem : Bytes)
      → sign_client_certificate x ca text days d.serial d.now ≡ some pem
      → (csr : Csr) × (serial : ℕ) × Signs text d pem csr serial
  unfolding sign_client_certificate Signs
  sign_client_certificate_lem text d pem h = elim (Option-cases (x.parse_csr text)) [
    | inl no_csr ↦ let q = rw (sign_client_certificate, no_csr) at h in ground arith
    | inr (csr, parsed) ↦ elim (Option-cases d.serial) [
      | inl no_serial ↦ let q = rw (sign_client_certificate, parsed, no_serial) at h in ground arith
      | inr (serial, drawn) ↦
          elim (Bool-cases (
            not csr.is_ed25519
            || not csr.signature_valid
            || not (valid_client_id csr.common_name)
            || ltz days (pos 1)
            || ltz (pos 825) days)) [
              | inl bad ↦
                  let q = rw (sign_client_certificate, parsed, drawn, bad) at h in ground arith
              | inr good ↦
                  let q = rw (sign_client_certificate, parsed, drawn, good) at h in
                  (csr, serial, (parsed, ground arith, ground arith, ground arith, drawn, q))
            ]
    ]
  ]

  pub sign_from_csr_lem :
      (text : Bytes) (d : Draws) (pem : Bytes) (c : Certificate)
      → sign_from_csr x ca days text d ≡ some (pem, c)
      → (sign_client_certificate x ca text days d.serial d.now ≡ some pem)
        × (x.parse_certificate pem ≡ some c)
  unfolding sign_from_csr
  sign_from_csr_lem text d pem c h =
      elim (Option-cases (sign_client_certificate x ca text days d.serial d.now)) [
        | inl unsigned ↦ let q = rw (sign_from_csr, unsigned) at h in ground arith
        | inr (p, signed) ↦ elim (Option-cases (x.parse_certificate p)) [
          | inl unread ↦ let q = rw (sign_from_csr, signed, unread) at h in ground arith
          | inr (c', read) ↦
              let q : some (p, c') ≡ some (pem, c) = rw (sign_from_csr, signed, read) at h in
              let e : p ≡ pem = ground arith in
              let e' : c' ≡ c = ground arith in (signed ∙ ap some e, rw (e, e') at read)
        ]
      ]

  -- A record is made only for an id that is not there.
  pub check_signed_lem :
      (r : Request) (d : Draws) (reg : ClientRegistry) (o : Option (Bytes × Certificate))
      (rec : ClientRecord) (good bad : Response)
      → check_signed x ca days r d reg o ≡ recording rec good bad
      → (pem : Bytes) × (c : Certificate) × (o ≡ some (pem, c))
        × (lookup c.common_name reg.by_id ≡ none)
        × (rec.client_id ≡ c.common_name)
        × (rec.cert_serial ≡ cert_serial x ca days pem)
        × (good ≡ granted pem ca.pem c.not_after)
        × (bad ≡ denied code_internal)
  unfolding check_signed exists
  check_signed_lem r d reg none rec good bad h = ground (arith, h)
  check_signed_lem r d reg (some (pem, c)) rec good bad h =
      elim (Option-cases (lookup c.common_name reg.by_id)) [
        | inr (old, there) ↦ ground (arith, rw (check_signed, exists, there) at h)
        | inl free ↦
            let q = rw (check_signed, exists, free) at h in
            (pem, c, refl, free, ground arith, ground arith, ground arith, ground arith)
      ]

  -- A grant comes with the record.
  pub add_record_lem :
      (rec : ClientRecord) (good : Response) (d : Draws) (reg : ClientRegistry) (pem ca_pem : Bytes)
      (until : ℕ)
      → (add_record x ca days rec good (denied code_internal) d reg).0 ≡ granted pem ca_pem until
      → (good ≡ granted pem ca_pem until)
        × (lookup rec.client_id (add_record x ca days rec good (denied code_internal) d reg).1.by_id
            ≡ some rec)
  unfolding add_record add save
  add_record_lem rec good d reg pem ca_pem until h =
      elim (Bool-cases (valid_client_id rec.client_id)) [
        | inr bad ↦ ground (arith, rw (add_record, add, bad) at h)
        | inl ok ↦ elim (Bool-cases d.registry_saved) [
          | inr lost ↦ ground (arith, rw (add_record, add, ok, save, lost) at h)
          | inl saved ↦ (
            rw (add_record, add, ok, save, saved) at h,
            rw (add_record, add, ok, save, saved) (lookup-insert_self rec.client_id rec reg.by_id),
          )
        ]
      ]

  pub template_lem :
      (csr : Csr) (serial now : ℕ)
      → ((template ca csr days serial now).common_name ≡ csr.common_name)
        × ((template ca csr days serial now).serial ≡ serial)
        × ((template ca csr days serial now).not_after ≤ ca.not_after)
  unfolding template
  template_lem csr serial now = (refl, refl, ground arith)
