-- ===== src/Enroll/Server/Settled.antt =====
-- internal/enroll/server.go: what a handler adds to the registry of clients, and what that leaves of a
-- client that is enrolled.
use qoqtun.Prelude.{
  ℕ, ◌≡◌, refl, Bool, true, false, Option, none, some, arith, ◌==◌, nat_eq, Bytes, bytes_eq,
  bytes_beq_iff, Bool-cases, inl, inr, sym, subst, ◌∙◌, ap,
}
use qoqtun.Prelude.Int.{ℤ}
use qoqtun.Prelude.Maps.{
  Map, lookup, insert, delete, lookup-delete, lookup-insert, lookup-insert_self, lookup-insert_ne,
}
use qoqtun.Auth.TokenStore
use qoqtun.Pki.Sign.{X509, Certificate, Ca, valid_client_id}
use qoqtun.Pki.Registry.{ClientRecord, ClientRegistry, add, save, get}
use qoqtun.Pki.Revocation.{RevocationList}
use qoqtun.Enroll.Server.{
  Request, Response, granted, denied, Stage, recording, replying, Draws, code_bad_request,
  check_signed, renewed, renew_signed, start_renew, start_enroll, after_token, cert_serial,
}
use qoqtun.Enroll.Server.Signed.{check_signed_lem}

-- The same client: all but the serial of its certificate.
abbrev pub IsSame : ClientRecord → ClientRecord → Type 0
IsSame a b =
    (b.client_id ≡ a.client_id)
    × (b.name ≡ a.name)
    × (b.note ≡ a.note)
    × (b.created_at ≡ a.created_at)

-- Each record stands under its own id.
abbrev pub IsKeyed : ClientRegistry → Type 0
IsKeyed reg =
    (id : Bytes) (rec : ClientRecord) → lookup id reg.by_id ≡ some rec → rec.client_id ≡ id

-- The client is enrolled still, as the same.
abbrev pub Kept : Bytes → ClientRecord → ClientRegistry → Type 0
Kept id rec reg = (rec' : ClientRecord) × (lookup id reg.by_id ≡ some rec') × IsSame rec rec'

-- A record that the handler adds next is of another client, or of the same with its identity.
abbrev pub Spares : Bytes → ClientRecord → Stage → Type 0
Spares id rec stage =
    (r : ClientRecord) (good bad : Response)
    → stage ≡ recording r good bad
    → r.client_id ≡ id
    → IsSame rec r

abbrev pub Undisturbed : Bytes → ClientRecord → Map ℕ (Bytes × Stage) → Type 0
Undisturbed id rec hs =
    (n : ℕ) (host : Bytes) (stage : Stage) → lookup n hs ≡ some (host, stage) → Spares id rec stage

pub save-by_id : (saved : Bool) (reg : ClientRegistry) → (save saved reg).1.by_id ≡ reg.by_id
unfolding save
save-by_id true reg = refl
save-by_id false reg = refl

pub insert-IsKeyed :
    (rec : ClientRecord) (reg reg' : ClientRegistry)
    → IsKeyed reg
    → reg'.by_id ≡ insert rec.client_id rec reg.by_id
    → IsKeyed reg'
insert-IsKeyed rec reg reg' k e id found h = elim (Bool-cases (rec.client_id == id)) [
  | inl own ↦ ground (
    arith,
    lookup-insert rec.client_id id rec reg.by_id,
    (bytes_beq_iff rec.client_id id).0 own,
    rw e at h,
  )
  | inr other ↦ k id found (sym (lookup-insert_ne rec.client_id id rec reg.by_id other) ∙ rw e at h)
]

pub add-Kept :
    (id : Bytes) (rec r : ClientRecord) (saved : Bool) (reg : ClientRegistry)
    → Kept id rec reg
    → IsKeyed reg
    → (r.client_id ≡ id → IsSame rec r)
    → Kept id rec (add r saved reg).1 × IsKeyed (add r saved reg).1
unfolding add
add-Kept id rec r saved reg (rec', at, same) k own =
    elim (Bool-cases (valid_client_id r.client_id)) [
      | inr bad ↦ rw (add, bad) ((rec', at, same), k)
      | inl good ↦
          let put : ClientRegistry = record reg { by_id = insert r.client_id r reg.by_id } in
          let e : (save saved put).1.by_id ≡ insert r.client_id r reg.by_id =
            save-by_id saved put in
          rw (add, good)
            (
              elim (Bool-cases (r.client_id == id)) [
                | inl mine ↦
                    let named = (bytes_beq_iff r.client_id id).0 mine in
                    (
                      r,
                      subst (λ j. lookup j (save saved put).1.by_id ≡ some r) named
                          (rw e (lookup-insert_self r.client_id r reg.by_id)),
                      own named,
                    )
                | inr other ↦
                    (rec', rw e (lookup-insert_ne r.client_id id r reg.by_id other ∙ at), same)
              ],
              insert-IsKeyed r reg (save saved put).1 k e,
            )
    ]

pub enters-Undisturbed :
    (id : Bytes) (rec : ClientRecord) (n : ℕ) (host : Bytes) (stage : Stage)
    (hs : Map ℕ (Bytes × Stage))
    → Undisturbed id rec hs
    → Spares id rec stage
    → Undisturbed id rec (insert n (host, stage) hs)
enters-Undisturbed id rec n host stage hs u new m h st at = elim (Bool-cases (n == m)) [
  | inl here ↦
      let q : some (host, stage) ≡ some (h, st) =
        sym (lookup-insert n m (host, stage) hs ∙ rw here refl) ∙ at in
      subst (λ t. Spares id rec t) (ground (arith, q)) new
  | inr there ↦ u m h st (sym (lookup-insert_ne n m (host, stage) hs there) ∙ at)
]

pub leaves-Undisturbed :
    (id : Bytes) (rec : ClientRecord) (n : ℕ) (hs : Map ℕ (Bytes × Stage))
    → Undisturbed id rec hs
    → Undisturbed id rec (delete n hs)
leaves-Undisturbed id rec n hs u m h st at = u m h st (ground (arith, lookup-delete n m hs, at))

pub no_record : (id : Bytes) (rec : ClientRecord) (a : Response) → Spares id rec (replying a)
no_record id rec a r good bad h = ground (arith, h)

module _ (x : X509) (ca : Ca) (days : ℤ) where
  pub check_signed-Spares :
      (id : Bytes) (rec : ClientRecord) (r : Request) (d : Draws) (reg : ClientRegistry)
      (o : Option (Bytes × Certificate))
      → Kept id rec reg
      → Spares id rec (check_signed x ca days r d reg o)
  check_signed-Spares id rec r d reg o (rec', at, same) made good bad h named =
      let (pem, c, found, free, name, serial, yes_is, no_is) =
        check_signed_lem x ca days r d reg o made good bad h in
      absurd (ground (arith, at, subst (λ j. lookup j reg.by_id ≡ none) (sym name ∙ named) free))

  pub renewed-Spares :
      (id own pem : Bytes) (rec : ClientRecord) (a : Response) (reg : ClientRegistry)
      (o : Option ClientRecord)
      → lookup own reg.by_id ≡ o
      → Kept id rec reg
      → IsKeyed reg
      → Spares id rec (renewed x ca days pem a o)
  unfolding renewed
  renewed-Spares id own pem rec a reg none e kept k made good bad h named =
      no_record id rec a made good bad h named
  renewed-Spares id own pem rec a reg (some old) e (rec', at, same) k made good bad h named =
      let q : record old { cert_serial = cert_serial x ca days pem } ≡ made = ground (arith, h) in
      let mine : own ≡ id = sym (k own old e) ∙ ap (λ r. r.client_id) q ∙ named in
      let both : some old ≡ some rec' =
        sym (subst (λ j. lookup j reg.by_id ≡ some old) mine e) ∙ at in
      let p : rec' ≡ old = ground arith in
      let t : IsSame rec old = subst (λ r. IsSame rec r) p same in subst (λ r. IsSame rec r) q t

  pub renew_signed-Spares :
      (id own : Bytes) (rec : ClientRecord) (reg : ClientRegistry)
      (o : Option (Bytes × Certificate))
      → Kept id rec reg
      → IsKeyed reg
      → Spares id rec (renew_signed x ca days own reg o)
  unfolding renew_signed get
  renew_signed-Spares id own rec reg none kept k = no_record id rec (denied code_bad_request)
  renew_signed-Spares id own rec reg (some (pem, c)) kept k =
      elim (Bool-cases (c.common_name == own)) [
        | inl mine ↦
            rw (renew_signed, mine)
              (renewed-Spares id own pem rec (granted pem ca.pem c.not_after) reg
                (lookup own reg.by_id) refl kept k)
        | inr other ↦ rw (renew_signed, other) (no_record id rec (denied code_bad_request))
      ]

  pub start_renew-Spares :
      (id : Bytes) (rec : ClientRecord) (peer : Option Certificate) (r : Request)
      (l : RevocationList)
      → Spares id rec (start_renew x ca days peer r l)
  unfolding start_renew
  start_renew-Spares id rec none r l made good bad h named = ground (arith, h)
  start_renew-Spares id rec (some old) r l made good bad h named = ground (arith, h)

  module _ (hash_token : Bytes → Bytes) where
    pub start_enroll-Spares :
        (id : Bytes) (rec : ClientRecord) (r : Request) (d : Draws) (t : TokenStore.State)
        → Spares id rec (start_enroll x ca days hash_token r d t).0
    unfolding start_enroll after_token
    start_enroll-Spares id rec r d t made good bad h named = ground (arith, h)
