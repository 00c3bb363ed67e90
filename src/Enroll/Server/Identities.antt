-- ===== src/Enroll/Server/Identities.antt =====
-- internal/enroll/server.go: what any interleaving of the handlers leaves of a client that is enrolled.
use qoqtun.Prelude.{
  ℕ, ◌≡◌, refl, Bool, Option, none, some, List, [], ◌∷◌, arith, ◌==◌, nat_eq, Bytes, bytes_eq,
  codes, Bool-cases, Option-cases, inl, inr,
}
use qoqtun.Prelude.Int.{ℤ}
use qoqtun.Prelude.Maps.{lookup, insert}
use qoqtun.Enroll.RateLimit.{allow}
use qoqtun.Pki.Sign.{X509, Certificate, Ca}
use qoqtun.Pki.Registry.{ClientRecord}
use qoqtun.Enroll.Server.{
  Request, denied, State, Stage, opened, spent, renewing, recording, replying, Draws,
  code_bad_request, sign_from_csr, add_record, sign_next, read_request, advance, accept, report_to,
  Event, accepted, goes_on, step, run,
}
use qoqtun.Enroll.Server.Settled.{
  IsKeyed, Kept, Spares, Undisturbed, add-Kept, enters-Undisturbed, leaves-Undisturbed, no_record,
  check_signed-Spares, renew_signed-Spares, start_renew-Spares, start_enroll-Spares,
}

module _ (x : X509) (ca : Ca) (days : ℤ) (hash_token : Bytes → Bytes) {Limiter : Type 0}
    (fresh : Limiter) (take : ℕ → Limiter → Bool × Limiter) (id : Bytes) (rec : ClientRecord) where
  -- The client is enrolled, and no record that is about to be added takes its id over.
  abbrev pub IsSettled : State Limiter → Type 0
  IsSettled s = Kept id rec s.registry × IsKeyed s.registry × Undisturbed id rec s.handlers

  read_request-IsSettled :
      (n : ℕ) (host : Bytes) (peer : Option Certificate) (r : Option Request) (d : Draws)
      (s : State Limiter)
      → IsSettled s
      → IsSettled (read_request x ca days hash_token fresh take n host peer r d s)
  unfolding read_request report_to
  read_request-IsSettled n host peer none d s (kept, k, u) =
      (kept, k, leaves-Undisturbed id rec n s.handlers u)
  read_request-IsSettled n host peer (some r) d s (kept, k, u) =
      let enter : (stage : Stage)
          → Spares id rec stage
          → Undisturbed id rec (insert n (host, stage) s.handlers) =
        λ stage. enters-Undisturbed id rec n host stage s.handlers u in
      elim (Bool-cases (r.kind == codes "enroll")) [
        | inl enroll ↦
            rw (read_request, enroll)
              (kept, k, enter _ (start_enroll-Spares x ca days hash_token id rec r d s.tokens))
        | inr other ↦ elim (Bool-cases (r.kind == codes "renew")) [
          | inl renew ↦
              rw (read_request, other, renew)
                (kept, k, enter _ (start_renew-Spares x ca days id rec peer r s.revoked))
          | inr unknown ↦
              rw (read_request, other, unknown)
                (kept, k, enter _ (no_record id rec (denied code_bad_request)))
        ]
      ]

  advance-IsSettled :
      (n : ℕ) (host : Bytes) (stage : Stage) (r : Option Request) (d : Draws) (s : State Limiter)
      → IsSettled s
      → Spares id rec stage
      → IsSettled (advance x ca days hash_token fresh take n host stage r d s)
  unfolding advance sign_next add_record report_to
  advance-IsSettled n host (opened peer) r d s i sp = read_request-IsSettled n host peer r d s i
  advance-IsSettled n host (spent q) r d s (kept, k, u) sp = (
    kept,
    k,
    enters-Undisturbed id rec n host _ s.handlers u (
        check_signed-Spares x ca days id rec q d s.registry (sign_from_csr x ca days q.csr d) kept),
  )
  advance-IsSettled n host (renewing own q) r d s (kept, k, u) sp = (
    kept,
    k,
    enters-Undisturbed id rec n host _ s.handlers u (
        renew_signed-Spares x ca days id own rec s.registry (sign_from_csr x ca days q.csr d) kept
          k),
  )
  advance-IsSettled n host (recording made good bad) r d s (kept, k, u) sp =
      let (kept', k') =
        add-Kept id rec made d.registry_saved s.registry kept k (sp made good bad refl) in
      (kept', k', enters-Undisturbed id rec n host _ s.handlers u (no_record id rec _))
  advance-IsSettled n host (replying a) r d s (kept, k, u) sp =
      (kept, k, leaves-Undisturbed id rec n s.handlers u)

  step-IsSettled :
      (e : Event) (s : State Limiter)
      → IsSettled s
      → IsSettled (step x ca days hash_token fresh take e s)
  unfolding step accept
  step-IsSettled (accepted n host peer d) s (kept, k, u) =
      let a = allow fresh take d.now host s.limits in
      elim (Bool-cases a.0) [
        | inl may ↦
            rw (step, accept, may)
              (
                kept,
                k,
                enters-Undisturbed id rec n host (opened peer) s.handlers u
                    (λ r good bad h named. ground (arith, h)),
              )
        | inr out ↦ rw (step, accept, out) (kept, k, u)
      ]
  step-IsSettled (goes_on n r d) s i = elim (Option-cases (lookup n s.handlers)) [
    | inl gone ↦ rw (step, gone) i
    | inr ((host, stage), there) ↦
        rw (step, there) (advance-IsSettled n host stage r d s i (i.2 n host stage there))
  ]

  -- However the handlers of the endpoint interleave: a client that is enrolled stays enrolled
  -- under its id, with its name, its note and the time of its enrollment, so that no enrollment
  -- begun from then on takes the id over and a renewal changes the serial alone; if no handler
  -- that has already looked for the id is still to add another record under it, and each record
  -- stands under its own id.
  pub run-Keeps :
      (es : List Event) (s : State Limiter)
      → lookup id s.registry.by_id ≡ some rec
      → IsKeyed s.registry
      → Undisturbed id rec s.handlers
      → IsSettled (run x ca days hash_token fresh take es s)
  unfolding run
  run-Keeps es s at k u = settled es s ((rec, at, (refl, refl, refl, refl)), k, u)
    where
      settled :
          (es : List Event) (s : State Limiter)
          → IsSettled s
          → IsSettled (run x ca days hash_token fresh take es s)
      settled [] s i = i
      settled (e ∷ es) s i =
          settled es (step x ca days hash_token fresh take e s) (step-IsSettled e s i)
