-- ===== src/Enroll/Server/Tokens.antt =====
-- internal/enroll/server.go and internal/auth/store.go: the endpoint as a client of the token store.
use qoqtun.Prelude.{
  ℕ, ◌≡◌, refl, Bool, true, Option, none, some, List, [], ◌∷◌, ◌++◌, arith, ◌==◌, Bytes, bytes_eq,
  codes, Bool-cases, Option-cases, nat_eq, inl, inr, subst, ◌≢◌,
}
use qoqtun.Prelude.Int.{ℤ}
use qoqtun.Auth.TokenStore
use qoqtun.Auth.TokenStore.{consumed, consume}
use qoqtun.Auth.TokenStore.Once.{IsWell}
use qoqtun.Auth.TokenStore.History.{Call, try_token, all_spare, spares, consume_once}
use qoqtun.Auth.TokenStore.History
use qoqtun.Enroll.RateLimit.{allow}
use qoqtun.Pki.Sign.{X509, Certificate, Ca}
use qoqtun.Prelude.Maps.{lookup}
use qoqtun.Enroll.Server.{
  Request, State, Stage, opened, spent, renewing, recording, replying, Draws, start_enroll,
  read_request, advance, accept, report_to, enters, Event, accepted, goes_on, step, run,
}

module _ (hash_token : Bytes → Bytes) where
  -- Attempts alone lead from one state of the store to the other.
  Attempts : TokenStore.State → TokenStore.State → Type 0
  Attempts t t' =
      (cs : List Call) × (History.run hash_token cs t ≡ t')
      × ((id : Bytes) → all_spare id cs ≡ true)

  no_attempt : (t : TokenStore.State) → Attempts t t
  unfolding Attempts History.run all_spare
  no_attempt t = ([], refl, λ id. refl)

  one_attempt :
      (text : Bytes) (now : ℕ) (saved : Option ℕ) (t : TokenStore.State)
      → Attempts t (consume hash_token text now saved t).1
  unfolding Attempts History.run History.step all_spare spares
  one_attempt text now saved t = (try_token text now saved ∷ [], refl, λ id. refl)

  run-append :
      (cs ds : List Call) (t : TokenStore.State)
      → History.run hash_token (cs ++ ds) t
        ≡ History.run hash_token ds (History.run hash_token cs t)
  unfolding History.run
  run-append [] ds t = refl
  run-append (c ∷ cs) ds t = run-append cs ds (History.step hash_token c t).1

  all_spare-append :
      (id : Bytes) (cs ds : List Call)
      → all_spare id cs ≡ true
      → all_spare id ds ≡ true
      → all_spare id (cs ++ ds) ≡ true
  unfolding all_spare
  all_spare-append id [] ds a b = b
  all_spare-append id (c ∷ cs) ds a b = ground (arith, all_spare-append id cs ds (ground arith) b)

  Attempts-trans : (t t' t'' : TokenStore.State) → Attempts t t' → Attempts t' t'' → Attempts t t''
  unfolding Attempts
  Attempts-trans t t' t'' (cs, e, s) (ds, e', s') =
      (cs ++ ds, rw (run-append cs ds t, e) e', λ id. all_spare-append id cs ds (s id) (s' id))

  module _ (x : X509) (ca : Ca) (days : ℤ) {Limiter : Type 0} (fresh : Limiter)
      (take : ℕ → Limiter → Bool × Limiter) where
    read_request-Attempts :
        (n : ℕ) (host : Bytes) (peer : Option Certificate) (r : Option Request) (d : Draws)
        (s : State Limiter)
        → Attempts s.tokens (read_request x ca days hash_token fresh take n host peer r d s).tokens
    unfolding read_request report_to start_enroll
    read_request-Attempts n host peer none d s = no_attempt s.tokens
    read_request-Attempts n host peer (some r) d s = elim (Bool-cases (r.kind == codes "enroll")) [
      | inl enroll ↦ rw (read_request, enroll) (one_attempt r.token d.now d.tokens_saved s.tokens)
      | inr other ↦ elim (Bool-cases (r.kind == codes "renew")) [
        | inl renew ↦ rw (read_request, other, renew) (no_attempt s.tokens)
        | inr unknown ↦ rw (read_request, other, unknown) (no_attempt s.tokens)
      ]
    ]

    advance-Attempts :
        (n : ℕ) (host : Bytes) (stage : Stage) (r : Option Request) (d : Draws) (s : State Limiter)
        → Attempts s.tokens (advance x ca days hash_token fresh take n host stage r d s).tokens
    unfolding advance report_to
    advance-Attempts n host (opened peer) r d s = read_request-Attempts n host peer r d s
    advance-Attempts n host (spent q) r d s = no_attempt s.tokens
    advance-Attempts n host (renewing id q) r d s = no_attempt s.tokens
    advance-Attempts n host (recording rec good bad) r d s = no_attempt s.tokens
    advance-Attempts n host (replying a) r d s = no_attempt s.tokens

    step-Attempts :
        (e : Event) (s : State Limiter)
        → Attempts s.tokens (step x ca days hash_token fresh take e s).tokens
    unfolding step accept
    step-Attempts (accepted n host peer d) s =
        let a = allow fresh take d.now host s.limits in
        elim (Bool-cases a.0) [
          | inl may ↦ rw (step, accept, may) (no_attempt s.tokens)
          | inr out ↦ rw (step, accept, out) (no_attempt s.tokens)
        ]
    step-Attempts (goes_on n r d) s = elim (Option-cases (lookup n s.handlers)) [
      | inl gone ↦ rw (step, gone) (no_attempt s.tokens)
      | inr ((host, stage), there) ↦ rw (step, there) (advance-Attempts n host stage r d s)
    ]

    run-Attempts :
        (es : List Event) (s : State Limiter)
        → Attempts s.tokens (run x ca days hash_token fresh take es s).tokens
    unfolding run
    run-Attempts [] s = no_attempt s.tokens
    run-Attempts (e ∷ es) s =
        let s' = step x ca days hash_token fresh take e s in
        Attempts-trans s.tokens s'.tokens (run x ca days hash_token fresh take es s').tokens
          (step-Attempts e s) (run-Attempts es s')

    -- A token that an enrollment spent is not spent by any later one, with whatever text, however
    -- the handlers of whatever connections interleave in between: if nothing else writes the file of
    -- tokens and the records of the store stand under their own ids, each once.
    pub enroll_spends_once :
        (id : Bytes) (n : ℕ) (host : Bytes) (r r' : Request) (d d' : Draws) (es : List Event)
        (s : State Limiter)
        → IsWell s.tokens.store.by_id
        → (consume hash_token r.token d.now d.tokens_saved s.tokens).0 ≡ consumed id
        → let a = start_enroll x ca days hash_token r d s.tokens in
          let s' =
            run x ca days hash_token fresh take es
              (enters x ca days hash_token fresh take n host a.0 (record s { tokens = a.1 })) in
          (consume hash_token r'.token d'.now d'.tokens_saved s'.tokens).0 ≢ consumed id
    unfolding Attempts start_enroll
    enroll_spends_once id n host r r' d d' es s well first =
        let a = start_enroll x ca days hash_token r d s.tokens in
        let (cs, e, spare) =
          run-Attempts es
            (enters x ca days hash_token fresh take n host a.0 (record s { tokens = a.1 })) in
        let once =
          consume_once hash_token id r.token r'.token d.now d'.now d.tokens_saved d'.tokens_saved cs
            s.tokens well first (spare id) in
        subst (λ t. (consume hash_token r'.token d'.now d'.tokens_saved t).0 ≢ consumed id) e once
