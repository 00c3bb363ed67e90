-- ===== src/Security/Bandwidth/Sharing.antt =====
-- internal/security/limiter.go: what a shared bucket does to the connections that share it.
use qoqtun.Prelude.{
  ℕ, suc, ◌≡◌, Bool, true, false, ◌&&◌, Option, none, some, List, [], ◌∷◌, arith, if◌then◌else◌,
  ◌==◌, nat_eq, ==_refl, Option-cases, is_some, inl, inr,
}
use qoqtun.Prelude.Maps.{Map, lookup, lookup-insert}
use qoqtun.Security.Bandwidth.{
  TokenBucket, World, LimitedConn, contains, is_limited, active_buckets, put_ctx, set_ctx,
  new_rate_limited_conn, close, wait_n, write, read,
}

-- The context of a bucket that has a limiter.
limited_ctx : {Limiter : Type 0} → ℕ → Map ℕ (TokenBucket Limiter) → Option ℕ
limited_ctx b m = elim (lookup b m) [
  | none ↦ none
  | some t ↦ elim t.lim [ none ↦ none | some l ↦ some t.ctx ]
]

limited_ctx-put_ctx :
    {Limiter : Type 0} (c x b : ℕ) (m : Map ℕ (TokenBucket Limiter))
    → limited_ctx b (put_ctx c x m)
      ≡ (if x == b && is_some (limited_ctx b m) then some c else limited_ctx b m)
unfolding limited_ctx put_ctx
limited_ctx-put_ctx c x b m = elim (Option-cases (lookup x m)) [
  | inl miss ↦ ground arith
  | inr (t, hit) ↦ ground (arith, lookup-insert x b (record t { ctx = c }) m)
]

set_ctx_keeps :
    {Limiter : Type 0} (c b : ℕ) (bs : List ℕ) (m : Map ℕ (TokenBucket Limiter))
    → limited_ctx b m ≡ some c
    → limited_ctx b (set_ctx c bs m) ≡ some c
unfolding set_ctx
set_ctx_keeps c b [] m h = h
set_ctx_keeps c b (x ∷ bs) m h =
    set_ctx_keeps c b bs (put_ctx c x m) (ground (arith, limited_ctx-put_ctx c x b m))

set_ctx_takes :
    {Limiter : Type 0} (c b : ℕ) (bs : List ℕ) (m : Map ℕ (TokenBucket Limiter))
    → is_some (limited_ctx b m) ≡ true
    → limited_ctx b (set_ctx c (b ∷ bs) m) ≡ some c
unfolding set_ctx
set_ctx_takes c b bs m h =
    set_ctx_keeps c b bs (put_ctx c b m) (ground (arith, limited_ctx-put_ctx c b b m))

is_limited_lem :
    {Limiter : Type 0} (w : World Limiter) (b : ℕ)
    → is_limited w b ≡ is_some (limited_ctx b w.buckets)
unfolding is_limited limited_ctx
is_limited_lem w b = ground arith

-- A connection wrapped around a list that starts with the limited bucket `b` takes the bucket over.
new_takes :
    {Limiter : Type 0} (w w' : World Limiter) (b : ℕ) (bs : List (Option ℕ)) (c : LimitedConn)
    → is_limited w b ≡ true
    → new_rate_limited_conn w (some b ∷ bs) ≡ (some c, w')
    → limited_ctx b w'.buckets ≡ some c.cancel
unfolding new_rate_limited_conn active_buckets
new_takes w w' b bs c h e =
    ground (arith, set_ctx_takes w.next_ctx b (active_buckets w bs) w.buckets, is_limited_lem w b)

module _ {Limiter : Type 0} (make : ℕ → ℕ → Limiter)
    (wait : Limiter → ℕ → Bool → Bool × Limiter) where
  wait_n_cancelled :
      ((l : Limiter) (n : ℕ) → (wait l n true).0 ≡ false)
      → (w : World Limiter) (b n c : ℕ) → limited_ctx b w.buckets ≡ some c
      → contains w.cancelled c ≡ true
      → (wait_n make wait w b n).0 ≡ false
  unfolding wait_n limited_ctx
  wait_n_cancelled fails w b n c owner dead = elim (Option-cases (lookup b w.buckets)) [
    | inl miss ↦ ground arith
    | inr (t, hit) ↦ elim (Option-cases t.lim) [
      | inl unlimited ↦ ground arith
      | inr (l, limited) ↦ ground (arith, fails l n)
    ]
  ]

  -- The fault: two connections of one client share the client's bucket, and wrapping the second one
  -- hands the bucket its own context. Once the second is closed, each write and each read of at
  -- least one byte on the first fails. `WaitN` is assumed to fail when its context is done.
  pub close_breaks_sharer :
      ((l : Limiter) (n : ℕ) → (wait l n true).0 ≡ false)
      → (w w' : World Limiter) (b : ℕ) (rest : List ℕ) (bs : List (Option ℕ))
        (first second : LimitedConn) (n : ℕ)
      → is_limited w b ≡ true
      → first.chain ≡ b ∷ rest
      → new_rate_limited_conn w (some b ∷ bs) ≡ (some second, w')
      → ((write make wait (close w' second) first n).0 ≡ false)
        × ((read make wait (close w' second) first (suc n)).0 ≡ false)
  unfolding write read close contains
  close_breaks_sharer fails w w' b rest bs first second n limited shares wrapped =
      let dead = λ (k : ℕ).
        wait_n_cancelled fails (record w' { cancelled = second.cancel ∷ w'.cancelled }) b k
          second.cancel (new_takes w w' b bs second limited wrapped)
          (ground (arith, ==_refl second.cancel)) in
      (ground (arith, dead n), ground (arith, dead (suc n)))
