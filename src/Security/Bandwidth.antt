-- ===== src/Security/Bandwidth.antt =====
-- internal/security/limiter.go: bandwidth buckets chained around a connection. Buckets are shared
-- by pointer, so they live in a table; a context is a number, and the cancelled ones are listed.
-- The limiter of golang.org/x/time/rate is a parameter: `make bps burst`, and
-- `wait l n done`, which says whether `WaitN` returns nil when its context is `done` or not.
pub mod Sharing
use qoqtun.Prelude.{
  ℕ, zero, suc, ◌*◌, ◌/◌, Bool, true, false, ◌||◌, Option, none, some, List, [], ◌∷◌, if◌then◌else◌,
  ◌==◌, ltb, nat_eq,
}
use qoqtun.Prelude.Int.{ℤ, pos, pos_part, lez}
use qoqtun.Prelude.Maps.{Map, lookup, insert}

-- An unlimited bucket has no limiter.
pub record TokenBucket (Limiter : Type 0) : Type 0 where
  pub lim : Option Limiter
  pub ctx : ℕ

pub record World (Limiter : Type 0) : Type 0 where
  pub buckets : Map ℕ (TokenBucket Limiter)
  pub cancelled : List ℕ
  pub next_ctx : ℕ
  pub next_bucket : ℕ

-- A `RateLimitedConn`: its active buckets and the context that `Close` cancels.
pub record LimitedConn : Type 0 where
  pub chain : List ℕ
  pub cancel : ℕ

unfoldable pub burst_of : ℕ → ℕ
burst_of bps = if ltb (bps / 10) (32 * 1024) then 32 * 1024 else bps / 10

unfoldable pub contains : List ℕ → ℕ → Bool
contains [] c = false
contains (x ∷ xs) c = x == c || contains xs c

-- `bucket.lim != nil`, for the bucket that a pointer names.
unfoldable pub is_limited : {Limiter : Type 0} → World Limiter → ℕ → Bool
is_limited w b = elim (lookup b w.buckets) [
  | none ↦ false
  | some t ↦ elim t.lim [ none ↦ false | some l ↦ true ]
]

-- The first loop of `NewRateLimitedConn`; a nil pointer is `none`.
unfoldable pub active_buckets : {Limiter : Type 0} → World Limiter → List (Option ℕ) → List ℕ
active_buckets w [] = []
active_buckets w (none ∷ bs) = active_buckets w bs
active_buckets w (some b ∷ bs) =
    if is_limited w b then b ∷ active_buckets w bs else active_buckets w bs

-- The second loop: each active bucket is given the context of the new connection.
unfoldable pub put_ctx :
    {Limiter : Type 0} → ℕ → ℕ → Map ℕ (TokenBucket Limiter) → Map ℕ (TokenBucket Limiter)
put_ctx c b m = elim (lookup b m) [ none ↦ m | some t ↦ insert b (record t { ctx = c }) m ]

unfoldable pub set_ctx :
    {Limiter : Type 0} → ℕ → List ℕ → Map ℕ (TokenBucket Limiter) → Map ℕ (TokenBucket Limiter)
set_ctx c [] m = m
set_ctx c (b ∷ bs) m = set_ctx c bs (put_ctx c b m)

unfoldable pub new_rate_limited_conn :
    {Limiter : Type 0} → World Limiter → List (Option ℕ) → Option LimitedConn × World Limiter
new_rate_limited_conn w bs = elim (active_buckets w bs) [
  | [] ↦ (none, w)
  | b ∷ rest ↦ (
    some (record { chain = b ∷ rest; cancel = w.next_ctx }),
    record w { buckets = set_ctx w.next_ctx (b ∷ rest) w.buckets; next_ctx = suc w.next_ctx },
  )
]

-- `Close` of the wrapper; cancelling twice changes nothing.
unfoldable pub close : {Limiter : Type 0} → World Limiter → LimitedConn → World Limiter
close w c = record w { cancelled = c.cancel ∷ w.cancelled }

module _ {Limiter : Type 0} (make : ℕ → ℕ → Limiter)
    (wait : Limiter → ℕ → Bool → Bool × Limiter) where
  -- `NewTokenBucket`; its own context is never cancelled.
  unfoldable pub new_token_bucket : World Limiter → ℤ → ℕ × World Limiter
  new_token_bucket w bps =
      let b = w.next_bucket in
      let lim : Option Limiter =
        if lez bps (pos 0) then none else some (make (pos_part bps) (burst_of (pos_part bps))) in
      (
        b,
        record w {
          buckets = insert b (record { lim = lim; ctx = w.next_ctx }) w.buckets;
          next_ctx = suc w.next_ctx;
          next_bucket = suc b;
        },
      )

  -- `WaitN` of one bucket.
  unfoldable pub wait_n : World Limiter → ℕ → ℕ → Bool × World Limiter
  wait_n w b n = elim (lookup b w.buckets) [
    | none ↦ (true, w)
    | some t ↦ elim t.lim [
      | none ↦ (true, w)
      | some l ↦
          let r = wait l n (contains w.cancelled t.ctx) in
          (r.0, record w { buckets = insert b (record t { lim = some r.1 }) w.buckets })
    ]
  ]

  -- The loop of `Read` and `Write` over the chained buckets: it stops at the first error.
  unfoldable pub wait_all : World Limiter → List ℕ → ℕ → Bool × World Limiter
  wait_all w [] n = (true, w)
  wait_all w (b ∷ bs) n =
      let r = wait_n w b n in let rest = wait_all r.1 bs n in if r.0 then rest else (false, r.1)

  -- `Write`: whether the bytes reach the connection underneath.
  unfoldable pub write : World Limiter → LimitedConn → ℕ → Bool × World Limiter
  unfolding wait_all
  write w c n = wait_all w c.chain n

  -- `Read` of n bytes from the connection underneath: whether the buckets add no error.
  unfoldable pub read : World Limiter → LimitedConn → ℕ → Bool × World Limiter
  unfolding wait_all
  read w c n = if n == 0 then (true, w) else wait_all w c.chain n
