-- ===== src/Auth/TokenStore/History.antt =====
-- internal/auth/store.go: the token store over a sequence of calls.
use qoqtun.Prelude.{
  ℕ, ◌≡◌, Bool, true, false, ◌&&◌, ◌||◌, not, Option, some, List, [], ◌∷◌, arith, ◌==◌, nat_eq,
  Bytes, bytes_eq, length, ap, ◌≢◌, Bool-cases, Option-cases, inl, inr, ==_eq, sym, subst,
  bytes_beq_refl,
}
use qoqtun.Prelude.Int.{ℤ, pos, pos_part, ltz, lez, int_eq}
use qoqtun.Prelude.Maps.{lookup, insert}
use qoqtun.Auth.TokenStore.{
  TokenRecord, Disk, TokenStore, State, reload_if_changed, Consumed, consumed, revoke, consume,
  create, new_record, max_ttl, same_stamp, reread, consume_loaded,
}
use qoqtun.Auth.TokenStore.Spent.{spent, IsSpent, keyed-lookup, spent-lookup, IsSpent-insert}
use qoqtun.Auth.TokenStore.Kept.{IsKept, save-FileKeeps}
use qoqtun.Auth.TokenStore.Once.{IsWell, consume-spends, consume-again}

-- A call of the store; the readings of the clock and the outcome of the write are its arguments.
pub data Call : Type 0 where
  try_token : Bytes → ℕ → Option ℕ → Call
  revoke_token : Bytes → Option ℕ → Call
  new_token : Bytes → Bytes → Bytes → ℤ → ℕ → ℕ → Option ℕ → Call

-- The call does not create a token of the id.
unfoldable pub spares : Bytes → Call → Bool
spares id (new_token p other by ttl now later saved) = not (other == id)
spares id _ = true

unfoldable pub all_spare : Bytes → List Call → Bool
all_spare id [] = true
all_spare id (c ∷ cs) = spares id c && all_spare id cs

revoke-IsKept :
    (id x : Bytes) (saved : Option ℕ) (st : State) → IsKept id st → IsKept id (revoke x saved st).1
unfolding revoke
revoke-IsKept id x saved st k = elim (Option-cases (lookup x st.store.by_id)) [
  | inl miss ↦ rw (revoke, miss) k
  | inr (rec, hit) ↦
      let (own, named) = keyed-lookup x rec st.store.by_id k.0.0 hit in
      let rec' : TokenRecord = record rec { revoked = true } in
      let h : IsSpent id (insert x rec' st.store.by_id) =
        IsSpent-insert id x rec' st.store.by_id own named (kept rec hit) k.0 in
      rw (revoke, hit)
        (
          h,
          save-FileKeeps id saved (record st.store { by_id = insert x rec' st.store.by_id }) st.file
              h k.1,
        )
]
  where
    kept :
        (rec : TokenRecord)
        → lookup x st.store.by_id ≡ some rec
        → (not (x == id) || rec.used) ≡ true
    kept rec hit = elim (Bool-cases (x == id)) [
      | inr e ↦ ground arith
      | inl e ↦ ground (
        arith,
        spent-lookup x rec st.store.by_id
            (subst (λ y. spent y st.store.by_id ≡ true) (sym (==_eq x id e)) k.0.1) hit,
      )
    ]

module _ (hash_token : Bytes → Bytes) where
  unfoldable pub step : Call → State → Consumed × State
  step (try_token p now saved) st = consume hash_token p now saved st
  step (revoke_token id saved) st = (consumed [], (revoke id saved st).1)
  step (new_token p id by ttl now later saved) st =
      (consumed [], (create hash_token p id by ttl now later saved st).1)

  unfoldable pub run : List Call → State → State
  run [] st = st
  run (c ∷ cs) st = run cs (step c st).1

  create-IsKept :
      (id p x by : Bytes) (ttl : ℤ) (now later : ℕ) (saved : Option ℕ) (st : State)
      → (x == id) ≡ false
      → IsKept id st
      → IsKept id (create hash_token p x by ttl now later saved st).1
  unfolding create new_record
  create-IsKept id p x by ttl now later saved st ne k =
      elim (Bool-cases (lez ttl (pos 0) || ltz (pos max_ttl) ttl)) [
        | inl a ↦ rw (create, a) k
        | inr a ↦ elim (Bool-cases (length x == 0 || length p == 0)) [
          | inl b ↦ rw (create, a, b) k
          | inr b ↦
              let rec = new_record hash_token p x by (pos_part ttl) now later in
              let h : IsSpent id (insert x rec st.store.by_id) =
                IsSpent-insert id x rec st.store.by_id (bytes_beq_refl x) (ground arith)
                  (ground arith) k.0 in
              rw (create, a, b)
                (
                  h,
                  save-FileKeeps id saved (record st.store { by_id = insert x rec st.store.by_id })
                      st.file h k.1,
                )
        ]
      ]

  step-IsKept :
      (id : Bytes) (c : Call) (st : State)
      → spares id c ≡ true
      → IsKept id st
      → IsKept id (step c st).1
  unfolding step spares
  step-IsKept id (try_token p now saved) st s k = (consume-again hash_token id p now saved st k).1
  step-IsKept id (revoke_token x saved) st s k = revoke-IsKept id x saved st k
  step-IsKept id (new_token p x by ttl now later saved) st s k =
      create-IsKept id p x by ttl now later saved st (ground arith) k

  run-IsKept :
      (id : Bytes) (cs : List Call) (st : State)
      → all_spare id cs ≡ true
      → IsKept id st
      → IsKept id (run cs st)
  unfolding run all_spare
  run-IsKept id [] st s k = k
  run-IsKept id (c ∷ cs) st s k =
      run-IsKept id cs (step c st).1 (ground arith) (step-IsKept id c st (ground arith) k)

  -- A token that was consumed is not consumed again by any later attempt with any text, whatever
  -- attempts, revocations and creations of other tokens lie between and whether their writes
  -- succeed, if nothing else writes the file.
  pub consume_once :
      (id first again : Bytes) (now later : ℕ) (saved saved' : Option ℕ) (cs : List Call)
      (st : State)
      → IsWell st.store.by_id
      → (consume hash_token first now saved st).0 ≡ consumed id
      → all_spare id cs ≡ true
      → (consume hash_token again later saved' (run cs (consume hash_token first now saved st).1)).0
        ≢ consumed id
  consume_once id first again now later saved saved' cs st w e s =
      let k = consume-spends hash_token id first now saved st w e in
      let k' = run-IsKept id cs (consume hash_token first now saved st).1 s k in
      (consume-again hash_token id again later saved'
        (run cs (consume hash_token first now saved st).1) k').0

  -- When the file changed on disk and parses, an attempt depends on the file alone: what the memory
  -- recorded since, tokens used among it, is lost if the file was written from an older state.
  pub consume_forgets :
      (p : Bytes) (now : ℕ) (saved : Option ℕ) (s s' : TokenStore) (d : Disk)
      (rs : List TokenRecord)
      → same_stamp s.last d.stamp ≡ false
      → same_stamp s'.last d.stamp ≡ false
      → d.readable ≡ true
      → d.records ≡ some rs
      → consume hash_token p now saved (record { store = s; file = some d })
        ≡ consume hash_token p now saved (record { store = s'; file = some d })
  unfolding consume reload_if_changed reread
  consume_forgets p now saved s s' d rs a b r q =
      ap (λ t. consume_loaded (hash_token p) now saved t (some d)) (reload_same s s' a b)
    where
      reload_same :
          (t t' : TokenStore)
          → same_stamp t.last d.stamp ≡ false
          → same_stamp t'.last d.stamp ≡ false
          → reload_if_changed (some d) t ≡ reload_if_changed (some d) t'
      reload_same t t' a b = ground arith
