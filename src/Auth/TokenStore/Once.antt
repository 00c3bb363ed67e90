-- ===== src/Auth/TokenStore/Once.antt =====
-- internal/auth/store.go: a token is consumed once.
use qoqtun.Prelude.{
  ℕ, ◌≡◌, refl, true, false, ◌||◌, not, Option, none, some, List, [], ◌∷◌, arith, ◌==◌, nat_eq,
  Bytes, bytes_eq, length, ap, ◌≢◌, Bool-cases, Option-cases, inl, inr, subst, bytes_beq_iff,
}
use qoqtun.Prelude.Int.{int_eq}
use qoqtun.Prelude.Maps.{Map, lookup, insert, IsDistinct, insert-IsDistinct, lookup-insert_self}
use qoqtun.Auth.TokenStore.{
  TokenRecord, File, TokenStore, State, fill, replace_from, same_stamp, reread, reload_if_changed,
  save_locked, find_hash, Consumed, consumed, purged, mark_used, spend, Verdict, is_revoked,
  is_expired, is_used, is_fresh, verdict, act, consume_loaded, consume,
}
use qoqtun.Auth.TokenStore.Spent.{
  keyed, spent, IsSpent, keyed-insert, keyed-lookup, spent-lookup, spent-values, listed-values,
  keyed-fill,
}
use qoqtun.Auth.TokenStore.Kept.{IsKept, FileKeeps, reload-IsSpent, consume_loaded-IsKept}

purged-result :
    (r : Consumed) (now : ℕ) (saved : Option ℕ) (s : TokenStore) (f : File)
    → (purged r now saved s f).0 ≡ r
unfolding purged
purged-result r now saved s f = refl

-- A token is consumed only when its record says that it is not used.
act-consumed :
    (v : Verdict) (id x : Bytes) (rec : TokenRecord) (now : ℕ) (saved : Option ℕ) (s : TokenStore)
    (f : File)
    → (act v x rec now saved s f).0 ≡ consumed id
    → (v ≡ is_fresh) × (x ≡ id) × ((save_locked saved (mark_used x rec s) f).0 ≡ true)
unfolding act spend purged
act-consumed is_revoked id x rec now saved s f e = ground arith
act-consumed is_expired id x rec now saved s f e = ground arith
act-consumed is_used id x rec now saved s f e = ground arith
act-consumed is_fresh id x rec now saved s f e = ground arith

verdict-fresh : (rec : TokenRecord) (now : ℕ) → verdict rec now ≡ is_fresh → rec.used ≡ false
unfolding verdict
verdict-fresh rec now e = ground arith

act-fresh :
    (x id : Bytes) (rec : TokenRecord) (now : ℕ) (saved : Option ℕ) (s : TokenStore) (f : File)
    → x ≡ id
    → act is_fresh x rec now saved s f ≡ spend id rec saved s f
unfolding act
act-fresh x id rec now saved s f e = ap (λ y. spend y rec saved s f) e

consume_loaded-consumed :
    (id h : Bytes) (now : ℕ) (saved : Option ℕ) (s : TokenStore) (f : File)
    → (consume_loaded h now saved s f).0 ≡ consumed id
    → (rec : TokenRecord) × (lookup id s.by_id ≡ some rec)
      × (rec.used ≡ false)
      × (consume_loaded h now saved s f ≡ spend id rec saved s f)
      × ((save_locked saved (mark_used id rec s) f).0 ≡ true)
unfolding consume_loaded purged
consume_loaded-consumed id h now saved s f e =
    let x = find_hash h s.by_id in
    elim (Bool-cases (length x == 0)) [
      | inl a ↦ ground arith
      | inr a ↦ elim (Option-cases (lookup x s.by_id)) [
        | inl miss ↦ ground arith
        | inr (rec, hit) ↦
            let (fresh, same, wrote) =
              act-consumed (verdict rec now) id x rec now saved s f (ground arith) in
            (
              rec,
              ground arith,
              verdict-fresh rec now fresh,
              rw (consume_loaded, a, hit, fresh) (act-fresh x id rec now saved s f same),
              subst (λ y. (save_locked saved (mark_used y rec s) f).0 ≡ true) same wrote,
            )
      ]
    ]

save-written :
    (id : Bytes) (saved : Option ℕ) (s : TokenStore) (f : File)
    → (save_locked saved s f).0 ≡ true
    → IsSpent id s.by_id
    → FileKeeps id (save_locked saved s f).1
unfolding save_locked
save-written id none s f w h = ground arith
save-written id (some n) s f w h =
    (spent-values id s.by_id h.0 h.1, listed-values id s.by_id h.0 h.2)

spent-absent : (id : Bytes) (m : Map Bytes TokenRecord) → lookup id m ≡ none → spent id m ≡ true
unfolding spent lookup
spent-absent id [] h = refl
spent-absent id ((j, s) ∷ m) h = ground (arith, spent-absent id m)

-- With keys once, no other record of the id is left unused.
spent-first :
    (id : Bytes) (rec : TokenRecord) (m : Map Bytes TokenRecord)
    → IsDistinct m
    → rec.used ≡ true
    → spent id (insert id rec m) ≡ true
unfolding spent insert
spent-first id rec [] d u = ground arith
spent-first id rec ((j, s) ∷ m) d u = elim (Bool-cases (j == id)) [
  | inl e ↦ rw e (ground (arith, spent-absent id m, bytes_beq_iff j id, d.0))
  | inr e ↦ rw e (ground (arith, spent-first id rec m d.1))
]

-- Records stand under their own ids, each once.
abbrev pub IsWell : Map Bytes TokenRecord → Type 0
IsWell m = (keyed m ≡ true) × IsDistinct m

keyed_read : (rs : List TokenRecord) → keyed (fill rs []) ≡ true
unfolding keyed
keyed_read rs = keyed-fill rs [] refl

reload-keyed :
    (f : File) (s : TokenStore) → keyed s.by_id ≡ true → keyed (reload_if_changed f s).by_id ≡ true
unfolding reload_if_changed reread replace_from
reload-keyed none s h = h
reload-keyed (some d) s h = elim (Bool-cases (same_stamp s.last d.stamp || not d.readable)) [
  | inl e ↦ rw (reload_if_changed, e) h
  | inr e ↦ rw (reload_if_changed, e) (by_records d.records)
]
  where
    by_records : (rs : Option (List TokenRecord)) → keyed (reread rs d.stamp s).by_id ≡ true
    by_records none = h
    by_records (some rs) = keyed_read rs

fill-IsDistinct :
    (rs : List TokenRecord) (m : Map Bytes TokenRecord) → IsDistinct m → IsDistinct (fill rs m)
unfolding fill
fill-IsDistinct [] m d = d
fill-IsDistinct (r ∷ rs) m d = elim (Bool-cases (length r.token_id == 0)) [
  | inl e ↦ rw e (fill-IsDistinct rs m d)
  | inr e ↦ rw e (fill-IsDistinct rs (insert r.token_id r m) (insert-IsDistinct r.token_id r m d))
]

reload-IsDistinct :
    (f : File) (s : TokenStore) → IsDistinct s.by_id → IsDistinct (reload_if_changed f s).by_id
unfolding reload_if_changed reread replace_from
reload-IsDistinct none s h = h
reload-IsDistinct (some d) s h = elim (Bool-cases (same_stamp s.last d.stamp || not d.readable)) [
  | inl e ↦ rw (reload_if_changed, e) h
  | inr e ↦ rw (reload_if_changed, e) (by_records d.records)
]
  where
    by_records : (rs : Option (List TokenRecord)) → IsDistinct (reread rs d.stamp s).by_id
    by_records none = h
    by_records (some rs) = fill-IsDistinct rs [] tt

-- What a consumption leaves: the token used, in the map and in the file.
spend-spent :
    (id : Bytes) (rec : TokenRecord) (saved : Option ℕ) (s : TokenStore) (f : File)
    → IsWell s.by_id
    → lookup id s.by_id ≡ some rec
    → (save_locked saved (mark_used id rec s) f).0 ≡ true
    → IsKept id (spend id rec saved s f).1
unfolding spend mark_used
spend-spent id rec saved s f w hit wrote =
    let (own, named) = keyed-lookup id rec s.by_id w.0 hit in
    let rec' : TokenRecord = record rec { used = true } in
    let h : IsSpent id (insert id rec' s.by_id) = (
      keyed-insert id rec' s.by_id own named w.0,
      spent-first id rec' s.by_id w.1 refl,
      ground (arith, lookup-insert_self id rec' s.by_id),
    ) in
    (h, save-written id saved (mark_used id rec s) f wrote h)

module _ (hash_token : Bytes → Bytes) where
  pub consume-spends :
      (id plaintext : Bytes) (now : ℕ) (saved : Option ℕ) (st : State)
      → IsWell st.store.by_id
      → (consume hash_token plaintext now saved st).0 ≡ consumed id
      → IsKept id (consume hash_token plaintext now saved st).1
  unfolding consume
  consume-spends id plaintext now saved st w e =
      let s = reload_if_changed st.file st.store in
      let (rec, hit, unused, same, wrote) =
        consume_loaded-consumed id (hash_token plaintext) now saved s st.file e in
      rw same (
        spend-spent id rec saved s st.file
          (reload-keyed st.file st.store w.0, reload-IsDistinct st.file st.store w.1) hit wrote)

  pub consume-again :
      (id plaintext : Bytes) (now : ℕ) (saved : Option ℕ) (st : State)
      → IsKept id st
      → ((consume hash_token plaintext now saved st).0 ≢ consumed id)
        × IsKept id (consume hash_token plaintext now saved st).1
  unfolding consume
  consume-again id plaintext now saved st k =
      let s = reload_if_changed st.file st.store in
      let named = named_of st.store.by_id k.0 in
      let h = reload-IsSpent id st.file st.store named k.1 k.0 in
      (
        (λ e.
            let (rec, hit, unused, same, wrote) =
              consume_loaded-consumed id (hash_token plaintext) now saved s st.file e in
            ground (arith, spent-lookup id rec s.by_id h.1 hit)),
        consume_loaded-IsKept id (hash_token plaintext) now saved s st.file h k.1,
      )
    where
      named_of : (m : Map Bytes TokenRecord) → IsSpent id m → (length id == 0) ≡ false
      named_of m h = elim (Option-cases (lookup id m)) [
        | inl miss ↦ ground (arith, h.2)
        | inr (rec, hit) ↦ (keyed-lookup id rec m h.0 hit).1
      ]
