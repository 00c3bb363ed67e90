-- ===== src/Auth/TokenStore/Kept.antt =====
-- internal/auth/store.go: a token once used stays used, in the map and in the file.
use qoqtun.Prelude.{
  ℕ, ◌≡◌, refl, true, false, ◌||◌, not, Option, none, some, List, [], arith, ◌==◌, nat_eq, Bytes,
  bytes_eq, length, Bool-cases, Option-cases, inl, inr,
}
use qoqtun.Prelude.Int.{int_eq}
use qoqtun.Prelude.Maps.{lookup}
use qoqtun.Auth.TokenStore.{
  TokenRecord, File, TokenStore, State, replace_from, same_stamp, reread, reload_if_changed,
  save_locked, purge_expired, find_hash, Consumed, purged, mark_used, spend, Verdict, is_revoked,
  is_expired, is_used, is_fresh, verdict, act, consume_loaded, token_invalid, token_expired,
}
use qoqtun.Auth.TokenStore.Spent.{
  keyed, spent, spent_in, listed, IsSpent, keyed-lookup, spent-values, listed-values, keyed-fill,
  spent-fill, lookup-fill, IsSpent-retain, IsSpent-insert,
}

-- The file, if it holds records, holds the token as used.
abbrev pub RecordsKeep : Bytes → Option (List TokenRecord) → Type 0
RecordsKeep id none = Unit
RecordsKeep id (some rs) = (spent_in id rs ≡ true) × (listed id rs ≡ true)

abbrev pub FileKeeps : Bytes → File → Type 0
FileKeeps id none = Unit
FileKeeps id (some d) = RecordsKeep id d.records

abbrev pub IsKept : Bytes → State → Type 0
IsKept id st = IsSpent id st.store.by_id × FileKeeps id st.file

reread-IsSpent :
    (id : Bytes) (rs : Option (List TokenRecord)) (n : ℕ) (s : TokenStore)
    → (length id == 0) ≡ false
    → RecordsKeep id rs
    → IsSpent id s.by_id
    → IsSpent id (reread rs n s).by_id
unfolding reread replace_from keyed spent
reread-IsSpent id none n s ne k h = h
reread-IsSpent id (some rs) n s ne k h = (
  keyed-fill rs [] refl,
  spent-fill id rs [] k.0 refl,
  lookup-fill id rs [] ne (ground (arith, k.1)),
)

pub reload-IsSpent :
    (id : Bytes) (f : File) (s : TokenStore)
    → (length id == 0) ≡ false
    → FileKeeps id f
    → IsSpent id s.by_id
    → IsSpent id (reload_if_changed f s).by_id
unfolding reload_if_changed
reload-IsSpent id none s ne k h = h
reload-IsSpent id (some d) s ne k h =
    elim (Bool-cases (same_stamp s.last d.stamp || not d.readable)) [
      | inl e ↦ rw (reload_if_changed, e) h
      | inr e ↦ rw (reload_if_changed, e) (reread-IsSpent id d.records d.stamp s ne k h)
    ]

pub save-FileKeeps :
    (id : Bytes) (saved : Option ℕ) (s : TokenStore) (f : File)
    → IsSpent id s.by_id
    → FileKeeps id f
    → FileKeeps id (save_locked saved s f).1
unfolding save_locked
save-FileKeeps id none s f h k = k
save-FileKeeps id (some n) s f h k =
    (spent-values id s.by_id h.0 h.1, listed-values id s.by_id h.0 h.2)

-- A purge and a save keep the token used.
purged-IsKept :
    (result : Consumed) (id : Bytes) (now : ℕ) (saved : Option ℕ) (s : TokenStore) (f : File)
    → IsSpent id s.by_id
    → FileKeeps id f
    → IsKept id (purged result now saved s f).1
unfolding purged purge_expired
purged-IsKept result id now saved s f h k =
    let h' = IsSpent-retain id now s.by_id h in
    (h', save-FileKeeps id saved (purge_expired now s) f h' k)

spend-IsKept :
    (id x : Bytes) (rec : TokenRecord) (saved : Option ℕ) (s : TokenStore) (f : File)
    → IsSpent id s.by_id
    → FileKeeps id f
    → (x == rec.token_id) ≡ true
    → (length x == 0) ≡ false
    → IsKept id (spend x rec saved s f).1
unfolding spend mark_used
spend-IsKept id x rec saved s f h k own named =
    let h' = IsSpent-insert id x (record rec { used = true }) s.by_id own named (ground arith) h in
    (h', save-FileKeeps id saved (mark_used x rec s) f h' k)

act-IsKept :
    (v : Verdict) (id x : Bytes) (rec : TokenRecord) (now : ℕ) (saved : Option ℕ) (s : TokenStore)
    (f : File)
    → IsSpent id s.by_id
    → FileKeeps id f
    → (x == rec.token_id) ≡ true
    → (length x == 0) ≡ false
    → IsKept id (act v x rec now saved s f).1
unfolding act
act-IsKept is_revoked id x rec now saved s f h k own named = (h, k)
act-IsKept is_expired id x rec now saved s f h k own named =
    purged-IsKept token_expired id now saved s f h k
act-IsKept is_used id x rec now saved s f h k own named = (h, k)
act-IsKept is_fresh id x rec now saved s f h k own named =
    spend-IsKept id x rec saved s f h k own named

pub consume_loaded-IsKept :
    (id h : Bytes) (now : ℕ) (saved : Option ℕ) (s : TokenStore) (f : File)
    → IsSpent id s.by_id
    → FileKeeps id f
    → IsKept id (consume_loaded h now saved s f).1
unfolding consume_loaded
consume_loaded-IsKept id h now saved s f p k =
    let x = find_hash h s.by_id in
    elim (Bool-cases (length x == 0)) [
      | inl e ↦ rw (consume_loaded, e) (purged-IsKept token_invalid id now saved s f p k)
      | inr e ↦ elim (Option-cases (lookup x s.by_id)) [
        | inl miss ↦ rw (consume_loaded, e, miss) (purged-IsKept token_expired id now saved s f p k)
        | inr (rec, hit) ↦
            let (own, named) = keyed-lookup x rec s.by_id p.0 hit in
            rw (consume_loaded, e, hit)
              (act-IsKept (verdict rec now) id x rec now saved s f p k own named)
      ]
    ]
