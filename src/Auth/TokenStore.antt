-- ===== src/Auth/TokenStore.antt =====
-- internal/auth/store.go: the token store and its file. The file holds the records themselves, for
-- the JSON that the source writes and reads; its stamp stands for size and modification time. A
-- write of the file is atomic and succeeds with a new stamp or fails. SHA-256 is a parameter.
pub mod Spent
pub mod Kept
pub mod Once
pub mod History
use qoqtun.Prelude.{
  ℕ, zero, suc, ◌+◌, Bool, true, false, ◌&&◌, ◌||◌, not, Option, none, some, List, [], ◌∷◌,
  if◌then◌else◌, ◌==◌, ltb, nat_eq, Bytes, bytes_eq, length, ◌*◌,
}
use qoqtun.Prelude.Int.{ℤ, pos, pos_part, ltz, lez, int_eq}
use qoqtun.Prelude.Maps.{Map, lookup, insert, retain}

pub record TokenRecord : Type 0 where
  pub token_id : Bytes
  pub hash : Bytes
  pub expires_at : ℕ
  pub used : Bool
  pub revoked : Bool
  pub created_by : Bytes
  pub created_at : ℕ

-- `records` is absent when the text does not parse.
pub record Disk : Type 0 where
  pub stamp : ℕ
  pub readable : Bool
  pub records : Option (List TokenRecord)

-- A missing file is `none`.
abbrev pub File : Type 0
File = Option Disk

-- `last` is the stamp of the text that was read last, if any was.
pub record TokenStore : Type 0 where
  pub by_id : Map Bytes TokenRecord
  pub last : Option ℕ

pub record State : Type 0 where
  pub store : TokenStore
  pub file : File

-- The loop of `replaceFrom`.
unfoldable pub fill : List TokenRecord → Map Bytes TokenRecord → Map Bytes TokenRecord
fill [] m = m
fill (r ∷ rs) m = fill rs (if length r.token_id == 0 then m else insert r.token_id r m)

-- `replaceFrom`, on parsed records.
unfoldable pub replace_from : List TokenRecord → Map Bytes TokenRecord
replace_from rs = fill rs []

pub data Loaded : Type 0 where
  loaded : TokenStore → Loaded
  read_error parse_error : Loaded

-- `LoadTokenStore`
unfoldable pub load_token_store : File → Loaded
load_token_store none = loaded (record { by_id = []; last = none })
load_token_store (some d) = if not d.readable then read_error else elim d.records [
  | none ↦ parse_error
  | some rs ↦ loaded (record { by_id = replace_from rs; last = some d.stamp })
]

unfoldable pub same_stamp : Option ℕ → ℕ → Bool
same_stamp none n = false
same_stamp (some k) n = k == n

unfoldable pub reread : Option (List TokenRecord) → ℕ → TokenStore → TokenStore
reread none stamp s = s
reread (some rs) stamp s = record { by_id = replace_from rs; last = some stamp }

-- `reloadIfChanged`
unfoldable pub reload_if_changed : File → TokenStore → TokenStore
reload_if_changed none s = s
reload_if_changed (some d) s =
    if same_stamp s.last d.stamp || not d.readable then s else reread d.records d.stamp s

unfoldable pub values : Map Bytes TokenRecord → List TokenRecord
values [] = []
values ((k, r) ∷ m) = r ∷ values m

-- `saveLocked`: the stamp of the file written, or `none` for a failed write.
unfoldable pub save_locked : Option ℕ → TokenStore → File → Bool × File
save_locked none s f = (false, f)
save_locked (some stamp) s f =
    (true, some (record { stamp = stamp; readable = true; records = some (values s.by_id) }))

-- `now.After(rec.ExpiresAt) && !rec.Used` are purged.
unfoldable pub keeps : ℕ → Bytes → TokenRecord → Bool
keeps now k r = not (ltb r.expires_at now && not r.used)

-- `purgeExpiredLocked`
unfoldable pub purge_expired : ℕ → TokenStore → TokenStore
purge_expired now s = record s { by_id = retain (keeps now) s.by_id }

-- The search of `Consume` by hash; no id is the empty one.
unfoldable pub find_hash : Bytes → Map Bytes TokenRecord → Bytes
find_hash h [] = []
find_hash h ((k, r) ∷ m) = if r.hash == h then k else find_hash h m

pub data Consumed : Type 0 where
  consumed : Bytes → Consumed
  token_invalid token_revoked token_expired token_used persist_failed : Consumed

-- What `Consume` does on a token that is not to be had, with a purge.
unfoldable pub purged : Consumed → ℕ → Option ℕ → TokenStore → File → Consumed × State
purged result now saved s f =
    let s' = purge_expired now s in
    (result, record { store = s'; file = (save_locked saved s' f).1 })

unfoldable pub mark_used : Bytes → TokenRecord → TokenStore → TokenStore
mark_used id rec s = record s { by_id = insert id (record rec { used = true }) s.by_id }

unfoldable pub spend : Bytes → TokenRecord → Option ℕ → TokenStore → File → Consumed × State
spend id rec saved s f =
    let s' = mark_used id rec s in
    (
      if (save_locked saved s' f).0 then consumed id else persist_failed,
      record { store = s'; file = (save_locked saved s' f).1 },
    )

-- The tests of `Consume` on the record found.
pub data Verdict : Type 0 where
  is_revoked is_expired is_used is_fresh : Verdict

unfoldable pub verdict : TokenRecord → ℕ → Verdict
verdict rec now =
    if rec.revoked
    then is_revoked
    else if ltb rec.expires_at now
    then is_expired
    else if rec.used
    then is_used
    else is_fresh

unfoldable pub act :
    Verdict → Bytes → TokenRecord → ℕ → Option ℕ → TokenStore → File → Consumed × State
act is_revoked id rec now saved s f = (token_revoked, record { store = s; file = f })
act is_expired id rec now saved s f = purged token_expired now saved s f
act is_used id rec now saved s f = (token_used, record { store = s; file = f })
act is_fresh id rec now saved s f = spend id rec saved s f

-- `Consume` after the reload; a key that is found is in the map.
unfoldable pub consume_loaded : Bytes → ℕ → Option ℕ → TokenStore → File → Consumed × State
consume_loaded h now saved s f =
    let id = find_hash h s.by_id in
    if length id == 0 then purged token_invalid now saved s f else elim (lookup id s.by_id) [
      | none ↦ purged token_expired now saved s f
      | some rec ↦ act (verdict rec now) id rec now saved s f
    ]

-- `24*time.Hour`
abbrev pub max_ttl : ℕ
max_ttl = 24 * 3600 * 1000000000

pub data Created : Type 0 where
  created : TokenRecord → Created
  bad_ttl missing_field not_saved : Created

pub data Revoked : Type 0 where
  revoked_ok not_found not_persisted : Revoked

-- `Revoke`
unfoldable pub revoke : Bytes → Option ℕ → State → Revoked × State
revoke id saved st = elim (lookup id st.store.by_id) [
  | none ↦ (not_found, st)
  | some rec ↦
      let s' : TokenStore = record st.store {
        by_id = insert id (record rec { revoked = true }) st.store.by_id;
      } in
      (
        if (save_locked saved s' st.file).0 then revoked_ok else not_persisted,
        record { store = s'; file = (save_locked saved s' st.file).1 },
      )
]

unfoldable pub get : Bytes → State → Option TokenRecord
get id st = lookup id st.store.by_id

module _ (hash_token : Bytes → Bytes) where
  -- `Consume`
  unfoldable pub consume : Bytes → ℕ → Option ℕ → State → Consumed × State
  consume plaintext now saved st =
      consume_loaded (hash_token plaintext) now saved (reload_if_changed st.file st.store) st.file

  -- `Create`, with the two readings of the clock.
  unfoldable pub new_record : Bytes → Bytes → Bytes → ℕ → ℕ → ℕ → TokenRecord
  new_record plaintext token_id created_by ttl now later = record {
    token_id = token_id;
    hash = hash_token plaintext;
    expires_at = now + ttl;
    used = false;
    revoked = false;
    created_by = created_by;
    created_at = later;
  }

  unfoldable pub create : Bytes → Bytes → Bytes → ℤ → ℕ → ℕ → Option ℕ → State → Created × State
  create plaintext token_id created_by ttl now later saved st =
      let rec = new_record plaintext token_id created_by (pos_part ttl) now later in
      let s' : TokenStore = record st.store { by_id = insert token_id rec st.store.by_id } in
      if lez ttl (pos 0) || ltz (pos max_ttl) ttl
      then (bad_ttl, st)
      else if length token_id == 0 || length plaintext == 0
      then (missing_field, st)
      else (
        if (save_locked saved s' st.file).0 then created rec else not_saved,
        record { store = s'; file = (save_locked saved s' st.file).1 },
      )
