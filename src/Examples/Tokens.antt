-- ===== src/Examples/Tokens.antt =====
-- internal/auth/store.go: a run of the token store.
use qoqtun.Prelude.{
  ◌≡◌, refl, true, false, none, some, List, [], ◌∷◌, nat_eq, Bytes, codes, bytes_eq, bytes_beq, ◌≢◌,
}
use qoqtun.Prelude.Int.{int_eq}
use qoqtun.Prelude.Maps.{lookup}
use qoqtun.Auth.TokenStore.{TokenRecord, Disk, TokenStore, State, consumed, consume}
use qoqtun.Auth.TokenStore.Once.{IsWell}
use qoqtun.Auth.TokenStore.History.{
  Call, try_token, revoke_token, run, consume_once, consume_forgets,
}

-- A hash for this run: the text itself.
abbrev hash : Bytes → Bytes
hash s = s

abbrev a_token : TokenRecord
a_token = record {
  token_id = codes "a";
  hash = codes "secret";
  expires_at = 100;
  used = false;
  revoked = false;
  created_by = [];
  created_at = 0;
}

abbrev a_disk : Disk
a_disk = record { stamp = 1; readable = true; records = some (a_token ∷ []) }

abbrev one_token : State
one_token = record {
  store = record { by_id = (codes "a", a_token) ∷ []; last = some 1 };
  file = some a_disk;
}

one_token-IsWell : IsWell one_token.store.by_id
unfolding qoqtun.Auth.TokenStore.Spent.keyed bytes_beq lookup
one_token-IsWell = (refl, (refl, tt))

consumes : (consume hash (codes "secret") 10 (some 2) one_token).0 ≡ consumed (codes "a")
unfolding consume qoqtun.Auth.TokenStore.consume_loaded qoqtun.Auth.TokenStore.find_hash
    qoqtun.Auth.TokenStore.reload_if_changed qoqtun.Auth.TokenStore.same_stamp bytes_beq lookup
    qoqtun.Auth.TokenStore.act qoqtun.Auth.TokenStore.verdict qoqtun.Auth.TokenStore.spend
    qoqtun.Auth.TokenStore.save_locked
consumes = refl

abbrev between : List Call
between = try_token (codes "other") 11 none ∷ revoke_token (codes "b") (some 3) ∷ []

consume_once_example :
    (consume hash
      (codes "secret")
      12
      (some 4)
      (run hash between (consume hash (codes "secret") 10 (some 2) one_token).1)).0
    ≢ consumed (codes "a")
unfolding qoqtun.Auth.TokenStore.History.all_spare qoqtun.Auth.TokenStore.History.spares
consume_once_example =
    consume_once hash (codes "a") (codes "secret") (codes "secret") 10 12 (some 2) (some 4) between
      one_token one_token-IsWell consumes refl
