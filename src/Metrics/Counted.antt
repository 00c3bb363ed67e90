-- ===== src/Metrics/Counted.antt =====
-- internal/metrics/metrics.go: the counters of connections after any calls of `ConnOpened`,
-- `RecordConn`, `RecordUDP` and `RemoveTunnel`.
use qoqtun.Prelude.{
  ℕ, zero, suc, ◌+◌, Bool, true, false, Option, none, some, List, [], ◌∷◌, ◌==◌, if◌then◌else◌,
  Bytes, bytes_eq, bytes_beq_iff, Bool-cases,
}
use qoqtun.Prelude.Int.{ℤ, pos, negsuc, pos_part, neg_part, ◌+ℤ◌, ◌-ℤ◌}
use qoqtun.Prelude.Maps.{lookup, delete, lookup-insert}
use qoqtun.Metrics.{
  Registry, ClientStats, new_registry, client_stats, put_client, put_tunnel, remove_tunnel,
  record_conn, conn_opened, record_udp,
}
use mathlib.Core.Path.{◌≡◌, refl, subst}
use mathlib.Core.Logic.{inl, inr}
use native.Mathlib.Omega.{arith}

pub data Call : Type 0 where
  open_call : Bytes → Bytes → Call
  record_call : Bytes → Bytes → ℤ → ℤ → ℕ → Call
  udp_call : Bytes → Bytes → ℤ → ℤ → Call
  remove_call : Bytes → Bytes → Call

unfoldable pub call : Call → Registry → Registry
call (open_call id t) r = conn_opened id t r
call (record_call id t rx tx now) r = record_conn id t rx tx now r
call (udp_call id t rx tx) r = record_udp id t rx tx r
call (remove_call id t) r = remove_tunnel id t r

unfoldable pub run : List Call → Registry → Registry
unfolding call
run [] r = r
run (e ∷ es) r = run es (call e r)

-- The connections of a client that were opened, and that finished.
unfoldable pub opened : Bytes → List Call → ℕ
opened id [] = 0
opened id (open_call i t ∷ es) = if i == id then suc (opened id es) else opened id es
opened id (record_call i t rx tx now ∷ es) = opened id es
opened id (udp_call i t rx tx ∷ es) = opened id es
opened id (remove_call i t ∷ es) = opened id es

unfoldable pub finished : Bytes → List Call → ℕ
finished id [] = 0
finished id (open_call i t ∷ es) = finished id es
finished id (record_call i t rx tx now ∷ es) =
    if i == id then suc (finished id es) else finished id es
finished id (udp_call i t rx tx ∷ es) = finished id es
finished id (remove_call i t ∷ es) = finished id es

-- All connections that were opened.
unfoldable pub all_opened : List Call → ℕ
all_opened [] = 0
all_opened (open_call i t ∷ es) = suc (all_opened es)
all_opened (record_call i t rx tx now ∷ es) = all_opened es
all_opened (udp_call i t rx tx ∷ es) = all_opened es
all_opened (remove_call i t ∷ es) = all_opened es

-- `y` is `x` with `up` added and `down` taken away.
abbrev Shifted : ℤ → ℤ → ℕ → ℕ → Type 0
Shifted x y up down = pos_part y + neg_part x + down ≡ pos_part x + neg_part y + up

up-Shifted : (x : ℤ) → Shifted x (x +ℤ pos 1) 1 0
up-Shifted (pos n) = ground arith
up-Shifted (negsuc n) = ground arith

down-Shifted : (x : ℤ) → Shifted x (x +ℤ negsuc 0) 0 1
down-Shifted (pos n) = ground arith
down-Shifted (negsuc n) = ground arith

difference_of_shift : (y : ℤ) (up down : ℕ) → Shifted (pos 0) y up down → y ≡ pos up -ℤ pos down
difference_of_shift (pos n) up down h = ground arith
difference_of_shift (negsuc n) up down h = ground arith

total_of_shift : (y : ℤ) (up : ℕ) → Shifted (pos 0) y up 0 → y ≡ pos up
total_of_shift (pos n) up h = ground arith
total_of_shift (negsuc n) up h = ground arith

-- The connections of a client: `up` of them opened and `down` finished.
abbrev Moved : ClientStats → ClientStats → ℕ → ℕ → Type 0
Moved x y up down =
    Shifted x.active_conns y.active_conns up down × Shifted x.total_conns y.total_conns up 0

client-put :
    (i id : Bytes) (c : ClientStats) (r : Registry)
    → client_stats (put_client i c r) id ≡ (if i == id then c else client_stats r id)
unfolding client_stats put_client
client-put i id c r = elim (Bool-cases (i == id)) [
  | inl same ↦ rw (client_stats, put_client, lookup-insert i id c r.clients, same) refl
  | inr other ↦ rw (client_stats, put_client, lookup-insert i id c r.clients, other) refl
]

put-moves :
    (i id : Bytes) (c : ClientStats) (r : Registry) (up down up_here down_here : ℕ)
    → Moved (client_stats r i) c up down
    → up_here ≡ (if i == id then up else 0)
    → down_here ≡ (if i == id then down else 0)
    → Moved (client_stats r id) (client_stats (put_client i c r) id) up_here down_here
put-moves i id c r up down u d h eu ed = elim (Bool-cases (i == id)) [
  | inl same ↦
      rw (client-put i id c r, same, eu, ed, same)
        (subst (λ x. Moved (client_stats r x) c up down) ((bytes_beq_iff i id).0 same) h)
  | inr other ↦ rw (client-put i id c r, other, eu, ed, other) (refl, refl)
]

zero-either : (b : Bool) → zero ≡ (if b then 0 else 0)
zero-either true = refl
zero-either false = refl

call-moves :
    (e : Call) (r : Registry) (id : Bytes)
    → Moved
        (client_stats r id)
        (client_stats (call e r) id)
        (opened id (e ∷ []))
        (finished id (e ∷ []))
unfolding call opened finished conn_opened record_conn record_udp remove_tunnel client_stats
    put_client put_tunnel
call-moves (open_call i t) r id =
    let c = client_stats r i in
    put-moves i id _ r 1 0 _ _ (up-Shifted c.active_conns, up-Shifted c.total_conns) refl
      (zero-either (i == id))
call-moves (record_call i t rx tx now) r id =
    put-moves i id _ r 0 1 _ _ (down-Shifted (client_stats r i).active_conns, refl)
      (zero-either (i == id)) refl
call-moves (udp_call i t rx tx) r id =
    put-moves i id _ r 0 0 _ _ (refl, refl) (zero-either (i == id)) (zero-either (i == id))
call-moves (remove_call i t) r id = by_client (lookup i r.clients) refl
  where
    by_client :
        (o : Option ClientStats)
        → lookup i r.clients ≡ o
        → Moved
            (client_stats r id)
            (client_stats
              (elim o as (λ x. Registry) [
                | none ↦ r
                | some c ↦ put_client i (record c { tunnels = delete t c.tunnels }) r
              ])
              id)
            0
            0
    by_client none e = (refl, refl)
    by_client (some c) e =
        put-moves i id _ r 0 0 _ _ (rw (client_stats, e) (refl, refl)) (zero-either (i == id))
          (zero-either (i == id))

opened-cons :
    (e : Call) (es : List Call) (id : Bytes)
    → opened id (e ∷ es) ≡ opened id (e ∷ []) + opened id es
unfolding opened
opened-cons (open_call i t) es id = ground arith
opened-cons (record_call i t rx tx now) es id = ground arith
opened-cons (udp_call i t rx tx) es id = ground arith
opened-cons (remove_call i t) es id = ground arith

finished-cons :
    (e : Call) (es : List Call) (id : Bytes)
    → finished id (e ∷ es) ≡ finished id (e ∷ []) + finished id es
unfolding finished
finished-cons (open_call i t) es id = ground arith
finished-cons (record_call i t rx tx now) es id = ground arith
finished-cons (udp_call i t rx tx) es id = ground arith
finished-cons (remove_call i t) es id = ground arith

run-moves :
    (es : List Call) (r : Registry) (id : Bytes)
    → Moved (client_stats r id) (client_stats (run es r) id) (opened id es) (finished id es)
unfolding run opened finished
run-moves [] r id = (refl, refl)
run-moves (e ∷ es) r id =
    let (now, now_total) = call-moves e r id in
    let (later, later_total) = run-moves es (call e r) id in
    let eu = opened-cons e es id in let ed = finished-cons e es id in (omega arith, omega arith)

run-global :
    (es : List Call) (r : Registry)
    → Shifted r.global_conns (run es r).global_conns (all_opened es) 0
unfolding run call all_opened conn_opened record_conn record_udp remove_tunnel put_client
run-global [] r = refl
run-global (open_call i t ∷ es) r =
    let now = up-Shifted r.global_conns in
    let later = run-global es (call (open_call i t) r) in omega arith
run-global (record_call i t rx tx now ∷ es) r = run-global es (call (record_call i t rx tx now) r)
run-global (udp_call i t rx tx ∷ es) r = run-global es (call (udp_call i t rx tx) r)
run-global (remove_call i t ∷ es) r =
    let now = removed (lookup i r.clients) in
    let later = run-global es (call (remove_call i t) r) in omega arith
  where
    removed :
        (o : Option ClientStats)
        → Shifted r.global_conns
            (elim o as (λ x. Registry) [
              | none ↦ r
              | some c ↦ put_client i (record c { tunnels = delete t c.tunnels }) r
            ]).global_conns
            0
            0
    removed none = refl
    removed (some c) = refl

-- After any calls that remove no client, on a new registry: the active connections of a client
-- are those it opened less those that finished, its total is those it opened, and the global
-- count, which only grows, is all that were opened.
pub run_counts :
    (es : List Call) (id : Bytes)
    → let r = run es new_registry in
      ((client_stats r id).active_conns ≡ pos (opened id es) -ℤ pos (finished id es))
      × ((client_stats r id).total_conns ≡ pos (opened id es))
      × (r.global_conns ≡ pos (all_opened es))
unfolding new_registry client_stats lookup
run_counts es id =
    let client = run-moves es new_registry id in
    (
      difference_of_shift (client_stats (run es new_registry) id).active_conns (opened id es)
          (finished id es) client.0,
      total_of_shift (client_stats (run es new_registry) id).total_conns (opened id es) client.1,
      total_of_shift _ _ (run-global es new_registry),
    )
