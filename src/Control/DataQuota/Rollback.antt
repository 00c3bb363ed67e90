-- ===== src/Control/DataQuota/Rollback.antt =====
-- internal/control/security.go: what acquiring and releasing do to the slots in use.
use qoqtun.Prelude.{
  ◌≡◌, refl, true, false, arith, if◌then◌else◌, ◌==◌, nat_eq, Bytes, bytes_eq, ap, ◌∙◌, Bool-cases,
  inl, inr, ◌⊎◌, bytes_beq_iff, bytes_beq_refl,
}
use qoqtun.Prelude.Int.{ℤ, pos, negsuc, lez, int_eq, ◌+ℤ◌, ◌-ℤ◌, ◌≤ℤ◌, ◌<ℤ◌}
use qoqtun.Prelude.Maps.{Map, insert, lookup-insert}
use qoqtun.Security.Quota.{Semaphore, try_acquire_on, release_on}
use qoqtun.Control.DataQuota.{
  Quotas, sem_of, client_semaphore, tunnel_semaphore, put_client, put_tunnel, try_client,
  try_tunnel, release_client, keep_or_return, with_client_slot, acquire_data_quota,
}

-- The slots in use of a client and of a tunnel.
unfoldable pub client_active : Quotas → Bytes → ℤ
client_active q c = (client_semaphore c q).active

unfoldable pub tunnel_active : Quotas → Bytes → ℤ
tunnel_active q t = (tunnel_semaphore t q).active

sem_of-insert :
    (limit : ℤ) (k j : Bytes) (s : Semaphore) (m : Map Bytes Semaphore)
    → sem_of limit j (insert k s m) ≡ (if k == j then s else sem_of limit j m)
unfolding sem_of
sem_of-insert limit k j s m = ground (arith, lookup-insert k j s m)

up_down : (a : ℤ) → pos 0 ≤ℤ a → (pos 0 <ℤ (a +ℤ pos 1)) × ((a +ℤ pos 1) -ℤ pos 1 ≡ a)
up_down (pos n) h = ground arith
up_down (negsuc n) h = ground arith

release-up :
    (s : Semaphore)
    → lez s.limit (pos 0) ≡ false
    → pos 0 ≤ℤ s.active
    → (release_on (record s { active = s.active +ℤ pos 1 })).active ≡ s.active
unfolding release_on
release-up s l p = ground (arith, up_down s.active p)

-- Giving back the slot that was just taken restores the count of the semaphore.
release-try :
    (s : Semaphore)
    → pos 0 ≤ℤ s.active
    → (try_acquire_on s).0 ≡ true
    → (release_on (try_acquire_on s).1).active ≡ s.active
release-try s p h = elim (Bool-cases (lez s.limit (pos 0))) [
  | inl e ↦ ap (λ z. (release_on z).active) (open_ended e) ∙ kept e
  | inr e ↦ ap (λ z. (release_on z).active) (taken e) ∙ release-up s e p
]
  where
    open_ended : lez s.limit (pos 0) ≡ true → (try_acquire_on s).1 ≡ s
    open_ended e = unfold try_acquire_on in ground arith

    kept : lez s.limit (pos 0) ≡ true → (release_on s).active ≡ s.active
    kept e = unfold release_on in ground arith

    taken :
        lez s.limit (pos 0) ≡ false → (try_acquire_on s).1 ≡ record s { active = s.active +ℤ pos 1 }
    taken e = by_room (Bool-cases (lez s.limit s.active)) h
      where
        by_room :
            (lez s.limit s.active ≡ true) ⊎ (lez s.limit s.active ≡ false)
            → (try_acquire_on s).0 ≡ true
            → (try_acquire_on s).1 ≡ record s { active = s.active +ℤ pos 1 }
        by_room (inl f) k = unfold try_acquire_on in ground arith
        by_room (inr f) k = unfold try_acquire_on in ground arith

try-refused : (s : Semaphore) → (try_acquire_on s).0 ≡ false → (try_acquire_on s).1 ≡ s
unfolding try_acquire_on
try-refused s h = ground arith

client_active-put_client :
    (c : Bytes) (s : Semaphore) (q : Quotas) (x : Bytes)
    → client_active (put_client c s q) x ≡ (if c == x then s.active else client_active q x)
unfolding client_active client_semaphore put_client
client_active-put_client c s q x = ground (arith, sem_of-insert q.max_conns c x s q.client_sem)

tunnel_active-put_tunnel :
    (t : Bytes) (s : Semaphore) (q : Quotas) (x : Bytes)
    → tunnel_active (put_tunnel t s q) x ≡ (if t == x then s.active else tunnel_active q x)
unfolding tunnel_active tunnel_semaphore put_tunnel
tunnel_active-put_tunnel t s q x =
    ground (arith, sem_of-insert q.max_conns_tunnel t x s q.tunnel_sem)

client_active-put_tunnel :
    (t : Bytes) (s : Semaphore) (q : Quotas) (x : Bytes)
    → client_active (put_tunnel t s q) x ≡ client_active q x
unfolding client_active client_semaphore put_tunnel
client_active-put_tunnel t s q x = refl

tunnel_active-put_client :
    (c : Bytes) (s : Semaphore) (q : Quotas) (x : Bytes)
    → tunnel_active (put_client c s q) x ≡ tunnel_active q x
unfolding tunnel_active tunnel_semaphore put_client
tunnel_active-put_client c s q x = refl

-- The semaphore of a client after it was put.
client_semaphore-put :
    (c t : Bytes) (s u : Semaphore) (q : Quotas)
    → client_semaphore c (put_tunnel t u (put_client c s q)) ≡ s
unfolding client_semaphore put_tunnel put_client
client_semaphore-put c t s u q =
    ground (arith, sem_of-insert q.max_conns c c s q.client_sem, bytes_beq_refl c)

release_client-put :
    (c t : Bytes) (s u : Semaphore) (q : Quotas)
    → release_client c (put_tunnel t u (put_client c s q))
      ≡ put_client c (release_on s) (put_tunnel t u (put_client c s q))
unfolding release_client
release_client-put c t s u q =
    ap (λ z. put_client c (release_on z) (put_tunnel t u (put_client c s q)))
      (client_semaphore-put c t s u q)

-- What is in use after the quota refused the client.
refused_by_client :
    (c t : Bytes) (q : Quotas) (x : Bytes)
    → (try_acquire_on (client_semaphore c q)).0 ≡ false
    → (client_active (acquire_data_quota c t q).1 x ≡ client_active q x)
      × (tunnel_active (acquire_data_quota c t q).1 x ≡ tunnel_active q x)
unfolding acquire_data_quota try_client with_client_slot put_client
refused_by_client c t q x e =
    let s = client_semaphore c q in
    rw (acquire_data_quota, try_client, e, with_client_slot, try-refused s e)
      (client_active-put_client c s q x ∙ own x, tunnel_active-put_client c s q x)
  where
    own :
        (y : Bytes)
        → (if c == y then (client_semaphore c q).active else client_active q y) ≡ client_active q y
    own y = unfold client_active in ground (arith, bytes_beq_iff c y)

tunnel_semaphore-put_client :
    (c t : Bytes) (s : Semaphore) (q : Quotas)
    → tunnel_semaphore t (put_client c s q) ≡ tunnel_semaphore t q
unfolding tunnel_semaphore put_client
tunnel_semaphore-put_client c t s q = refl

granted :
    (c t : Bytes) (q : Quotas)
    → (try_acquire_on (client_semaphore c q)).0 ≡ true
    → (try_acquire_on (tunnel_semaphore t q)).0 ≡ true
    → (acquire_data_quota c t q).0 ≡ true
unfolding acquire_data_quota try_client try_tunnel with_client_slot keep_or_return
granted c t q e f =
    let q1 = put_client c (try_acquire_on (client_semaphore c q)).1 q in
    let same = tunnel_semaphore-put_client c t (try_acquire_on (client_semaphore c q)).1 q in
    rw (acquire_data_quota, try_client, e)
      (ap (λ z. (keep_or_return c z (put_tunnel t (try_acquire_on (tunnel_semaphore t q1)).1 q1)).0)
        (ap (λ z. (try_acquire_on z).0) same ∙ f))

-- The quotas after the client's slot was taken, the tunnel refused and the slot was given back.
returned_eq :
    (c t : Bytes) (q : Quotas)
    → (try_acquire_on (client_semaphore c q)).0 ≡ true
    → (try_acquire_on (tunnel_semaphore t q)).0 ≡ false
    → (acquire_data_quota c t q).1
      ≡ put_client c (release_on (try_acquire_on (client_semaphore c q)).1) (
          put_tunnel t
            (tunnel_semaphore t q)
            (put_client c (try_acquire_on (client_semaphore c q)).1 q))
unfolding acquire_data_quota try_client with_client_slot keep_or_return
returned_eq c t q e f =
    let q1 = put_client c (try_acquire_on (client_semaphore c q)).1 q in
    rw (acquire_data_quota, try_client, e)
      (ap (λ z. (keep_or_return c z.0 z.1).1)
          (refuses q1 (tunnel_semaphore-put_client c t (try_acquire_on (client_semaphore c q)).1 q))
        ∙ release_client-put c t (try_acquire_on (client_semaphore c q)).1 (tunnel_semaphore t q) q)
  where
    refuses :
        (q1 : Quotas)
        → tunnel_semaphore t q1 ≡ tunnel_semaphore t q
        → try_tunnel t q1 ≡ (false, put_tunnel t (tunnel_semaphore t q) q1)
    refuses q1 h = unfold try_tunnel in rw (h, f, try-refused (tunnel_semaphore t q) f) refl

refused_by_tunnel :
    (c t : Bytes) (q : Quotas) (x : Bytes)
    → pos 0 ≤ℤ client_active q c
    → (try_acquire_on (client_semaphore c q)).0 ≡ true
    → (try_acquire_on (tunnel_semaphore t q)).0 ≡ false
    → (client_active (acquire_data_quota c t q).1 x ≡ client_active q x)
      × (tunnel_active (acquire_data_quota c t q).1 x ≡ tunnel_active q x)
unfolding client_semaphore client_active
refused_by_tunnel c t q x p e f =
    let s = client_semaphore c q in
    let s' = (try_acquire_on s).1 in
    let u = tunnel_semaphore t q in
    let q1 = put_client c s' q in
    let q2 = put_tunnel t u q1 in
    rw (returned_eq c t q e f) (
      ground (
        arith,
        client_active-put_client c (release_on s') q2 x,
        client_active-put_tunnel t u q1 x,
        client_active-put_client c s' q x,
        release-try s p e,
        own x,
      ),
      ground (
        arith,
        tunnel_active-put_client c (release_on s') q2 x,
        tunnel_active-put_tunnel t u q1 x,
        tunnel_active-put_client c s' q x,
        own_tunnel x,
      ),
    )
  where
    own :
        (y : Bytes)
        → (if c == y then (client_semaphore c q).active else client_active q y) ≡ client_active q y
    own y = unfold client_active in ground (arith, bytes_beq_iff c y)

    own_tunnel :
        (y : Bytes)
        → (if t == y then (tunnel_semaphore t q).active else tunnel_active q y) ≡ tunnel_active q y
    own_tunnel y = unfold tunnel_active in ground (arith, bytes_beq_iff t y)

-- When the quota refuses a connection, no client and no tunnel has a slot more or less in use than
-- before: the slot taken of the client is given back.
pub acquire_rollback :
    (c t : Bytes) (q : Quotas) (x : Bytes)
    → pos 0 ≤ℤ client_active q c
    → (acquire_data_quota c t q).0 ≡ false
    → (client_active (acquire_data_quota c t q).1 x ≡ client_active q x)
      × (tunnel_active (acquire_data_quota c t q).1 x ≡ tunnel_active q x)
acquire_rollback c t q x p h = elim (Bool-cases (try_acquire_on (client_semaphore c q)).0) [
  | inr e ↦ refused_by_client c t q x e
  | inl e ↦ elim (Bool-cases (try_acquire_on (tunnel_semaphore t q)).0) [
    | inr f ↦ refused_by_tunnel c t q x p e f
    | inl f ↦ ground (arith, granted c t q e f)
  ]
]
