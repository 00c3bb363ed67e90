-- ===== src/Control/DataQuota.antt =====
-- internal/control/security.go: the slots of a data connection, one of its client and one of its
-- tunnel.
pub mod Rollback
use qoqtun.Prelude.{zero, suc, Bool, true, false, none, some, nat_eq, Bytes, bytes_eq}
use qoqtun.Prelude.Int.{ℤ, int_eq}
use qoqtun.Prelude.Maps.{Map, lookup, insert, delete}
use qoqtun.Security.Quota.{Semaphore, new_semaphore, try_acquire_on, release_on}

-- `policy.MaxConns`, `policy.MaxConnsTunnel` and the two maps of semaphores.
pub record Quotas : Type 0 where
  pub max_conns : ℤ
  pub max_conns_tunnel : ℤ
  pub client_sem : Map Bytes Semaphore
  pub tunnel_sem : Map Bytes Semaphore

-- A semaphore is made on its first use.
unfoldable pub sem_of : ℤ → Bytes → Map Bytes Semaphore → Semaphore
sem_of limit k m = elim (lookup k m) [ none ↦ new_semaphore limit | some s ↦ s ]

-- `clientSemaphore(clientID)` and a method of the semaphore on it.
unfoldable pub client_semaphore : Bytes → Quotas → Semaphore
client_semaphore c q = sem_of q.max_conns c q.client_sem

unfoldable pub tunnel_semaphore : Bytes → Quotas → Semaphore
tunnel_semaphore t q = sem_of q.max_conns_tunnel t q.tunnel_sem

unfoldable pub put_client : Bytes → Semaphore → Quotas → Quotas
put_client c s q = record q { client_sem = insert c s q.client_sem }

unfoldable pub put_tunnel : Bytes → Semaphore → Quotas → Quotas
put_tunnel t s q = record q { tunnel_sem = insert t s q.tunnel_sem }

unfoldable pub try_client : Bytes → Quotas → Bool × Quotas
try_client c q = let r = try_acquire_on (client_semaphore c q) in (r.0, put_client c r.1 q)

unfoldable pub try_tunnel : Bytes → Quotas → Bool × Quotas
try_tunnel t q = let r = try_acquire_on (tunnel_semaphore t q) in (r.0, put_tunnel t r.1 q)

unfoldable pub release_client : Bytes → Quotas → Quotas
release_client c q = put_client c (release_on (client_semaphore c q)) q

unfoldable pub release_tunnel : Bytes → Quotas → Quotas
release_tunnel t q = put_tunnel t (release_on (tunnel_semaphore t q)) q

-- `acquireDataQuota`: the slot of the client, then that of the tunnel.
unfoldable pub keep_or_return : Bytes → Bool → Quotas → Bool × Quotas
keep_or_return c true q = (true, q)
keep_or_return c false q = (false, release_client c q)

unfoldable pub with_client_slot : Bytes → Bytes → Bool → Quotas → Bool × Quotas
with_client_slot c t false q = (false, q)
with_client_slot c t true q = keep_or_return c (try_tunnel t q).0 (try_tunnel t q).1

unfoldable pub acquire_data_quota : Bytes → Bytes → Quotas → Bool × Quotas
acquire_data_quota c t q = with_client_slot c t (try_client c q).0 (try_client c q).1

-- `releaseDataQuota`
unfoldable pub release_data_quota : Bytes → Bytes → Quotas → Quotas
release_data_quota c t q = release_client c (release_tunnel t q)

-- What `cleanupSecurity` and `tunnelTeardown` do to the semaphores.
unfoldable pub cleanup_security : Bytes → Quotas → Quotas
cleanup_security c q = record q { client_sem = delete c q.client_sem }

unfoldable pub tunnel_teardown : Bytes → Quotas → Quotas
tunnel_teardown t q = record q { tunnel_sem = delete t q.tunnel_sem }
