-- ===== src/Security/IpGate.antt =====
-- internal/security/ipgate.go: the connection gate per source IP. The token bucket of
-- golang.org/x/time/rate is a parameter: `new_limiter rate burst`, and `allow now l`.
-- A rate is in thousandths of a connection per second. Counts start at 0 and fall only when
-- positive, so they are natural numbers.
pub mod Bounds
use qoqtun.Prelude.{
  ℕ, zero, suc, ◌+◌, ◌-◌, ◌*◌, ◌/◌, ◌≡◌, Bool, true, false, ◌&&◌, Option, none, some, List, [], ◌∷◌,
  arith, if◌then◌else◌, ◌==◌, ltb, Bytes, bytes_eq, nat_eq,
}
use qoqtun.Prelude.Int.{ℤ, pos, ltz, lez}
use qoqtun.Prelude.Maps.{Map, lookup, insert, delete, lookup-insert, lookup-delete}

pub record IpGate (Limiter : Type 0) : Type 0 where
  pub conns : Map Bytes ℕ
  pub rates : Map Bytes Limiter
  pub max_per_ip : ℤ
  pub rate : ℕ
  pub burst : ℕ

abbrev or_zero : Option ℕ → ℕ
or_zero none = 0
or_zero (some n) = n

-- `NewIPGate`; a burst is twice the rate and at least 8.
unfoldable pub new_ip_gate : {Limiter : Type 0} → ℤ → ℕ → IpGate Limiter
new_ip_gate max_conns rate = record {
  conns = [];
  rates = [];
  max_per_ip = max_conns;
  rate = rate;
  burst = if rate == 0 then 0 else if ltb (rate / 1000 * 2) 8 then 8 else rate / 1000 * 2;
}

-- `g.conns[ip]`, which is 0 for an absent key.
unfoldable pub active : {Limiter : Type 0} → IpGate Limiter → Bytes → ℕ
active g ip = or_zero (lookup ip g.conns)

abbrev or_else : {A : Type 0} → Option A → A → A
or_else none a = a
or_else (some b) a = b

unfoldable pub release : {Limiter : Type 0} → IpGate Limiter → Bytes → IpGate Limiter
unfolding active
release g ip =
    if ltb 0 (active g ip)
    then if (active g ip - 1) == 0
      then record g { conns = delete ip g.conns }
      else record g { conns = insert ip (active g ip - 1) g.conns }
    else g

module _ {Limiter : Type 0} (new_limiter : ℕ → ℕ → Limiter)
    (allow : ℕ → Limiter → Bool × Limiter) where
  -- The first test of `Allow`: the connection rate.
  unfoldable pub rate_allows : IpGate Limiter → ℕ → Bytes → Bool × IpGate Limiter
  rate_allows g now ip =
      let l = allow now (or_else (lookup ip g.rates) (new_limiter g.rate g.burst)) in
      if g.rate == 0 then (true, g) else (l.0, record g { rates = insert ip l.1 g.rates })

  -- The second: the concurrency cap.
  unfoldable pub take_slot : IpGate Limiter → Bytes → Bool × IpGate Limiter
  unfolding active
  take_slot g ip =
      if ltz (pos 0) g.max_per_ip && lez g.max_per_ip (pos (active g ip))
      then (false, g)
      else (true, record g { conns = insert ip (active g ip + 1) g.conns })

  unfoldable pub allow_conn : IpGate Limiter → ℕ → Bytes → Bool × IpGate Limiter
  unfolding rate_allows take_slot
  allow_conn g now ip =
      let r = rate_allows g now ip in if r.0 then take_slot r.1 ip else (false, r.1)

  pub data Call : Type 0 where
    arrives : ℕ → Bytes → Call
    leaves : Bytes → Call

  -- The gate beside the connections that each address holds.
  pub record Usage : Type 0 where
    pub gate : IpGate Limiter
    pub held : Bytes → ℕ

  -- A handler that was refused does not release.
  unfoldable pub step : Usage → Call → Usage
  step u (arrives now ip) =
      let a = allow_conn u.gate now ip in
      record { gate = a.1; held = λ j. if a.0 && (ip == j) then suc (u.held j) else u.held j }
  step u (leaves ip) = if u.held ip == 0 then u else record {
    gate = release u.gate ip;
    held = λ j. if ip == j then u.held j - 1 else u.held j;
  }

  unfoldable pub run : Usage → List Call → Usage
  run u [] = u
  run u (c ∷ cs) = run (step u c) cs

  -- One address after an arrival, in full.
  pub active-allow_conn :
      (g : IpGate Limiter) (now : ℕ) (ip j : Bytes)
      → active (allow_conn g now ip).1 j
        ≡ (if (allow_conn g now ip).0 && (ip == j) then suc (active g j) else active g j)
  unfolding active allow_conn
  active-allow_conn g now ip j =
      ground (arith, bytes_eq.beq_iff ip j, lookup-insert ip j (active g ip + 1) g.conns)

  pub active-release :
      (g : IpGate Limiter) (ip j : Bytes)
      → active (release g ip) j ≡ (if ip == j then active g j - 1 else active g j)
  unfolding active release
  active-release g ip j = ground (
    arith,
    bytes_eq.beq_iff ip j,
    lookup-insert ip j (active g ip - 1) g.conns,
    lookup-delete ip j g.conns,
  )
