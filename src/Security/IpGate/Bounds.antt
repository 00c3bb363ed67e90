-- ===== src/Security/IpGate/Bounds.antt =====
-- internal/security/ipgate.go: the caps that the gate keeps over any sequence of arrivals and
-- departures.
use qoqtun.Prelude.{
  ℕ, ◌+◌, ◌-◌, ◌<◌, ◌≡◌, refl, Bool, true, some, List, [], ◌∷◌, arith, Bytes, bytes_eq, nat_eq,
  Bool-cases, inl, inr, ◌==◌,
}
use qoqtun.Prelude.Int.{ℤ, pos, ◌≤ℤ◌, ◌<ℤ◌}
use qoqtun.Prelude.Maps.{lookup, lookup-insert, lookup-delete}
use qoqtun.Security.IpGate.{
  IpGate, new_ip_gate, active, release, allow_conn, active-allow_conn, active-release, Call,
  arrives, leaves, step, run, Usage,
}

module _ {Limiter : Type 0} (new_limiter : ℕ → ℕ → Limiter)
    (allow : ℕ → Limiter → Bool × Limiter) where
  -- The gate counts what the addresses hold, within the cap for each, and has no entry for an address
  -- without connections.
  pub record IsValid (cap : ℤ) (u : Usage new_limiter allow) : Type 0 where
    pub cap_kept : u.gate.max_per_ip ≡ cap
    pub counted : (ip : Bytes) → active u.gate ip ≡ u.held ip
    pub capped : (ip : Bytes) → pos 0 <ℤ cap → pos (u.held ip) ≤ℤ cap
    pub no_idle : (ip : Bytes) (n : ℕ) → lookup ip u.gate.conns ≡ some n → 0 < n

  max-allow_conn :
      (g : IpGate Limiter) (now : ℕ) (ip : Bytes)
      → (allow_conn new_limiter allow g now ip).1.max_per_ip ≡ g.max_per_ip
  unfolding allow_conn
  max-allow_conn g now ip = ground arith

  max-release : (g : IpGate Limiter) (ip : Bytes) → (release g ip).max_per_ip ≡ g.max_per_ip
  unfolding release
  max-release g ip = ground arith

  admitted_below :
      (g : IpGate Limiter) (now : ℕ) (ip : Bytes)
      → pos 0 <ℤ g.max_per_ip
      → (allow_conn new_limiter allow g now ip).0 ≡ true
      → pos (active g ip) <ℤ g.max_per_ip
  unfolding allow_conn active
  admitted_below g now ip h e = ground arith

  no_idle-allow_conn :
      (g : IpGate Limiter) (now : ℕ) (ip j : Bytes) (n : ℕ)
      → ((k : ℕ) → lookup j g.conns ≡ some k → 0 < k)
      → lookup j (allow_conn new_limiter allow g now ip).1.conns ≡ some n
      → 0 < n
  unfolding allow_conn
  no_idle-allow_conn g now ip j n v e =
      ground (arith, lookup-insert ip j (active g ip + 1) g.conns, v n)

  no_idle-release :
      (g : IpGate Limiter) (ip j : Bytes) (n : ℕ)
      → ((k : ℕ) → lookup j g.conns ≡ some k → 0 < k)
      → lookup j (release g ip).conns ≡ some n
      → 0 < n
  unfolding release
  no_idle-release g ip j n v e =
      ground (arith, lookup-insert ip j (active g ip - 1) g.conns, lookup-delete ip j g.conns, v n)

  step-IsValid :
      (cap : ℤ) (u : Usage new_limiter allow) (c : Call new_limiter allow)
      → IsValid cap u
      → IsValid cap (step new_limiter allow u c)
  unfolding step
  step-IsValid cap u (arrives now ip) v = record {
    cap_kept = ground (arith, max-allow_conn u.gate now ip);
    counted = λ j. ground (arith, active-allow_conn new_limiter allow u.gate now ip j, v.counted j);
    capped = λ j h. ground (
      arith,
      bytes_eq.beq_iff ip j,
      admitted_below u.gate now ip,
      v.counted ip,
      v.cap_kept,
      v.capped j,
    );
    no_idle = λ j n. no_idle-allow_conn u.gate now ip j n (v.no_idle j);
  }
  step-IsValid cap u (leaves ip) v = elim (Bool-cases (u.held ip == 0)) [
    | inl none_held ↦ rw (step, none_held) v
    | inr some_held ↦
        rw (step, some_held)
          record {
            cap_kept = ground (arith, max-release u.gate ip);
            counted =
                λ j. ground (arith, active-release new_limiter allow u.gate ip j, v.counted j);
            capped = λ j h. ground (arith, v.capped j);
            no_idle = λ j n. no_idle-release u.gate ip j n (v.no_idle j);
          }
  ]

  run_from-IsValid :
      (cap : ℤ) (u : Usage new_limiter allow) (cs : List (Call new_limiter allow))
      → IsValid cap u
      → IsValid cap (run new_limiter allow u cs)
  unfolding run
  run_from-IsValid cap u [] v = v
  run_from-IsValid cap u (c ∷ cs) v =
      run_from-IsValid cap (step new_limiter allow u c) cs (step-IsValid cap u c v)

  -- A new gate, and no connection held.
  unfoldable pub unused : ℤ → ℕ → Usage new_limiter allow
  unfolding new_ip_gate
  unused cap rate = record { gate = new_ip_gate cap rate; held = λ ip. 0 }

  -- From a new gate, after any sequence of connections that arrive and of admitted ones that leave:
  -- the gate counts for each address exactly the connections that were admitted and have not left,
  -- no address has more of them than a positive cap, and the table has no entry for an address
  -- without any.
  pub run_gate-IsValid :
      (cap : ℤ) (rate : ℕ) (cs : List (Call new_limiter allow))
      → IsValid cap (run new_limiter allow (unused cap rate) cs)
  unfolding unused active lookup
  run_gate-IsValid cap rate cs = run_from-IsValid cap _ cs (record {
    cap_kept = refl;
    counted = λ ip. refl;
    capped = λ ip h. ground arith;
    no_idle = λ ip n. ground arith;
  })
