-- ===== src/Control/HalfOpen.antt =====
-- internal/control/server.go: the connections of one address that are not yet through the
-- handshake.
use qoqtun.Prelude.{
  ℕ, suc, ◌-◌, ◌≡◌, Bool, true, false, none, some, List, [], ◌∷◌, arith, if◌then◌else◌, ◌==◌, leb,
  nat_eq, Bytes, bytes_eq, Bool-cases, inl, inr, bytes_beq_iff,
}
use qoqtun.Prelude.Int.{ℤ, pos, lez, int_eq, ◌≤ℤ◌}
use qoqtun.Prelude.Maps.{Map, lookup, insert, delete, lookup-insert, lookup-delete}

abbrev pub HalfOpenTracker : Type 0
HalfOpenTracker = Map Bytes ℕ

unfoldable pub count : HalfOpenTracker → Bytes → ℕ
count h ip = elim (lookup ip h) [ none ↦ 0 | some n ↦ n ]

-- `tryAcquire`
unfoldable pub try_acquire : Bytes → ℤ → HalfOpenTracker → Bool × HalfOpenTracker
try_acquire ip limit h =
    if lez limit (pos (count h ip)) then (false, h) else (true, insert ip (suc (count h ip)) h)

-- `release`
unfoldable pub release : Bytes → HalfOpenTracker → HalfOpenTracker
release ip h = if leb (count h ip) 1 then delete ip h else insert ip (count h ip - 1) h

pub data Call : Type 0 where
  enter leave : Bytes → Call

-- The tracker beside the connections that each address holds.
pub record Usage : Type 0 where
  pub tracker : HalfOpenTracker
  pub held : Bytes → ℕ

abbrev pub bump : Bytes → (Bytes → ℕ) → Bytes → ℕ
bump ip held j = if ip == j then suc (held j) else held j

abbrev pub lower : Bytes → (Bytes → ℕ) → Bytes → ℕ
lower ip held j = if ip == j then held j - 1 else held j

-- A handler that was refused does not release.
unfoldable pub step : ℤ → Call → Usage → Usage
step limit (enter ip) u = record {
  tracker = (try_acquire ip limit u.tracker).1;
  held = if (try_acquire ip limit u.tracker).0 then bump ip u.held else u.held;
}
step limit (leave ip) u =
    if u.held ip == 0 then u else record { tracker = release ip u.tracker; held = lower ip u.held }

unfoldable pub run : ℤ → List Call → Usage → Usage
run limit [] u = u
run limit (c ∷ cs) u = run limit cs (step limit c u)

-- The tracker counts what the addresses hold, and no address holds more than the limit.
abbrev pub IsExact : ℤ → Usage → Type 0
IsExact limit u =
    ((ip : Bytes) → count u.tracker ip ≡ u.held ip) × ((ip : Bytes) → pos (u.held ip) ≤ℤ limit)

count-insert :
    (ip j : Bytes) (n : ℕ) (h : HalfOpenTracker)
    → count (insert ip n h) j ≡ (if ip == j then n else count h j)
unfolding count
count-insert ip j n h = ground (arith, lookup-insert ip j n h)

count-release : (ip j : Bytes) (h : HalfOpenTracker) → count (release ip h) j ≡ lower ip (count h) j
unfolding count release
count-release ip j h = elim (Bool-cases (leb (count h ip) 1)) [
  | inl e ↦ rw (release, e) (ground (arith, lookup-delete ip j h, bytes_beq_iff ip j))
  | inr e ↦
      rw (release, e) (ground (arith, lookup-insert ip j (count h ip - 1) h, bytes_beq_iff ip j))
]

step-IsExact : (limit : ℤ) (c : Call) (u : Usage) → IsExact limit u → IsExact limit (step limit c u)
unfolding step try_acquire
step-IsExact limit (enter ip) u x = elim (Bool-cases (lez limit (pos (count u.tracker ip)))) [
  | inl e ↦ rw (step, try_acquire, e) x
  | inr e ↦
      rw (step, try_acquire, e)
        (
          (λ j. ground (
            arith,
            count-insert ip j (suc (count u.tracker ip)) u.tracker,
            x.0 j,
            x.0 ip,
            bytes_beq_iff ip j,
          )),
          (λ j. ground (arith, x.0 ip, x.1 j, bytes_beq_iff ip j)),
        )
]
step-IsExact limit (leave ip) u x = elim (Bool-cases (u.held ip == 0)) [
  | inl e ↦ rw (step, e) x
  | inr e ↦
      rw (step, e)
        ((λ j. ground (arith, count-release ip j u.tracker, x.0 j)), (λ j. ground (arith, x.1 j)))
]

-- However handshakes come and go, the tracker counts exactly those under way from each address, and
-- none has more of them than the limit allows.
pub run-IsExact :
    (limit : ℤ) (cs : List Call) (u : Usage) → IsExact limit u → IsExact limit (run limit cs u)
unfolding run
run-IsExact limit [] u x = x
run-IsExact limit (c ∷ cs) u x = run-IsExact limit cs (step limit c u) (step-IsExact limit c u x)
