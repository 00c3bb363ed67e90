-- ===== src/Client/Reconnect.antt =====
-- internal/clientcore/manager.go: the loop that keeps the client connected. Durations are int64
-- nanoseconds. The random jitter is an argument; so is what happens in each round.
pub mod Delay
pub mod Loop
use qoqtun.Prelude.{
  ℕ, zero, suc, ◌-◌, Bool, Option, none, some, List, [], ◌∷◌, ◌++◌, if◌then◌else◌, nat_eq, bytes_eq,
  ◌*◌, ◌%◌, ◌^◌, max,
}
use qoqtun.Prelude.Int.{ℤ, pos, negsuc, ltz, lez, int_eq, ◌+ℤ◌, ◌-ℤ◌, signed64}
use qoqtun.Client.Errors.{Error, is_permanent, is_graceful, classify}

pub data ManagerState : Type 0 where
  disconnected connecting online draining stopped : ManagerState

pub record BackoffConfig : Type 0 where
  pub initial : ℤ
  pub max : ℤ

abbrev pub second : ℕ
second = 1000000000

-- `DefaultBackoff`, without the jitter.
abbrev pub default_backoff : BackoffConfig
default_backoff = record { initial = pos second; max = pos (60 * second) }

-- `base *= 2` on an int64.
unfoldable pub double64 : ℤ → ℤ
double64 (pos n) = signed64 ((n * 2) % 2 ^ 64)
double64 (negsuc n) = signed64 ((2 ^ 64 - (suc n * 2) % 2 ^ 64) % 2 ^ 64)

unfoldable pub cap : ℤ → ℤ → ℤ
cap limit base = if ltz limit base then limit else base

-- The loop of `backoffFor`, of at most so many rounds.
unfoldable pub grow : ℕ → ℤ → ℤ → ℤ
grow zero limit base = base
grow (suc n) limit base =
    let next = grow n limit (cap limit (double64 base)) in if ltz base limit then next else base

-- `backoffFor` before the jitter.
unfoldable pub base_for : BackoffConfig → ℕ → ℤ
base_for c attempt = cap c.max (grow (attempt - 1) c.max c.initial)

abbrev pub millisecond : ℤ
millisecond = pos 1000000

-- `base -= delta` or `base += delta`, and the final clamps.
unfoldable pub jittered : ℤ → Bool → ℤ → ℤ
jittered base down delta = if down then base -ℤ delta else base +ℤ delta

unfoldable pub clamp : ℤ → ℤ → ℤ
clamp limit base = cap limit (if ltz base millisecond then millisecond else base)

-- `backoffFor`
unfoldable pub backoff_for : BackoffConfig → ℕ → Bool → ℤ → ℤ
backoff_for c attempt down delta = clamp c.max (jittered (base_for c attempt) down delta)

-- A round: whether a stop was requested before it, how its session ended, the jitter, and whether
-- a stop was requested while waiting.
pub record Round : Type 0 where
  pub stop_before : Bool
  pub session : Option Error
  pub down : Bool
  pub delta : ℤ
  pub stop_waiting : Bool

pub data Outcome : Type 0 where
  finished : Outcome
  failed : Error → Outcome
  still_running : Outcome

-- The calls of `setState`, the delays waited and the end.
pub record Trace : Type 0 where
  pub states : List ManagerState
  pub delays : List ℤ
  pub outcome : Outcome

abbrev pub ends : List ManagerState → List ℤ → Outcome → Trace
ends states delays outcome = record { states = states; delays = delays; outcome = outcome }

abbrev pub before : List ManagerState → List ℤ → Trace → Trace
before states delays t = record {
  states = states ++ t.states;
  delays = delays ++ t.delays;
  outcome = t.outcome;
}

-- What a round makes of the classified end of its session.
pub data Verdict : Type 0 where
  stop_clean retry : Verdict
  give_up : Error → Verdict

unfoldable pub verdict : Option Error → Verdict
verdict none = stop_clean
verdict (some e) = if is_graceful e then stop_clean else if is_permanent e then give_up e else retry

unfoldable pub with_defaults : BackoffConfig → BackoffConfig
with_defaults c = if lez c.initial (pos 0) then default_backoff else c

-- The rest of a round, after its session: `rest` is what the loop does next.
unfoldable pub after : BackoffConfig → ℕ → Round → Verdict → Trace → Trace
after c attempt r stop_clean rest = ends (connecting ∷ stopped ∷ []) [] finished
after c attempt r (give_up e) rest = ends (connecting ∷ stopped ∷ []) [] (failed e)
after c attempt r retry rest =
    let delay = backoff_for c attempt r.down r.delta in
    if r.stop_waiting
    then ends (connecting ∷ disconnected ∷ stopped ∷ []) (delay ∷ []) finished
    else before (connecting ∷ disconnected ∷ []) (delay ∷ []) rest

-- The loop of `Run`, over the rounds that happen; `attempt` counts those before.
unfoldable pub loop : BackoffConfig → ℕ → List Round → Trace
loop c attempt [] = ends [] [] still_running
loop c attempt (r ∷ rs) =
    let rest = loop c (suc attempt) rs in
    if r.stop_before
    then ends (stopped ∷ []) [] finished
    else after c (suc attempt) r (verdict (classify r.session)) rest

-- `Run`
unfoldable pub run : BackoffConfig → List Round → Trace
run c rounds = loop (with_defaults c) 0 rounds
