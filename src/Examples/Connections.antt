-- ===== src/Examples/Connections.antt =====
-- internal/clientcore, internal/control, internal/security and internal/enroll: runs of the
-- bookkeeping of connections.
use qoqtun.Prelude.{
  ℕ, zero, suc, ◌≤◌, ◌≡◌, refl, Bool, true, false, ◌&&◌, ◌||◌, not, none, some, List, [], ◌∷◌, ◌++◌,
  arith, if◌then◌else◌, ◌==◌, ltb, nat_eq, Bytes, codes, bytes_eq, bytes_beq, ◌≢◌, ◌*◌, ◌^◌, min,
  max,
}
use qoqtun.Prelude.Int.{pos, int_eq, ◌≤ℤ◌}
use qoqtun.Prelude.Maps.{Map, lookup}
use qoqtun.Client.Errors.{
  Error, plain, is_permanent, is_temporary, is_graceful, is_marked, message, classify,
}
use qoqtun.Client.Errors.Classified.{classify_lem}
use qoqtun.Client.Reconnect.{default_backoff, second, base_for, Round, failed, still_running, run}
use qoqtun.Client.Reconnect.Loop.{IsLegal, SomeFatal, run-IsLegal, run-failed}
use qoqtun.Control.HalfOpen.{run-IsExact}
use qoqtun.Control.HalfOpen
use qoqtun.Control.Ports.{
  Reservations, check_port_arbitration, keeps_out, check_port_arbitration_effect,
}
use qoqtun.Control.VhostListener.{run-IsCounted}
use qoqtun.Control.VhostListener
use qoqtun.Control.DataQuota.{Quotas, acquire_data_quota}
use qoqtun.Control.DataQuota.Rollback.{client_active, tunnel_active, acquire_rollback}
use qoqtun.Security.Quota
use qoqtun.Security.Quota.{run-exact}
use qoqtun.Security.IpGate
use qoqtun.Security.IpGate.Bounds
use qoqtun.Security.IpGate.Bounds.{run_gate-IsValid, unused}
use qoqtun.Enroll.RateLimit.Bans
use qoqtun.Enroll.RateLimit.{IpState, allow, report, report_state, state_of}
use qoqtun.Enroll.RateLimit.Bans.{report_bans}

abbrev an_error : Error
an_error = plain (codes "x509: bad")

classify_lem_example :
    (c : Error) × (classify (some an_error) ≡ some c)
    × ((is_permanent c || is_temporary c) ≡ true)
    × (is_graceful c ≡ is_graceful an_error)
    × (is_permanent c ≡ (
        if is_permanent an_error || is_temporary an_error
        then is_permanent an_error
        else is_marked (message an_error)))
    × (classify (some c) ≡ some c)
classify_lem_example = classify_lem an_error

abbrev lost : Round
lost = record {
  stop_before = false;
  session = some (plain (codes "EOF"));
  down = true;
  delta = pos 5;
  stop_waiting = false;
}

abbrev refused : Round
refused = record lost { session = some an_error }

abbrev rounds : List Round
rounds = lost ∷ refused ∷ []

run-IsLegal_example : IsLegal (run default_backoff rounds)
run-IsLegal_example = run-IsLegal default_backoff rounds

gave_up : (run default_backoff rounds).outcome ≡ failed (Error.permanent an_error)
unfolding run qoqtun.Client.Reconnect.loop qoqtun.Client.Reconnect.after
    qoqtun.Client.Reconnect.verdict classify is_permanent is_temporary is_marked
    qoqtun.Client.Errors.contains_any qoqtun.Client.Errors.contains qoqtun.Prelude.Strings.to_lower
    message qoqtun.Prelude.Strings.has_prefix is_graceful qoqtun.Prelude.Strings.lower_join
gave_up = refl

run-failed_example : SomeFatal rounds (Error.permanent an_error)
run-failed_example = run-failed default_backoff rounds (Error.permanent an_error) gave_up

abbrev nobody : HalfOpen.Usage
nobody = record { tracker = []; held = λ ip. 0 }

nobody-IsExact : HalfOpen.IsExact (pos 2) nobody
unfolding HalfOpen.count lookup
nobody-IsExact = ((λ ip. refl), (λ ip. omega arith))

abbrev handshakes : List HalfOpen.Call
handshakes =
    HalfOpen.enter (codes "ip") ∷ HalfOpen.enter (codes "ip") ∷ HalfOpen.leave (codes "ip") ∷ []

run-IsExact_example : HalfOpen.IsExact (pos 2) (HalfOpen.run (pos 2) handshakes nobody)
run-IsExact_example = run-IsExact (pos 2) handshakes nobody nobody-IsExact

abbrev reserved : Reservations
reserved = (pos 8000, record { client_id = codes "a"; until = 60 }) ∷ []

check_port_arbitration_effect_example :
    ((check_port_arbitration (pos 8000) (codes "b") 50 reserved).0
      ≡ not (keeps_out (codes "b") 50 (lookup (pos 8000) reserved)))
    × (lookup (pos 8000) (check_port_arbitration (pos 8000) (codes "b") 50 reserved).1
        ≡ elim (lookup (pos 8000) reserved) [
          | none ↦ none
          | some r ↦
              (if ltb r.until 50 || (pos 8000 == pos 8000 && r.client_id == codes "b")
                then none
                else some r)
        ])
unfolding lookup
check_port_arbitration_effect_example =
    check_port_arbitration_effect (pos 8000) (codes "b") 50 reserved (pos 8000) (refl, tt)

abbrev closed_listener : VhostListener.Usage
closed_listener = record { listener = record { refs = pos 0; listening = false }; users = 0 }

abbrev listener_calls : List VhostListener.Call
listener_calls =
    VhostListener.start (pos 8080) false
    ∷ VhostListener.start (pos 8080) true
    ∷ VhostListener.stop
    ∷ []

run-IsCounted_example : VhostListener.IsCounted (VhostListener.run listener_calls closed_listener)
run-IsCounted_example = run-IsCounted listener_calls closed_listener (refl, refl)

-- A tunnel whose slot is taken.
abbrev busy : Quotas
busy = record {
  max_conns = pos 4;
  max_conns_tunnel = pos 1;
  client_sem = [];
  tunnel_sem = (codes "t", record { limit = pos 1; active = pos 1 }) ∷ [];
}

refuses : (acquire_data_quota (codes "c") (codes "t") busy).0 ≡ false
unfolding acquire_data_quota qoqtun.Control.DataQuota.with_client_slot
    qoqtun.Control.DataQuota.try_client Quota.try_acquire_on
    qoqtun.Control.DataQuota.client_semaphore qoqtun.Control.DataQuota.sem_of lookup
    Quota.new_semaphore qoqtun.Control.DataQuota.keep_or_return qoqtun.Control.DataQuota.try_tunnel
    qoqtun.Control.DataQuota.tunnel_semaphore qoqtun.Control.DataQuota.put_client bytes_beq
refuses = refl

nonneg : pos 0 ≤ℤ client_active busy (codes "c")
unfolding client_active qoqtun.Control.DataQuota.client_semaphore qoqtun.Control.DataQuota.sem_of
    lookup Quota.new_semaphore
nonneg = omega arith

acquire_rollback_example :
    (client_active (acquire_data_quota (codes "c") (codes "t") busy).1 (codes "c")
      ≡ client_active busy (codes "c"))
    × (tunnel_active (acquire_data_quota (codes "c") (codes "t") busy).1 (codes "c")
        ≡ tunnel_active busy (codes "c"))
acquire_rollback_example = acquire_rollback (codes "c") (codes "t") busy (codes "c") nonneg refuses

abbrev quota_calls : List Quota.Call
quota_calls = Quota.ask ∷ Quota.ask ∷ Quota.ask ∷ Quota.give_back ∷ []

run-exact_example :
    ((Quota.run (Quota.init (pos 2)) quota_calls).held ≤ 2)
    × (Quota.active_slots (Quota.run (Quota.init (pos 2)) quota_calls).sem
        ≡ pos (Quota.run (Quota.init (pos 2)) quota_calls).held)
    × ((Quota.try_acquire (Quota.run (Quota.init (pos 2)) quota_calls).sem).0
        ≡ ltb (Quota.run (Quota.init (pos 2)) quota_calls).held 2)
run-exact_example = run-exact 1 quota_calls

-- A limiter that lets everything through.
abbrev free : ℕ → ℕ → ℕ
free rate burst = 0

abbrev always : ℕ → ℕ → Bool × ℕ
always now l = (true, l)

run_gate-IsValid_example : Bounds.IsValid free always (pos 2) (
    IpGate.run free always (unused free always (pos 2) 20000) (
      IpGate.arrives 1 (codes "ip")
      ∷ IpGate.arrives 2 (codes "ip")
      ∷ IpGate.leaves (codes "ip")
      ∷ []))
run_gate-IsValid_example = run_gate-IsValid free always (pos 2) 20000 (
    IpGate.arrives 1 (codes "ip") ∷ IpGate.arrives 2 (codes "ip") ∷ IpGate.leaves (codes "ip") ∷ [])

-- A limiter that fails exactly when its context is done.
-- An address that failed once, and one that failed 31 times.
abbrev failed_times : ℕ → IpState ℕ
failed_times n = record { limiter = 0; fails = n; ban_until = pos 0 }

abbrev once_failed : Map Bytes (IpState ℕ)
once_failed = (codes "ip", failed_times 1) ∷ []

-- Before the ban has run, another address asks and fails and the banned one asks.
abbrev meanwhile : List (Bans.Call 0 always)
meanwhile =
    Bans.asks 101 (codes "j") ∷ Bans.reports 102 (codes "j") false ∷ Bans.asks 103 (codes "ip") ∷ []

report_bans_example :
    let m' = Bans.run 0 always meanwhile (report 0 always 100 (codes "ip") false once_failed) in
    ((allow 0 always 104 (codes "ip") m').0 ≡ false)
    × ((state_of 0 always (codes "ip") (allow 0 always 104 (codes "ip") m').1).limiter ≡ 0)
    × (lookup (codes "j") (report 0 always 100 (codes "ip") false once_failed) ≡ (
        if codes "ip" == codes "j"
        then some (report_state 100 false (failed_times 1))
        else lookup (codes "j") once_failed))
unfolding lookup bytes_beq
report_bans_example =
    report_bans 0 always 100 104 (codes "ip") (codes "j") meanwhile once_failed (failed_times 1)
      refl (omega arith) (omega arith) (omega arith, (refl, (omega arith, tt))) (ground arith)
