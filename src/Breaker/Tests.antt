-- ===== src/Breaker/Tests.antt =====
-- src/providers/circuitBreaker.ts: histories of one breaker.
use confidential_content_pla.Prelude.{
  ℕ, ◌+◌, ◌≡◌, refl, ◌↔◌, ◌⊎◌, ◌≤◌, some, false, List, [], ◌∷◌, ok, err, leb, if◌then◌else◌, arith,
}
use confidential_content_pla.Breaker.{
  CircuitPermit, CircuitBreakerOptions, Breaker, snapshot, opened, half_open, is_half_open, new,
  acquire, cooled, provider_unavailable,
}
use confidential_content_pla.Breaker.Client.{
  success, failure, report, find_permit, World, Event, acquires, reports, step, run, start,
}
use confidential_content_pla.Breaker.Settling.{with_mark, report_twice, report_stale}
use confidential_content_pla.Breaker.Windows.{
  Reported, after, run_of_failures, failures_within, IsHistory, failure-opens_iff,
}
use confidential_content_pla.Breaker.SingleFlight.{probes, run-single_flight}
use confidential_content_pla.Breaker.Cooldown.{
  probe, run-opened, acquire-half_open, Resolves, run-half_open-Resolves,
}

-- Two failures in a row open the circuit for a hundred milliseconds.
abbrev quick : CircuitBreakerOptions
quick = record {
  consecutive_failure_threshold = some 2;
  burst_failure_threshold = some 3;
  burst_window_ms = some 50;
  open_duration_ms = some 100;
}

abbrev first_permit : CircuitPermit
first_permit = record { object = 0; half_open_probe = false; generation = 0 }

abbrev old_permit : CircuitPermit
old_permit = record { object = 7; half_open_probe = false; generation = 3 }

abbrev trips : List Event
trips = acquires 1 ∷ acquires 2 ∷ reports failure 3 0 ∷ reports failure 4 1 ∷ []

abbrev probing : List Event
probing =
    acquires 1
    ∷ acquires 2
    ∷ reports failure 3 0
    ∷ reports failure 4 1
    ∷ acquires 104
    ∷ acquires 105
    ∷ []

abbrev tripped : Breaker
tripped = (run (start quick) trips).breaker

abbrev halfway : Breaker
halfway = (run (start quick) probing).breaker

trips_open :
    snapshot 5 (run (start quick) trips).breaker
    ≡ record { state = opened; consecutive_failures = 2; recent_failures = 2 }
unfolding run step acquire report new snapshot
trips_open = refl

-- A failure for the first permit, another acquisition, and a success for the first permit.
abbrev one_out : World
one_out = run (start quick) (acquires 1 ∷ [])

report_twice_example :
    step (run (step one_out (reports failure 3 0)) (acquires 4 ∷ [])) (reports success 6 0)
    ≡ run (step one_out (reports failure 3 0)) (acquires 4 ∷ [])
unfolding run step acquire new find_permit
report_twice_example =
    report_twice one_out failure success 3 6 0 first_permit refl (acquires 4 ∷ [])

-- Three requests are let through; two fail, which opens the circuit, and the third succeeds late.
abbrev let_through : List Event
let_through = acquires 1 ∷ acquires 2 ∷ acquires 2 ∷ []

abbrev two_fail : List Event
two_fail = reports failure 3 0 ∷ reports failure 4 1 ∷ []

abbrev third_permit : CircuitPermit
third_permit = record { object = 2; half_open_probe = false; generation = 0 }

report_stale_example :
    let w = run (run (start quick) let_through) two_fail in
    step w (reports success 9 2) ≡ record w {
      breaker = record w.breaker { settled_permits = with_mark 2 w.breaker.settled_permits };
    }
unfolding run step acquire report new find_permit
report_stale_example =
    report_stale quick let_through two_fail 2 third_permit refl (omega arith) success 9

run-single_flight_example :
    probes (run (start quick) probing)
    ≡ (if is_half_open (run (start quick) probing).breaker.state then 1 else 0)
run-single_flight_example = run-single_flight quick probing

-- The latest first: a failure, a success and a failure.
abbrev told : List Reported
told =
    record { outcome = failure; time = 9; object = 2 }
    ∷ record { outcome = success; time = 5; object = 1 }
    ∷ record { outcome = failure; time = 3; object = 0 }
    ∷ []

abbrev last_failure : Reported
last_failure = record { outcome = failure; time = 40; object = 3 }

told-IsHistory : IsHistory (last_failure ∷ told)
told-IsHistory = ground arith

opens_iff_example : ((after quick (last_failure ∷ told)).state ≡ opened) ↔ (
    ((new quick).consecutive_failure_threshold ≤ run_of_failures told + 1)
    ⊎ ((new quick).burst_failure_threshold
        ≤ failures_within (new quick).burst_window_ms 40 told + 1))
unfolding new report
opens_iff_example = failure-opens_iff quick told 40 3 told-IsHistory refl

abbrev one_failure : List Event
one_failure = acquires 1 ∷ reports failure 3 0 ∷ []

abbrev one_failed : List Event
one_failed = acquires 1 ∷ acquires 2 ∷ reports failure 3 0 ∷ []

abbrev waiting : List Event
waiting = acquires 50 ∷ reports success 60 0 ∷ []

run-opened_example :
    let b = (run (step (run (start quick) one_failed) (reports failure 4 1)) waiting).breaker in
    acquire 104 9 b ≡ (
      if leb (4 + (run (start quick) one_failed).breaker.open_duration_ms) 104
      then ok (probe 9 b, record b { state = half_open })
      else err provider_unavailable)
unfolding run step acquire report new cooled find_permit
run-opened_example = run-opened quick one_failed 4 1 refl waiting (omega arith, (tt, tt)) 104 9

acquire-half_open_example : acquire 105 9 halfway ≡ err provider_unavailable
unfolding run step acquire report new cooled
acquire-half_open_example = acquire-half_open 105 9 halfway refl

half_open-Resolves_example : (o : ℕ) × Resolves (run (start quick) probing) o
unfolding run step acquire report new cooled
half_open-Resolves_example = run-half_open-Resolves quick probing refl
