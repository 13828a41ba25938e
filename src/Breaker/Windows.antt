-- ===== src/Breaker/Windows.antt =====
-- src/providers/circuitBreaker.ts: when failures open the circuit, told from the outcomes that were
-- reported, without the breaker's counters.
use mathlib.Core.Path.{subst}
use confidential_content_pla.Prelude.{
  ℕ, ◌+◌, ◌≤◌, ◌≡◌, ◌≢◌, ◌↔◌, ◌⊎◌, refl, sym, ap, ◌∙◌, Bool, true, false, ◌&&◌, List, [], ◌∷◌, ◌++◌,
  ==_iff, leb, if◌then◌else◌, length, select, map, All, All-map, arith,
}
use confidential_content_pla.Prelude.Int.{pos}
use confidential_content_pla.Breaker.{
  Settings, CircuitPermit, CircuitBreakerOptions, Breaker, closed, opened, has, recent, new,
}
use confidential_content_pla.Breaker.Client.{Outcome, success, failure, neutral, report}
use confidential_content_pla.Breaker.Thresholds.{report-failure-opens_iff}

-- An outcome, when it was reported, and for which permit.
pub record Reported : Type 0 where
  pub outcome : Outcome
  pub time : ℕ
  pub object : ℕ

-- The permit that a closed circuit hands out which has never opened.
abbrev pub permit_of : ℕ → CircuitPermit
permit_of object = record { object = object; half_open_probe = false; generation = 0 }

-- A new breaker after the outcomes of a history, the latest first.
abbrev pub after : CircuitBreakerOptions → List Reported → Breaker
after options [] = new options
after options (r ∷ before) = report r.outcome r.time (permit_of r.object) (after options before)

abbrev pub is_failure : Outcome → Bool
is_failure failure = true
is_failure _ = false

-- The failures since the last success.
abbrev pub run_of_failures : List Reported → ℕ
run_of_failures [] = 0
run_of_failures (r ∷ before) = elim r.outcome [
  | success ↦ 0
  | failure ↦ run_of_failures before + 1
  | neutral ↦ run_of_failures before
]

-- The failures of a history that lie at most `window` before `now`.
abbrev pub failures_within : (window now : ℕ) → List Reported → ℕ
failures_within window now [] = 0
failures_within window now (r ∷ before) =
    (if is_failure r.outcome && leb now (r.time + window) then 1 else 0)
    + failures_within window now before

-- No outcome is earlier than those before it, and none is a second one for a permit.
abbrev pub Follows : Reported → List Reported → Type 0
Follows r = All (λ e. (e.time ≤ r.time) × (e.object ≢ r.object))

abbrev pub IsHistory : List Reported → Type 0
IsHistory [] = Unit {0}
IsHistory (r ∷ before) = Follows r before × IsHistory before

-- How many of the times lie in the window.
abbrev within : (window now : ℕ) → List ℕ → ℕ
within window now times = length (select (λ at. leb now (at + window)) times)

within-recent :
    (window early now : ℕ) (times : List ℕ)
    → early ≤ now
    → within window now (select (λ at. leb early (at + window)) times) ≡ within window now times
within-recent window early now [] h = refl
within-recent window early now (t ∷ times) h =
    ground (arith, within-recent window early now times h)

within-append :
    (window now t : ℕ) (times : List ℕ)
    → within window now (times ++ t ∷ [])
      ≡ (if leb now (t + window) then 1 else 0) + within window now times
within-append window now t [] = ground arith
within-append window now t (u ∷ times) = ground (arith, within-append window now t times)

-- The breaker's counters are those of the history.
record Counts (options : CircuitBreakerOptions) (history : List Reported) (b : Breaker)
    : Type 0 where
  settings_kept : b.settings ≡ (new options).settings
  is_closed : b.state ≡ closed
  never_opened : b.generation ≡ 0
  run_counted : b.consecutive_failures ≡ run_of_failures history
  burst_counted :
      (now : ℕ)
      → All (λ e. e.time ≤ now) history
      → within b.burst_window_ms now b.recent_failures
        ≡ failures_within b.burst_window_ms now history
  marks : b.settled_permits ≡ map (λ r. r.object) history

fresh :
    (x : ℕ) (history : List Reported)
    → All (λ e. e.object ≢ x) history
    → has (map (λ r. r.object) history) x ≡ false
fresh x [] h = refl
fresh x (r ∷ history) h = ground (arith, fresh x history h.1, ==_iff x r.object)

generation-report :
    (o : Outcome) (now : ℕ) (p : CircuitPermit) (b : Breaker)
    → b.generation ≤ (report o now p b).generation
unfolding report
generation-report success now p b = ground arith
generation-report failure now p b = ground arith
generation-report neutral now p b = ground arith

new-Counts : (options : CircuitBreakerOptions) → Counts options [] (new options)
unfolding new
new-Counts options = record {
  settings_kept = refl;
  is_closed = refl;
  never_opened = refl;
  run_counted = refl;
  burst_counted = λ now h. refl;
  marks = refl;
}

-- One more outcome that opens nothing.
module _ (options : CircuitBreakerOptions) (now object : ℕ) (history : List Reported) (b : Breaker)
    (v : Counts options history b) (unmarked : has b.settled_permits object ≡ false) where
  abbrev said : Outcome → Reported
  said o = record { outcome = o; time = now; object = object }

  report-success : report success now (permit_of object) b ≡ record b {
    state = closed;
    consecutive_failures = 0;
    recent_failures = recent b now;
    opened_at = pos 0;
    settled_permits = object ∷ b.settled_permits;
  }
  unfolding report
  report-success = ground (arith, unmarked, v.is_closed, v.never_opened)

  report-failure :
      (report failure now (permit_of object) b).generation ≡ 0
      → report failure now (permit_of object) b ≡ record b {
        consecutive_failures = b.consecutive_failures + 1;
        recent_failures = recent b now ++ now ∷ [];
        settled_permits = object ∷ b.settled_permits;
      }
  unfolding report
  report-failure g = ground (arith, unmarked, v.is_closed, v.never_opened)

  report-neutral :
      report neutral now (permit_of object) b
      ≡ record b { settled_permits = object ∷ b.settled_permits }
  unfolding report
  report-neutral = ground (arith, unmarked, v.is_closed, v.never_opened)

  success-Counts : Counts options (said success ∷ history) (report success now (permit_of object) b)
  success-Counts = subst (Counts options (said success ∷ history)) (sym report-success) (record {
    settings_kept = v.settings_kept;
    is_closed = refl;
    never_opened = v.never_opened;
    run_counted = refl;
    burst_counted = λ later h.
        within-recent b.burst_window_ms now later b.recent_failures h.0
        ∙ v.burst_counted later h.1
        ∙ omega arith;
    marks = ap (◌∷◌ object) v.marks;
  })

  failure-Counts :
      (report failure now (permit_of object) b).generation ≡ 0
      → Counts options (said failure ∷ history) (report failure now (permit_of object) b)
  failure-Counts g =
      subst (Counts options (said failure ∷ history)) (sym (report-failure g)) (record {
        settings_kept = v.settings_kept;
        is_closed = v.is_closed;
        never_opened = v.never_opened;
        run_counted = ap (λ n. n + 1) v.run_counted;
        burst_counted = λ later h.
            within-append b.burst_window_ms later now (recent b now)
            ∙ ap (λ n. (if leb later (now + b.burst_window_ms) then 1 else 0) + n)
                (within-recent b.burst_window_ms now later b.recent_failures h.0
                  ∙ v.burst_counted later h.1);
        marks = ap (◌∷◌ object) v.marks;
      })

  neutral-Counts : Counts options (said neutral ∷ history) (report neutral now (permit_of object) b)
  neutral-Counts = subst (Counts options (said neutral ∷ history)) (sym report-neutral) (record {
    settings_kept = v.settings_kept;
    is_closed = v.is_closed;
    never_opened = v.never_opened;
    run_counted = v.run_counted;
    burst_counted = λ later h. v.burst_counted later h.1 ∙ omega arith;
    marks = ap (◌∷◌ object) v.marks;
  })

  one_more :
      (o : Outcome)
      → (report o now (permit_of object) b).generation ≡ 0
      → Counts options (said o ∷ history) (report o now (permit_of object) b)
  one_more success g = success-Counts
  one_more failure g = failure-Counts g
  one_more neutral g = neutral-Counts

unmarked_before :
    (options : CircuitBreakerOptions) (r : Reported) (history : List Reported) (b : Breaker)
    → Follows r history
    → Counts options history b
    → has b.settled_permits r.object ≡ false
unmarked_before options r history b h v =
    ap (λ s. has s r.object) v.marks
    ∙ fresh r.object history
        (All-map {P = λ e. (e.time ≤ r.time) × (e.object ≢ r.object)} (λ e k. k.1) history h)

after-Counts :
    (options : CircuitBreakerOptions) (history : List Reported)
    → IsHistory history
    → (after options history).generation ≡ 0
    → Counts options history (after options history)
after-Counts options [] h g = new-Counts options
after-Counts options (r ∷ history) h g =
    let b : Breaker = after options history in
    let before : b.generation ≡ 0 =
      omega (arith, g, generation-report r.outcome r.time (permit_of r.object) b) in
    let v : Counts options history b = after-Counts options history h.1 before in
    one_more options r.time r.object history b v (unmarked_before options r history b h.0 v)
      r.outcome g

-- A breaker that has never opened is opened by a failure exactly if the failures since the last success,
-- with this one, reach the consecutive threshold, or those of the whole history that lie within the window
-- before it, with this one, reach the burst threshold. The outcomes are of permits that the closed circuit
-- gave out, once for each permit and in the order of their times.
pub failure-opens_iff :
    (options : CircuitBreakerOptions) (history : List Reported) (now object : ℕ)
    → IsHistory (record { outcome = failure; time = now; object = object } ∷ history)
    → (after options history).generation ≡ 0
    → ((after options (record { outcome = failure; time = now; object = object } ∷ history)).state
        ≡ opened)
      ↔ (((new options).consecutive_failure_threshold ≤ run_of_failures history + 1)
          ⊎ ((new options).burst_failure_threshold
              ≤ failures_within (new options).burst_window_ms now history + 1))
failure-opens_iff options history now object h g =
    let b : Breaker = after options history in
    let r : Reported = record { outcome = failure; time = now; object = object } in
    let v : Counts options history b = after-Counts options history h.1 g in
    let times : All (λ e. e.time ≤ now) history =
      All-map {P = λ e. (e.time ≤ now) × (e.object ≢ object)} (λ e k. k.0) history h.0 in
    let opens : Breaker → Settings → ℕ → ℕ → Type 0 = λ c s n m.
      (c.state ≡ opened)
      ↔ ((s.consecutive_failure_threshold ≤ n + 1) ⊎ (s.burst_failure_threshold ≤ m + 1)) in
    let counted : within b.burst_window_ms now b.recent_failures
        ≡ failures_within (new options).burst_window_ms now history =
      v.burst_counted now times
      ∙ ap (λ (s : Settings). failures_within s.burst_window_ms now history) v.settings_kept in
    let c : Breaker = after options (r ∷ history) in
    subst
      (λ s.
        opens c s (run_of_failures history)
          (failures_within (new options).burst_window_ms now history))
      v.settings_kept
      (subst (λ n. opens c b.settings n (failures_within (new options).burst_window_ms now history))
        v.run_counted
        (subst (opens c b.settings b.consecutive_failures) counted (
          report-failure-opens_iff now (permit_of object) b v.is_closed
            (unmarked_before options r history b h.0 v) refl (sym v.never_opened))))
