-- ===== src/Breaker/Cooldown.antt =====
-- src/providers/circuitBreaker.ts: how long an open circuit refuses, and that a half-open one can
-- always be left.
use confidential_content_pla.Prelude.{
  ℕ, ◌+◌, ◌≤◌, ◌<◌, ◌≡◌, inl, inr, true, List, [], ◌∷◌, some, arith, leb, Bool-cases, if◌then◌else◌,
  ok, err, sym, ap, ◌∙◌, All, All-map, Option-cases,
}
use confidential_content_pla.Prelude.Int.{pos, ◌-ℤ◌}
use confidential_content_pla.Breaker.{
  CircuitPermit, CircuitBreakerOptions, Breaker, closed, opened, half_open, acquire, cooled,
  provider_unavailable,
}
use confidential_content_pla.Breaker.Client.{
  success, failure, neutral, report, World, Event, acquires, reports, find_permit, step, run, start,
}
use mathlib.Core.Path.{subst}
use confidential_content_pla.Breaker.Settling.{report_stale_lem, step-report}
use confidential_content_pla.Breaker.SingleFlight.{
  Inv, find_permit-All, in_flight, count_in_flight, Below, run-Inv, start-Inv,
}

abbrev pub probe : ℕ → Breaker → CircuitPermit
probe object b = record { object = object; half_open_probe = true; generation = b.generation }

-- An open circuit refuses before the cool-down has passed, and then hands out a probe.
acquire-opened :
    (since now object : ℕ) (b : Breaker)
    → b.state ≡ opened
    → b.opened_at ≡ pos since
    → acquire now object b ≡ (
        if leb (since + b.open_duration_ms) now
        then ok (probe object b, record b { state = half_open })
        else err provider_unavailable)
unfolding acquire cooled
acquire-opened since now object b o s = ground arith

-- While a probe is out, every further request is refused.
pub acquire-half_open :
    (now object : ℕ) (b : Breaker)
    → b.state ≡ half_open
    → acquire now object b ≡ err provider_unavailable
unfolding acquire
acquire-half_open now object b h = ground arith

-- A failure that opens the circuit at `since` dates the cool-down from then.
report-failure-opened_at :
    (since : ℕ) (p : CircuitPermit) (b : Breaker)
    → (report failure since p b).generation ≡ b.generation + 1
    → ((report failure since p b).state ≡ opened)
      × ((report failure since p b).opened_at ≡ pos since)
      × ((report failure since p b).open_duration_ms ≡ b.open_duration_ms)
unfolding report
report-failure-opened_at since p b h = ground arith

-- A circuit that opened at `since`, and that no permit in the callers' hands is of.
record Waits (since d : ℕ) (w : World) : Type 0 where
  is_open : w.breaker.state ≡ opened
  dated : w.breaker.opened_at ≡ pos since
  lasts : w.breaker.open_duration_ms ≡ d
  old : All (λ p. p.generation < w.breaker.generation) w.issued

-- An event that is no acquisition from `end` on.
abbrev pub Early : ℕ → Event → Type 0
Early end (acquires now) = now < end
Early end (reports o now object) = Unit {0}

acquire-Waits :
    (since d now : ℕ) (w : World) → now < since + d → Waits since d w → step w (acquires now) ≡ w
unfolding step acquire cooled
acquire-Waits since d now w h v = ground (arith, v.is_open, v.dated, v.lasts)

step-Waits :
    (since d : ℕ) (w : World) (e : Event)
    → Early (since + d) e
    → Waits since d w
    → Waits since d (step w e)
unfolding step
step-Waits since d w (acquires now) h v =
    subst (Waits since d) (sym (acquire-Waits since d now w h v)) v
step-Waits since d w (reports o now object) h v =
    elim (Option-cases (find_permit object w.issued)) [
      | inl missing ↦ rw (missing, step) v
      | inr (p, e) ↦
          let stale : p.generation < w.breaker.generation =
            find_permit-All (λ q. q.generation < w.breaker.generation) object w.issued p v.old e in
          let same = report_stale_lem o now p w.breaker (λ eq. omega arith) in
          rw (e, step)
            (subst (λ b. Waits since d (record w { breaker = b })) (sym same)
              (record { is_open = v.is_open; dated = v.dated; lasts = v.lasts; old = v.old }))
    ]

run-Waits :
    (since d : ℕ) (w : World) (es : List Event)
    → All (Early (since + d)) es
    → Waits since d w
    → Waits since d (run w es)
unfolding run
run-Waits since d w [] h v = v
run-Waits since d w (e ∷ es) h v =
    run-Waits since d (step w e) es h.1 (step-Waits since d w e h.0 v)

-- The generation moves on where a failure opens the circuit, for a whole cool-down.
failure-Waits :
    (w : World) (since object : ℕ)
    → Inv w
    → (step w (reports failure since object)).breaker.generation ≡ w.breaker.generation + 1
    → Waits since w.breaker.open_duration_ms (step w (reports failure since object))
unfolding step
failure-Waits w since object v h = elim (Option-cases (find_permit object w.issued)) [
  | inl missing ↦ absurd (
      let same : step w (reports failure since object) ≡ w = rw (missing, step) in
      let moved : w.breaker.generation ≡ w.breaker.generation + 1 =
        sym (ap (λ u. u.breaker.generation) same) ∙ h in
      omega (arith, moved))
  | inr (p, e) ↦
      let reported = step-report w failure since object p e in
      let moved : (report failure since p w.breaker).generation ≡ w.breaker.generation + 1 =
        sym (ap (λ u. u.breaker.generation) reported) ∙ h in
      let (o, t, d) = report-failure-opened_at since p w.breaker moved in
      subst (Waits since w.breaker.open_duration_ms) (sym reported) (record {
        is_open = o;
        dated = t;
        lasts = d;
        old =
            subst (λ g. All (λ q. q.generation < g) w.issued) (sym moved)
              (All-map {P = λ q. q.generation ≤ w.breaker.generation} (λ q k. omega arith) w.issued
                v.generations);
      })
]

-- In any history in which a failure reported at `since` opens the circuit: whatever is then reported, at
-- any time, and however often permits are asked for before the cool-down has passed, each request in that
-- time is refused, and the first request from then on turns the circuit half open and gets a probe.
pub run-opened :
    (options : CircuitBreakerOptions) (es : List Event) (since object : ℕ)
    → (step (run (start options) es) (reports failure since object)).breaker.generation
      ≡ (run (start options) es).breaker.generation + 1
    → (after : List Event)
    → All (Early (since + (run (start options) es).breaker.open_duration_ms)) after
    → (now next : ℕ)
    → let b = (run (step (run (start options) es) (reports failure since object)) after).breaker in
      acquire now next b ≡ (
        if leb (since + (run (start options) es).breaker.open_duration_ms) now
        then ok (probe next b, record b { state = half_open })
        else err provider_unavailable)
run-opened options es since object h after early now next =
    let w : World = run (start options) es in
    let d : ℕ = w.breaker.open_duration_ms in
    let v : Waits since d (run (step w (reports failure since object)) after) =
      run-Waits since d (step w (reports failure since object)) after early
        (failure-Waits w since object (run-Inv (start options) es (start-Inv options)) h) in
    let b : Breaker = (run (step w (reports failure since object)) after).breaker in
    acquire-opened since now next b v.is_open v.dated
    ∙ ap
        (λ n.
          if leb (since + n) now
          then ok (probe next b, record b { state = half_open })
          else err provider_unavailable)
        v.lasts

acquire-cooled :
    (now later object d : ℕ) (b : Breaker)
    → b.state ≡ opened
    → b.opened_at ≡ pos now -ℤ pos d
    → b.open_duration_ms ≡ d
    → now ≤ later
    → acquire later object b ≡ ok (probe object b, record b { state = half_open })
unfolding acquire cooled
acquire-cooled now later object d b o t s h = ground arith

-- Where something is in flight, a permit that the callers still hold is.
in_flight-exists :
    (g n : ℕ) (s : List ℕ) (ps : List CircuitPermit)
    → Below n ps
    → count_in_flight g s ps ≡ 1
    → (p : CircuitPermit) × (find_permit p.object ps ≡ some p)
      × (in_flight g s p ≡ true)
      × (p.object < n)
unfolding find_permit
in_flight-exists g n s [] b h = absurd (omega arith)
in_flight-exists g n s (q ∷ ps) b h = elim (Bool-cases (in_flight g s q)) [
  | inl here ↦ (q, ground arith, here, b.0)
  | inr later ↦
      let (p, e, f, lt) = in_flight-exists g q.object s ps b.1 (ground arith) in
      (p, ground arith, f, omega arith)
]

-- A report on the permit `o` takes the circuit out of the half-open state: a success closes it, a
-- failure opens it for a whole new cool-down, and a cancellation makes the next request a probe.
pub record Resolves (w : World) (o : ℕ) : Type 0 where
  pub by_success : (now : ℕ) → (step w (reports success now o)).breaker.state ≡ closed
  pub by_failure :
      (now : ℕ)
      → ((step w (reports failure now o)).breaker.state ≡ opened)
        × ((step w (reports failure now o)).breaker.opened_at ≡ pos now)
  pub by_neutral :
      (now delay object : ℕ)
      → let b = (step w (reports neutral now o)).breaker in
        acquire (now + delay) object b ≡ ok (probe object b, record b { state = half_open })

module _ (w : World) (p : CircuitPermit) (h : w.breaker.state ≡ half_open)
    (e : find_permit p.object w.issued ≡ some p)
    (f : in_flight w.breaker.generation w.breaker.settled_permits p ≡ true) where
  success-closes : (now : ℕ) → (report success now p w.breaker).state ≡ closed
  unfolding report
  success-closes now = ground arith

  failure-opens :
      (now : ℕ)
      → ((report failure now p w.breaker).state ≡ opened)
        × ((report failure now p w.breaker).opened_at ≡ pos now)
  unfolding report
  failure-opens now = ground arith

  neutral-reopens :
      (now : ℕ)
      → ((report neutral now p w.breaker).state ≡ opened)
        × ((report neutral now p w.breaker).opened_at ≡ pos now -ℤ pos w.breaker.open_duration_ms)
        × ((report neutral now p w.breaker).open_duration_ms ≡ w.breaker.open_duration_ms)
  unfolding report
  neutral-reopens now = ground arith

  in_flight-Resolves : Resolves w p.object
  unfolding step
  in_flight-Resolves = record {
    by_success = λ now. rw (e, step) (success-closes now);
    by_failure = λ now. rw (e, step) (failure-opens now);
    by_neutral = λ now delay object.
        rw (e, step)
          (let (o, t, d) = neutral-reopens now in
            acquire-cooled now (now + delay) object w.breaker.open_duration_ms _ o t d
              (omega arith));
  }

-- In any half-open circuit that a history of acquisitions and reports leads to, some permit in the
-- callers' hands resolves it: its success closes the circuit, its failure opens it and dates a new
-- cool-down, and its cancellation makes the next request (at that time or later) a probe.
pub run-half_open-Resolves :
    (options : CircuitBreakerOptions) (es : List Event)
    → (run (start options) es).breaker.state ≡ half_open
    → (o : ℕ) × Resolves (run (start options) es) o
run-half_open-Resolves options es h =
    let w : World = run (start options) es in
    let v : Inv w = run-Inv (start options) es (start-Inv options) in
    let (p, e, f, _) =
      in_flight-exists w.breaker.generation w.next w.breaker.settled_permits w.issued v.below
        (ground (arith, v.single)) in
    (p.object, in_flight-Resolves w p h e f)
