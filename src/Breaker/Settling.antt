-- ===== src/Breaker/Settling.antt =====
-- src/providers/circuitBreaker.ts: an outcome counts once, and only in the generation of its
-- permit.
use confidential_content_pla.Prelude.{
  ℕ, ◌<◌, ◌≤◌, ◌≡◌, ◌≢◌, sym, ap, ◌∙◌, inl, inr, some, true, List, [], ◌∷◌, if◌then◌else◌,
  Option-cases, arith,
}
use confidential_content_pla.Breaker.{CircuitPermit, CircuitBreakerOptions, Breaker, has, acquire}
use confidential_content_pla.Breaker.Client.{
  Outcome, success, failure, neutral, report, World, Event, acquires, reports, find_permit, step,
  run, start,
}
use confidential_content_pla.Breaker.SingleFlight.{
  Inv, find_permit-object, find_permit-Below, not_newer, start-Inv, step-Inv, run-Inv,
}

-- After any report the permit is settled.
has-report :
    (o : Outcome) (now : ℕ) (p : CircuitPermit) (b : Breaker)
    → has (report o now p b).settled_permits p.object ≡ true
unfolding report
has-report success now p b = ground arith
has-report failure now p b = ground arith
has-report neutral now p b = ground arith

report_settled :
    (o : Outcome) (now : ℕ) (p : CircuitPermit) (b : Breaker)
    → has b.settled_permits p.object ≡ true
    → report o now p b ≡ b
unfolding report
report_settled success now p b h = ground arith
report_settled failure now p b h = ground arith
report_settled neutral now p b h = ground arith

-- A settled permit stays settled.
report-keeps :
    (o : Outcome) (now x : ℕ) (p : CircuitPermit) (b : Breaker)
    → has b.settled_permits x ≡ true
    → has (report o now p b).settled_permits x ≡ true
unfolding report
report-keeps success now x p b h = ground arith
report-keeps failure now x p b h = ground arith
report-keeps neutral now x p b h = ground arith

step-keeps :
    (w : World) (e : Event) (x : ℕ)
    → has w.breaker.settled_permits x ≡ true
    → has (step w e).breaker.settled_permits x ≡ true
unfolding step acquire
step-keeps w (acquires now) x h = ground arith
step-keeps w (reports o now object) x h = elim (Option-cases (find_permit object w.issued)) [
  | inl missing ↦ rw (missing, step) h
  | inr (p, e) ↦ rw (e, step) (report-keeps o now x p w.breaker h)
]

run-keeps :
    (w : World) (es : List Event) (x : ℕ)
    → has w.breaker.settled_permits x ≡ true
    → has (run w es).breaker.settled_permits x ≡ true
unfolding run
run-keeps w [] x h = h
run-keeps w (e ∷ es) x h = run-keeps (step w e) es x (step-keeps w e x h)

pub step-report :
    (w : World) (o : Outcome) (now object : ℕ) (p : CircuitPermit)
    → find_permit object w.issued ≡ some p
    → step w (reports o now object) ≡ record w { breaker = report o now p w.breaker }
unfolding step
step-report w o now object p e = rw (e, step)

step_settled :
    (w : World) (o : Outcome) (now object : ℕ)
    → has w.breaker.settled_permits object ≡ true
    → step w (reports o now object) ≡ w
unfolding step
step_settled w o now object h = elim (Option-cases (find_permit object w.issued)) [
  | inl missing ↦ rw (missing, step)
  | inr (p, e) ↦
      rw (e, step)
        (ap (λ b. record w { breaker = b })
          (report_settled o now p w.breaker
            (ap (has w.breaker.settled_permits) (find_permit-object object w.issued p e) ∙ h)))
]

-- A permit is settled by its first report: whatever else is acquired and reported after it, a later
-- report of any outcome for the permit, at any time, changes nothing.
pub report_twice :
    (w : World) (first again : Outcome) (now later object : ℕ) (p : CircuitPermit)
    → find_permit object w.issued ≡ some p
    → (es : List Event)
    → step (run (step w (reports first now object)) es) (reports again later object)
      ≡ run (step w (reports first now object)) es
report_twice w first again now later object p e es =
    let marked : has (step w (reports first now object)).breaker.settled_permits object ≡ true =
      ap (λ v. has v.breaker.settled_permits object) (step-report w first now object p e)
      ∙ ap (has (report first now p w.breaker).settled_permits)
          (sym (find_permit-object object w.issued p e))
      ∙ has-report first now p w.breaker in
    step_settled (run (step w (reports first now object)) es) again later object
      (run-keeps (step w (reports first now object)) es object marked)

-- The settled permits with one more, unless it is among them.
abbrev pub with_mark : ℕ → List ℕ → List ℕ
with_mark o s = if has s o then s else o ∷ s

pub report_stale_lem :
    (o : Outcome) (now : ℕ) (p : CircuitPermit) (b : Breaker)
    → p.generation ≢ b.generation
    → report o now p b ≡ record b { settled_permits = with_mark p.object b.settled_permits }
unfolding report
report_stale_lem success now p b h = ground arith
report_stale_lem failure now p b h = ground arith
report_stale_lem neutral now p b h = ground arith

-- A permit that was issued is found later.
step-finds :
    (w : World) (e : Event) (object : ℕ) (p : CircuitPermit)
    → Inv w
    → find_permit object w.issued ≡ some p
    → find_permit object (step w e).issued ≡ some p
unfolding step acquire find_permit
step-finds w (acquires now) object p v e = ground (
  arith,
  find_permit-object object w.issued p e,
  find_permit-Below object w.next w.issued p v.below e,
)
step-finds w (reports o now other) object p v e = elim (Option-cases (find_permit other w.issued)) [
  | inl missing ↦ rw (missing, step) e
  | inr (q, f) ↦ rw (f, step) e
]

run-finds :
    (w : World) (es : List Event) (object : ℕ) (p : CircuitPermit)
    → Inv w
    → find_permit object w.issued ≡ some p
    → find_permit object (run w es).issued ≡ some p
unfolding run
run-finds w [] object p v e = e
run-finds w (f ∷ es) object p v e =
    run-finds (step w f) es object p (step-Inv w f v) (step-finds w f object p v e)

-- A permit that was issued before the circuit opened counts no more: in any history, once the generation
-- has moved on, a report of any outcome for it marks it as settled and leaves all else, the state, the
-- counters, the times and the generation among it.
pub report_stale :
    (options : CircuitBreakerOptions) (es after : List Event) (object : ℕ) (p : CircuitPermit)
    → find_permit object (run (start options) es).issued ≡ some p
    → (run (start options) es).breaker.generation
      < (run (run (start options) es) after).breaker.generation
    → (o : Outcome) (now : ℕ)
    → let w = run (run (start options) es) after in
      step w (reports o now object) ≡ record w {
        breaker = record w.breaker { settled_permits = with_mark object w.breaker.settled_permits };
      }
report_stale options es after object p e moved o now =
    let before : World = run (start options) es in
    let w : World = run before after in
    let v : Inv before = run-Inv (start options) es (start-Inv options) in
    let found : find_permit object w.issued ≡ some p = run-finds before after object p v e in
    let old : p.generation ≤ before.breaker.generation = not_newer before object now p v e in
    step-report w o now object p found
    ∙ ap (λ b. record w { breaker = b })
        (report_stale_lem o now p w.breaker (λ same. omega arith)
          ∙ ap (λ x. record w.breaker { settled_permits = with_mark x w.breaker.settled_permits })
              (find_permit-object object w.issued p found))
