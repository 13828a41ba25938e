-- ===== src/Breaker/Thresholds.antt =====
-- src/providers/circuitBreaker.ts: when failures open the circuit.
use confidential_content_pla.Prelude.{
  ℕ, ◌+◌, ◌≤◌, ◌<◌, ◌≡◌, ◌↔◌, ◌⊎◌, false, [], ◌∷◌, arith, length, length-append,
}
use confidential_content_pla.Breaker.{CircuitPermit, Breaker, closed, opened, has, recent}
use confidential_content_pla.Breaker.Client.{failure, report}

-- What a failure does to a closed circuit, told from its counters.
pub report-failure-opens_iff :
    (now : ℕ) (p : CircuitPermit) (b : Breaker)
    → b.state ≡ closed
    → has b.settled_permits p.object ≡ false
    → p.half_open_probe ≡ false
    → p.generation ≡ b.generation
    → ((report failure now p b).state ≡ opened) ↔ (
        (b.consecutive_failure_threshold ≤ b.consecutive_failures + 1)
        ⊎ (b.burst_failure_threshold ≤ length (recent b now) + 1))
unfolding report
report-failure-opens_iff now p b c fresh plain same =
    ground (arith, length-append (recent b now) (now ∷ []))

-- A closed circuit has not reached either threshold.
pub record Calm (b : Breaker) : Type 0 where
  pub run_short : b.state ≡ closed → b.consecutive_failures < b.consecutive_failure_threshold
  pub burst_short : b.state ≡ closed → length b.recent_failures < b.burst_failure_threshold

pub record Positive (b : Breaker) : Type 0 where
  pub consecutive_positive : 0 < b.consecutive_failure_threshold
  pub burst_positive : 0 < b.burst_failure_threshold

Guarded : Breaker → Type 0
Guarded b = Positive b × Calm b
