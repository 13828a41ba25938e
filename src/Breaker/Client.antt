-- ===== src/Breaker/Client.antt =====
-- src/providers/circuitBreaker.ts: the callers of one breaker. They hold the permits that it has
-- issued and report an outcome for any of them, in any order, late or twice.
use confidential_content_pla.Prelude.{
  ℕ, ◌+◌, Option, none, some, List, [], ◌∷◌, Result, ok, err, ◌==◌, if◌then◌else◌,
}
use confidential_content_pla.Breaker.{
  CircuitPermit, CircuitBreakerOptions, Breaker, new, acquire, record_success,
  record_operational_failure, record_neutral, ProviderError,
}

pub data Outcome : Type 0 where
  success failure neutral : Outcome

-- The method that reports each outcome.
unfoldable pub report : Outcome → ℕ → CircuitPermit → Breaker → Breaker
unfolding record_success record_operational_failure record_neutral
report success = record_success
report failure = record_operational_failure
report neutral = record_neutral

-- The breaker and the permits that it has issued, the latest first; `next` is the identity of the
-- next object.
pub record World : Type 0 where
  pub breaker : Breaker
  pub issued : List CircuitPermit
  pub next : ℕ

pub data Event : Type 0 where
  acquires : (now : ℕ) → Event
  reports : Outcome → (now object : ℕ) → Event

unfoldable pub find_permit : ℕ → List CircuitPermit → Option CircuitPermit
find_permit o [] = none
find_permit o (p ∷ ps) = if p.object == o then some p else find_permit o ps

admit : World → Result ProviderError (CircuitPermit × Breaker) → World
admit w (ok (p, b)) = record { breaker = b; issued = p ∷ w.issued; next = w.next + 1 }
admit w (err e) = w

deliver : World → Outcome → ℕ → Option CircuitPermit → World
deliver w o now none = w
deliver w o now (some p) = record w { breaker = report o now p w.breaker }

unfoldable pub step : World → Event → World
unfolding admit deliver find_permit
step w (acquires now) = admit w (acquire now w.next w.breaker)
step w (reports o now object) = deliver w o now (find_permit object w.issued)

unfoldable pub run : World → List Event → World
run w [] = w
run w (e ∷ es) = run (step w e) es

abbrev pub start : CircuitBreakerOptions → World
start options = record { breaker = new options; issued = []; next = 0 }
