-- ===== src/Breaker.antt =====
-- src/providers/circuitBreaker.ts, class OperationalCircuitBreaker: one circuit breaker.
-- `this.now()` is an argument of each operation (one reading serves the whole synchronous call).
-- A permit's identity, which the WeakSet of settled permits compares, is the number `object`.
pub mod Client
pub mod Settling
pub mod SingleFlight
pub mod Thresholds
pub mod Cooldown
pub mod Windows
mod Tests
use confidential_content_pla.Prelude.{
  ℕ, ◌+◌, default, Option, none, some, Bool, true, false, not, ◌&&◌, ◌||◌, List, [], ◌∷◌, ◌++◌,
  Result, ok, err, leb, ◌==◌, if◌then◌else◌, length, select,
}
use confidential_content_pla.Prelude.Int.{ℤ, pos, pos_part, neg_part, ◌-ℤ◌}

pub data CircuitState : Type 0 where
  closed opened half_open : CircuitState

abbrev pub is_closed : CircuitState → Bool
is_closed closed = true
is_closed _ = false

abbrev pub is_opened : CircuitState → Bool
is_opened opened = true
is_opened _ = false

abbrev pub is_half_open : CircuitState → Bool
is_half_open half_open = true
is_half_open _ = false

pub data ProviderError : Type 0 where
  provider_unavailable : ProviderError

pub record CircuitPermit : Type 0 where
  pub object : ℕ
  pub half_open_probe : Bool
  pub generation : ℕ

-- The optional constructor arguments, less the clock.
pub record CircuitBreakerOptions : Type 0 where
  pub consecutive_failure_threshold : Option ℕ
  pub burst_failure_threshold : Option ℕ
  pub burst_window_ms : Option ℕ
  pub open_duration_ms : Option ℕ

-- The read-only fields.
pub record Settings : Type 0 where
  pub consecutive_failure_threshold : ℕ
  pub burst_failure_threshold : ℕ
  pub burst_window_ms : ℕ
  pub open_duration_ms : ℕ

pub record Breaker : Type 0 where
  pub settings : Settings
  pub open settings use *
  pub state : CircuitState
  pub consecutive_failures : ℕ
  pub recent_failures : List ℕ
  pub opened_at : ℤ
  pub generation : ℕ
  pub settled_permits : List ℕ

unfoldable pub new : CircuitBreakerOptions → Breaker
new options = record {
  settings = record {
    consecutive_failure_threshold = default 5 options.consecutive_failure_threshold;
    burst_failure_threshold = default 10 options.burst_failure_threshold;
    burst_window_ms = default 30_000 options.burst_window_ms;
    open_duration_ms = default 15_000 options.open_duration_ms;
  };
  state = closed;
  consecutive_failures = 0;
  recent_failures = [];
  opened_at = pos 0;
  generation = 0;
  settled_permits = [];
}

-- `now - this.openedAt >= this.openDurationMs`
unfoldable pub cooled : Breaker → ℕ → Bool
unfolding ◌-ℤ◌
cooled b now =
    let elapsed = pos now -ℤ b.opened_at in
    leb (b.open_duration_ms + neg_part elapsed) (pos_part elapsed)

-- `object` is the identity of the permit that the call makes.
unfoldable pub acquire : ℕ → ℕ → Breaker → Result ProviderError (CircuitPermit × Breaker)
acquire now object b =
    if is_opened b.state && cooled b now
    then ok (
      record { object = object; half_open_probe = true; generation = b.generation },
      record b { state = half_open },
    )
    else if not (is_closed b.state)
    then err provider_unavailable
    else ok (record { object = object; half_open_probe = false; generation = b.generation }, b)

abbrev pub has : List ℕ → ℕ → Bool
has [] x = false
has (y ∷ ys) x = x == y || has ys x

unfoldable pub settle : CircuitPermit → Breaker → Bool × Breaker
settle permit b =
    if has b.settled_permits permit.object
    then (false, b)
    else (true, record b { settled_permits = permit.object ∷ b.settled_permits })

-- The failures that are not older than the burst window: `now - at <= this.burstWindowMs`.
abbrev pub recent : Breaker → ℕ → List ℕ
recent b now = select (λ at. leb now (at + b.burst_window_ms)) b.recent_failures

unfoldable pub open_circuit : ℕ → Breaker → Breaker
open_circuit now b = record b { state = opened; opened_at = pos now; generation = b.generation + 1 }

recover : ℕ → CircuitPermit → Breaker → Breaker
recover now permit b = record b {
  state = closed;
  consecutive_failures = 0;
  recent_failures = if permit.half_open_probe || is_half_open b.state then [] else recent b now;
  opened_at = pos 0;
}

unfoldable pub record_success : ℕ → CircuitPermit → Breaker → Breaker
unfolding settle recover
record_success now permit b =
    let (fresh, b') = settle permit b in
    if not fresh
    then b'
    else if not (permit.generation == b'.generation)
    then b'
    else recover now permit b'

count_failure : ℕ → Breaker → Breaker
unfolding open_circuit
count_failure now b =
    let counted = record b {
      consecutive_failures = b.consecutive_failures + 1;
      recent_failures = recent b now ++ now ∷ [];
    } in
    if leb b.consecutive_failure_threshold counted.consecutive_failures
      || leb b.burst_failure_threshold (length counted.recent_failures)
    then open_circuit now counted
    else counted

unfoldable pub record_operational_failure : ℕ → CircuitPermit → Breaker → Breaker
unfolding settle open_circuit count_failure
record_operational_failure now permit b =
    let (fresh, b') = settle permit b in
    if not fresh
    then b'
    else if not (permit.generation == b'.generation)
    then b'
    else if permit.half_open_probe || is_half_open b'.state
    then open_circuit now b'
    else count_failure now b'

reopen : ℕ → CircuitPermit → Breaker → Breaker
unfolding ◌-ℤ◌
reopen now permit b =
    if permit.half_open_probe && is_half_open b.state
    then record b { state = opened; opened_at = pos now -ℤ pos b.open_duration_ms }
    else b

unfoldable pub record_neutral : ℕ → CircuitPermit → Breaker → Breaker
unfolding settle reopen
record_neutral now permit b =
    let (fresh, b') = settle permit b in
    if not fresh
    then b'
    else if not (permit.generation == b'.generation)
    then b'
    else reopen now permit b'

pub record Snapshot : Type 0 where
  pub state : CircuitState
  pub consecutive_failures : ℕ
  pub recent_failures : ℕ

unfoldable pub snapshot : ℕ → Breaker → Snapshot
snapshot now b = record {
  state = b.state;
  consecutive_failures = b.consecutive_failures;
  recent_failures = length (recent b now);
}
