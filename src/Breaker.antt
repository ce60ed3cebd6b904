-- ===== src/Breaker.antt =====
-- CircuitBreaker of apps/api/app/services/connectors/resiliency.py: the two locked blocks of a call, in
-- any interleaving of the calls of its event loop. Times are whole seconds of the monotonic clock.
pub mod Interleaving
mod Tests
use authclaw_mvp.Common.{
  ℕ, zero, suc, ◌+◌, Bool, true, false, List, [], ◌∷◌, leb, if◌then◌else◌, Option, none, some,
}

pub data CircuitState : Type 0 where
  closed opened half_open : CircuitState

pub record CircuitBreaker : Type 0 where
  pub failure_threshold : ℕ
  pub recovery_timeout : ℕ
  pub state : CircuitState
  pub failure_count : ℕ
  pub last_failure_time : ℕ

-- `__init__`, without the name.
unfoldable pub new : ℕ → ℕ → CircuitBreaker
new failure_threshold recovery_timeout = record {
  failure_threshold = failure_threshold;
  recovery_timeout = recovery_timeout;
  state = CircuitState.closed;
  failure_count = 0;
  last_failure_time = 0;
}

-- `time.monotonic() - self._last_failure_time >= self.recovery_timeout`
unfoldable pub should_attempt_reset : CircuitBreaker → ℕ → Bool
should_attempt_reset b now = leb (b.last_failure_time + b.recovery_timeout) now

-- The first locked block of `call`; `none` is CircuitOpenError.
pub enter_open : CircuitBreaker → Bool → Option CircuitBreaker
enter_open b true = some (record b { state = CircuitState.half_open })
enter_open b false = none

pub enter_in : CircuitBreaker → CircuitState → ℕ → Option CircuitBreaker
unfolding should_attempt_reset enter_open
enter_in b CircuitState.opened now = enter_open b (should_attempt_reset b now)
enter_in b _ now = some b

unfoldable pub enter : CircuitBreaker → ℕ → Option CircuitBreaker
unfolding enter_in
enter b now = enter_in b b.state now

unfoldable pub on_success : CircuitBreaker → CircuitBreaker
on_success b = record b { state = CircuitState.closed; failure_count = 0 }

pub after_failure : CircuitState → ℕ → ℕ → CircuitState
after_failure CircuitState.half_open count threshold = CircuitState.opened
after_failure state count threshold = if leb threshold count then CircuitState.opened else state

unfoldable pub on_failure : CircuitBreaker → ℕ → CircuitBreaker
unfolding after_failure
on_failure b now = record b {
  state = after_failure b.state (suc b.failure_count) b.failure_threshold;
  failure_count = suc b.failure_count;
  last_failure_time = now;
}

unfoldable pub reset : CircuitBreaker → CircuitBreaker
reset b = record b { state = CircuitState.closed; failure_count = 0; last_failure_time = 0 }
