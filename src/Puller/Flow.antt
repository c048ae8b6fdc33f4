-- ===== src/Puller/Flow.antt =====
-- Flow control of the Puller: packages/syntrix/internal/puller/flowcontrol, the circuit breaker and the
-- backpressure monitor. Times are nanoseconds of one clock that never runs back. The numbers that
-- configure the breaker may be negative, those of the monitor are not. The metrics that the monitor
-- exports have no model.
pub mod Runs
use syntrix.Common.{
  ℕ, zero, ℤ, pos, compareℤ, Ordering, at_most, ◌+◌, ◌-◌, Bool, true, false, ◌==◌, ltb, leb,
  if◌then◌else◌,
}

-- State
pub data State : Type 0 where
  state_closed state_open state_half_open : State

-- CircuitBreaker, without its lock
pub record CircuitBreaker : Type 0 where
  pub state : State
  pub failure_count : ℕ
  pub threshold : ℤ
  pub timeout : ℤ
  pub last_fail_time : ℕ

-- CircuitBreakerOptions
pub record CircuitBreakerOptions : Type 0 where
  pub threshold : ℤ
  pub timeout : ℤ

-- `x`, or its default where it is 0
abbrev pub or_when_zero : ℕ → ℤ → ℤ
or_when_zero n (pos zero) = pos n
or_when_zero n x = x

-- NewCircuitBreaker; the zero time is 0.
unfoldable pub new_circuit_breaker : CircuitBreakerOptions → CircuitBreaker
new_circuit_breaker opts = record {
  state = state_closed;
  failure_count = 0;
  threshold = or_when_zero 5 opts.threshold;
  timeout = or_when_zero 30000000000 opts.timeout;
  last_fail_time = 0;
}

abbrev pub with_state : State → CircuitBreaker → CircuitBreaker
with_state s cb = record {
  state = s;
  failure_count = cb.failure_count;
  threshold = cb.threshold;
  timeout = cb.timeout;
  last_fail_time = cb.last_fail_time;
}

abbrev is_later : Ordering → Bool
is_later Ordering.lt = true
is_later _ = false

abbrev allow_in : State → ℕ → CircuitBreaker → Bool × CircuitBreaker
allow_in state_closed now cb = (true, cb)
allow_in state_open now cb =
    if is_later (compareℤ cb.timeout (pos (now - cb.last_fail_time)))
    then (true, with_state state_half_open cb)
    else (false, cb)
allow_in state_half_open now cb = (true, cb)

-- CircuitBreaker.Allow
unfoldable pub allow : ℕ → CircuitBreaker → Bool × CircuitBreaker
allow now cb = allow_in cb.state now cb

abbrev closed_afresh : CircuitBreaker → CircuitBreaker
closed_afresh cb = record {
  state = state_closed;
  failure_count = 0;
  threshold = cb.threshold;
  timeout = cb.timeout;
  last_fail_time = cb.last_fail_time;
}

abbrev success_in : State → CircuitBreaker → CircuitBreaker
success_in state_closed cb = closed_afresh cb
success_in state_open cb = cb
success_in state_half_open cb = closed_afresh cb

-- CircuitBreaker.RecordSuccess
unfoldable pub record_success : CircuitBreaker → CircuitBreaker
record_success cb = success_in cb.state cb

-- The state behind a failure, with the count that it makes.
abbrev failed_state : State → ℕ → ℤ → State
failed_state state_closed count threshold =
    if at_most (compareℤ threshold (pos count)) then state_open else state_closed
failed_state state_open count threshold = state_open
failed_state state_half_open count threshold = state_open

-- CircuitBreaker.RecordFailure
unfoldable pub record_failure : ℕ → CircuitBreaker → CircuitBreaker
record_failure now cb = record {
  state = failed_state cb.state (cb.failure_count + 1) cb.threshold;
  failure_count = cb.failure_count + 1;
  threshold = cb.threshold;
  timeout = cb.timeout;
  last_fail_time = now;
}

-- Action
pub data Action : Type 0 where
  action_none action_slow_down action_pause : Action

-- BackpressureMonitor, without its metrics
pub record BackpressureMonitor : Type 0 where
  pub slow_threshold : ℕ
  pub critical_threshold : ℕ

-- NewBackpressureMonitor, from the thresholds of its options
unfoldable pub new_backpressure_monitor : ℕ → ℕ → BackpressureMonitor
new_backpressure_monitor slow critical = record {
  slow_threshold = if slow == 0 then 100000000 else slow;
  critical_threshold = if critical == 0 then 500000000 else critical;
}

-- BackpressureMonitor.HandleBackpressure
unfoldable pub handle_backpressure : BackpressureMonitor → ℕ → Action
handle_backpressure b latency =
    if ltb latency b.slow_threshold
    then action_none
    else if ltb latency b.critical_threshold
    then action_slow_down
    else action_pause
