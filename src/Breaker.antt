-- ===== src/Breaker.antt =====
-- libs/mapear-infra/src/mapear_infra/circuit_breaker.py: the circuit breaker that each social
-- platform has in memory. The lock makes each method one atomic step. The clock's reading is an
-- argument, in whole ticks, and `elapsed >= timeout` is `last + timeout ≤ now`.
pub mod Trace
pub mod Invariant
pub mod Recovery
mod Tests
use mapear_rn.Base.{ℕ, ◌+◌, String, Bool, true, false, ◌||◌, ltb, leb, if◌then◌else◌}

pub data CircuitState : Type 0 where
  closed opened half_open : CircuitState

-- `a == b` on the states
abbrev pub state_eq : CircuitState → CircuitState → Bool
state_eq closed closed = true
state_eq opened opened = true
state_eq half_open half_open = true
state_eq _ _ = false

pub record CircuitBreaker : Type 0 where
  pub platform : String
  pub failure_threshold : ℕ
  pub recovery_timeout : ℕ
  pub half_open_max_calls : ℕ
  pub state : CircuitState
  pub failure_count : ℕ
  pub last_failure_time : ℕ
  pub half_open_calls : ℕ

-- The constructor with the defaults of the four private fields.
unfoldable pub new_breaker : String → ℕ → ℕ → ℕ → CircuitBreaker
new_breaker platform threshold timeout max_calls = record {
  platform = platform;
  failure_threshold = threshold;
  recovery_timeout = timeout;
  half_open_max_calls = max_calls;
  state = closed;
  failure_count = 0;
  last_failure_time = 0;
  half_open_calls = 0;
}

allow_open : ℕ → CircuitBreaker → Bool × CircuitBreaker
allow_open now cb =
    if leb (cb.last_failure_time + cb.recovery_timeout) now
    then (true, record cb { state = half_open; half_open_calls = 0 })
    else (false, cb)

allow_half_open : CircuitBreaker → Bool × CircuitBreaker
allow_half_open cb =
    if ltb cb.half_open_calls cb.half_open_max_calls
    then (true, record cb { half_open_calls = cb.half_open_calls + 1 })
    else (false, cb)

unfoldable pub allow_call : ℕ → CircuitBreaker → Bool × CircuitBreaker
unfolding allow_open allow_half_open
allow_call now cb = elim cb.state [
  | closed ↦ (true, cb)
  | opened ↦ allow_open now cb
  | half_open ↦ allow_half_open cb
]

unfoldable pub on_success : CircuitBreaker → CircuitBreaker
on_success cb = record cb { state = closed; failure_count = 0 }

unfoldable pub on_failure : ℕ → CircuitBreaker → CircuitBreaker
on_failure now cb =
    let counted = record cb { failure_count = cb.failure_count + 1; last_failure_time = now } in
    let should_open =
      leb counted.failure_threshold counted.failure_count || state_eq counted.state half_open in
    if should_open
    then (if state_eq counted.state opened then counted else record counted { state = opened })
    else counted
