-- ===== src/Breaker/Trace.antt =====
-- Sequences of calls on one breaker: the lock orders the calls of all threads, so an interleaving
-- is a list of calls, each at the time that it takes effect.
use mapear_rn.Base.{ℕ, ◌+◌, List, [], ◌∷◌, if◌then◌else◌}
use mapear_rn.Breaker.{CircuitBreaker, allow_call, on_success, on_failure}

pub data Call : Type 0 where
  allow : ℕ → Call
  success : Call
  failure : ℕ → Call

unfoldable pub step : CircuitBreaker → Call → CircuitBreaker
step cb (allow now) = (allow_call now cb).1
step cb success = on_success cb
step cb (failure now) = on_failure now cb

unfoldable pub run : CircuitBreaker → List Call → CircuitBreaker
unfolding step
run cb [] = cb
run cb (c ∷ cs) = run (step cb c) cs

-- How many of these `allow_call`s are granted, with no outcome reported between them.
unfoldable pub granted : CircuitBreaker → List ℕ → ℕ
granted cb [] = 0
granted cb (now ∷ ts) = (if (allow_call now cb).0 then 1 else 0) + granted (allow_call now cb).1 ts

-- Failures reported at these times, with nothing between them.
unfoldable pub fail_all : CircuitBreaker → List ℕ → CircuitBreaker
fail_all cb [] = cb
fail_all cb (now ∷ ts) = fail_all (on_failure now cb) ts
