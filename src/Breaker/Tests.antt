-- ===== src/Breaker/Tests.antt =====
-- The theorems of the in-memory breaker at the configuration of its docstring, and runs of it.
use mapear_rn.Base.{◌≡◌, refl, [], ◌∷◌, arith}
use mapear_rn.Breaker.{
  CircuitBreaker, closed, opened, half_open, new_breaker, allow_call, on_failure,
}
use mapear_rn.Breaker.Trace.{allow, success, failure, run, granted}
use mapear_rn.Breaker.Invariant.{IsValid, reachable-IsValid}
use mapear_rn.Breaker.Recovery.{granted_after_timeout}

abbrev tripped : CircuitBreaker
tripped = record {
  platform = "facebook";
  failure_threshold = 3;
  recovery_timeout = 120;
  half_open_max_calls = 1;
  state = opened;
  failure_count = 3;
  last_failure_time = 50;
  half_open_calls = 0;
}

run-trips :
    run (new_breaker "facebook" 3 120 1) (failure 10 ∷ allow 20 ∷ failure 30 ∷ failure 50 ∷ [])
    ≡ tripped
unfolding run new_breaker allow_call on_failure
run-trips = refl

reachable-IsValid_example : IsValid (run (new_breaker "x" 3 120 1) (failure 1 ∷ success ∷ []))
reachable-IsValid_example = reachable-IsValid "x" 3 120 1 (failure 1 ∷ success ∷ []) (omega arith)

abbrev once_failed : CircuitBreaker
once_failed = record tripped { state = closed; failure_count = 1 }

granted_after_timeout_example : granted tripped (170 ∷ 171 ∷ 172 ∷ []) ≡ 2
granted_after_timeout_example =
    granted_after_timeout 170 (171 ∷ 172 ∷ []) tripped refl (omega arith)

abbrev probing : CircuitBreaker
probing = record tripped { state = half_open; half_open_calls = 1 }
