-- ===== src/Breaker/Invariant.antt =====
-- The breaker's state is determined by its failure count, whatever calls are made.
use mapear_rn.Base.{ℕ, ◌+◌, ◌≤◌, ◌<◌, ◌≡◌, List, [], ◌∷◌, String, arith, ltb, length, if◌then◌else◌}
use mapear_rn.Breaker.{
  CircuitBreaker, CircuitState, closed, opened, half_open, new_breaker, allow_call, on_success,
  on_failure,
}
use mapear_rn.Breaker.Trace.{Call, allow, success, failure, step, run, fail_all}

abbrev pub CountFits : CircuitState → ℕ → ℕ → Type 0
CountFits closed count threshold = count < threshold
CountFits opened count threshold = threshold ≤ count
CountFits half_open count threshold = threshold ≤ count

abbrev pub ProbesFit : CircuitState → ℕ → ℕ → Type 0
ProbesFit half_open calls most = calls ≤ most
ProbesFit _ calls most = Unit

pub record IsValid (cb : CircuitBreaker) : Type 0 where
  pub can_close : 0 < cb.failure_threshold
  pub counted : CountFits cb.state cb.failure_count cb.failure_threshold
  pub probed : ProbesFit cb.state cb.half_open_calls cb.half_open_max_calls

pub step-IsValid : (cb : CircuitBreaker) (c : Call) → IsValid cb → IsValid (step cb c)
unfolding step allow_call on_success on_failure
step-IsValid cb (allow now) v = ground arith
step-IsValid cb success v = ground arith
step-IsValid cb (failure now) v = ground arith

pub run-IsValid : (cs : List Call) (cb : CircuitBreaker) → IsValid cb → IsValid (run cb cs)
unfolding run
run-IsValid [] cb v = v
run-IsValid (c ∷ cs) cb v = run-IsValid cs (step cb c) (step-IsValid cb c v)

pub new_breaker-IsValid :
    (p : String) (threshold timeout most : ℕ)
    → 0 < threshold
    → IsValid (new_breaker p threshold timeout most)
unfolding new_breaker
new_breaker-IsValid p threshold timeout most h = ground arith

-- From a new breaker with a positive threshold, after any sequence of calls the circuit is closed
-- exactly while fewer failures than the threshold are counted since the last success, and in the
-- half-open state no more probes are counted than are configured.
pub reachable-IsValid :
    (p : String) (threshold timeout most : ℕ) (cs : List Call)
    → 0 < threshold
    → IsValid (run (new_breaker p threshold timeout most) cs)
reachable-IsValid p threshold timeout most cs h =
    run-IsValid cs (new_breaker p threshold timeout most)
      (new_breaker-IsValid p threshold timeout most h)

on_failure_closed :
    (now : ℕ) (cb : CircuitBreaker)
    → cb.state ≡ closed
    → (on_failure now cb).state
      ≡ (if ltb (cb.failure_count + 1) cb.failure_threshold then closed else opened)
unfolding on_failure
on_failure_closed now cb e = ground arith

on_failure_open :
    (now : ℕ) (cb : CircuitBreaker) → cb.state ≡ opened → (on_failure now cb).state ≡ opened
unfolding on_failure
on_failure_open now cb e = ground arith

on_failure_count :
    (now : ℕ) (cb : CircuitBreaker)
    → ((on_failure now cb).failure_count ≡ cb.failure_count + 1)
      × ((on_failure now cb).failure_threshold ≡ cb.failure_threshold)
unfolding on_failure
on_failure_count now cb = ground arith

fail_all_open :
    (ts : List ℕ) (cb : CircuitBreaker) → cb.state ≡ opened → (fail_all cb ts).state ≡ opened
unfolding fail_all
fail_all_open [] cb e = e
fail_all_open (t ∷ ts) cb e = fail_all_open ts (on_failure t cb) (on_failure_open t cb e)

-- A closed breaker whose count is below the threshold is, after failures alone, closed exactly
-- if the count together with the new failures stays below the threshold, and open otherwise.
fail_all-trips :
    (ts : List ℕ) (cb : CircuitBreaker)
    → cb.state ≡ closed
    → cb.failure_count < cb.failure_threshold
    → (fail_all cb ts).state
      ≡ (if ltb (cb.failure_count + length ts) cb.failure_threshold then closed else opened)
unfolding fail_all
fail_all-trips [] cb e h = ground arith
fail_all-trips (t ∷ ts) cb e h = ground (
  arith,
  on_failure_closed t cb e,
  on_failure_count t cb,
  fail_all-trips ts (on_failure t cb),
  fail_all_open ts (on_failure t cb),
)
