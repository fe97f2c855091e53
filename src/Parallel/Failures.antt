-- ===== src/Parallel/Failures.antt =====
-- A platform whose runs keep failing.
use mapear_rn.Base.{
  ℕ, ◌+◌, ◌<◌, String, ◌≡◌, refl, false, List, [], ◌∷◌, arith, All, length, sym, subst, ◌∙◌,
}
use mapear_rn.Breaker.{CircuitBreaker, closed, opened, allow_call, on_failure}
use mapear_rn.Parallel.{Run, skipped_result, finish_run, run_platform_in_thread}
use mapear_rn.Parallel.Outcomes.{has_returned}

-- The breaker after these runs of one platform, one after the other.
unfoldable pub rerun : String → List Run → CircuitBreaker → CircuitBreaker
rerun p [] cb = cb
rerun p (r ∷ rs) cb = rerun p rs (run_platform_in_thread p r cb).1

-- A failing run of a closed breaker counts one failure, at the time it is reported.
failing_step :
    (p : String) (r : Run) (cb : CircuitBreaker)
    → cb.state ≡ closed
    → has_returned r.outcome ≡ false
    → (run_platform_in_thread p r cb).1 ≡ on_failure r.reported cb
unfolding run_platform_in_thread finish_run allow_call
failing_step p r cb e h = ground arith

failure_below :
    (now : ℕ) (cb : CircuitBreaker)
    → cb.state ≡ closed
    → cb.failure_count + 1 < cb.failure_threshold
    → on_failure now cb
      ≡ record cb { failure_count = cb.failure_count + 1; last_failure_time = now }
unfolding on_failure
failure_below now cb e h = ground arith

failure_at :
    (now : ℕ) (cb : CircuitBreaker)
    → cb.state ≡ closed
    → cb.failure_count + 1 ≡ cb.failure_threshold
    → on_failure now cb
      ≡ record cb { state = opened; failure_count = cb.failure_count + 1; last_failure_time = now }
unfolding on_failure
failure_at now cb e h = ground arith

refused_until :
    (p : String) (r : Run) (cb : CircuitBreaker)
    → cb.state ≡ opened
    → r.asked < cb.last_failure_time + cb.recovery_timeout
    → run_platform_in_thread p r cb ≡ (skipped_result p, cb)
unfolding run_platform_in_thread allow_call
refused_until p r cb e h = ground arith

-- Once the failing runs in a row of a closed breaker's platform bring its count to the threshold,
-- the platform is skipped, its breaker unchanged, in every run that asks before the recovery
-- timeout since the last failure is over.
pub rerun-skips :
    (p : String) (rs : List Run) (last next : Run) (cb : CircuitBreaker)
    → cb.state ≡ closed
    → cb.failure_count + length rs + 1 ≡ cb.failure_threshold
    → All (λ r. has_returned r.outcome ≡ false) (last ∷ rs)
    → next.asked < last.reported + cb.recovery_timeout
    → let cb' = rerun p (last ∷ []) (rerun p rs cb) in
      run_platform_in_thread p next cb' ≡ (skipped_result p, cb')
unfolding rerun
rerun-skips p [] last next cb e n f h =
    let eq = failing_step p last cb e f.0 ∙ failure_at last.reported cb e (omega (arith, n)) in
    subst (λ c. run_platform_in_thread p next c ≡ (skipped_result p, c)) (sym eq)
      (refused_until p next _ refl h)
rerun-skips p (r ∷ rs) last next cb e n f h =
    let eq = failing_step p r cb e f.1.0 ∙ failure_below r.reported cb e (omega (arith, n)) in
    subst
      (λ c.
        let cb' = rerun p (last ∷ []) (rerun p rs c) in
        run_platform_in_thread p next cb' ≡ (skipped_result p, cb'))
      (sym eq)
      (rerun-skips p rs last next
        (record cb { failure_count = cb.failure_count + 1; last_failure_time = r.reported }) e
        (omega (arith, n)) (f.0, f.1.1) h)
