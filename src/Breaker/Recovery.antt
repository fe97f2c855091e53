-- ===== src/Breaker/Recovery.antt =====
-- How an open breaker blocks, probes and recovers.
use mapear_rn.Base.{
  ℕ, ◌+◌, ◌-◌, ◌≤◌, ◌<◌, ◌≡◌, true, false, List, [], ◌∷◌, refl, arith, min, length, ltb, leb,
  ltb→lt, ltb→le, tests, inl, inr, Bool-cases, map, subst, sym, ap,
}
use mapear_rn.Breaker.{
  CircuitBreaker, closed, opened, half_open, allow_call, on_success, on_failure,
}
use mapear_rn.Breaker.Trace.{allow, granted, run}

-- An open breaker grants a call exactly from the last failure plus the timeout on; until then
-- the call leaves it unchanged, and from then on it is half-open with no probe counted.
allow_call-open :
    (now : ℕ) (cb : CircuitBreaker)
    → cb.state ≡ opened
    → (now < cb.last_failure_time + cb.recovery_timeout → allow_call now cb ≡ (false, cb))
      × (cb.last_failure_time + cb.recovery_timeout ≤ now
          → allow_call now cb ≡ (true, record cb { state = half_open; half_open_calls = 0 }))
unfolding allow_call
allow_call-open now cb e = (λ h. ground arith, λ h. ground arith)

allow_call_probe :
    (now : ℕ) (cb : CircuitBreaker)
    → cb.state ≡ half_open
    → cb.half_open_calls < cb.half_open_max_calls
    → allow_call now cb ≡ (true, record cb { half_open_calls = cb.half_open_calls + 1 })
unfolding allow_call
allow_call_probe now cb e h = ground arith

allow_call_exhausted :
    (now : ℕ) (cb : CircuitBreaker)
    → cb.state ≡ half_open
    → cb.half_open_max_calls ≤ cb.half_open_calls
    → allow_call now cb ≡ (false, cb)
unfolding allow_call
allow_call_exhausted now cb e h = ground arith

granted_exhausted :
    (ts : List ℕ) (cb : CircuitBreaker)
    → cb.state ≡ half_open
    → cb.half_open_max_calls ≤ cb.half_open_calls
    → granted cb ts ≡ 0
unfolding granted
granted_exhausted [] cb e h = refl
granted_exhausted (t ∷ ts) cb e h =
    rw (allow_call_exhausted t cb e h) (omega (arith, granted_exhausted ts cb e h))

granted_half_open :
    (ts : List ℕ) (cb : CircuitBreaker)
    → cb.state ≡ half_open
    → granted cb ts ≡ min (length ts) (cb.half_open_max_calls - cb.half_open_calls)
unfolding granted
granted_half_open [] cb e = omega arith
granted_half_open (t ∷ ts) cb e =
    elim (Bool-cases (ltb cb.half_open_calls cb.half_open_max_calls)) [
      | inl room ↦ rw (allow_call_probe t cb e (ltb→lt _ _ room)) (
          omega (
            tests,
            ltb→lt _ _ room,
            granted_half_open ts (record cb { half_open_calls = cb.half_open_calls + 1 }) e,
          ))
      | inr full ↦
          rw (allow_call_exhausted t cb e (ltb→le _ _ full))
            (omega (tests, ltb→le _ _ full, granted_exhausted ts cb e (ltb→le _ _ full)))
    ]

-- Once the timeout of an open breaker has passed, calls with no outcome reported between them are
-- granted one more time than the configured number of half-open calls: the call that moves the
-- breaker to half-open is granted and not counted.
pub granted_after_timeout :
    (t : ℕ) (ts : List ℕ) (cb : CircuitBreaker)
    → cb.state ≡ opened
    → cb.last_failure_time + cb.recovery_timeout ≤ t
    → granted cb (t ∷ ts) ≡ min (length (t ∷ ts)) (cb.half_open_max_calls + 1)
unfolding granted
granted_after_timeout t ts cb e h = rw ((allow_call-open t cb e).1 h) (
    omega (arith, granted_half_open ts (record cb { state = half_open; half_open_calls = 0 }) refl))

run_exhausted :
    (ts : List ℕ) (cb : CircuitBreaker)
    → cb.state ≡ half_open
    → cb.half_open_max_calls ≤ cb.half_open_calls
    → run cb (map allow ts) ≡ cb
unfolding run
run_exhausted [] cb e h = refl
run_exhausted (t ∷ ts) cb e h =
    subst (λ b. run b (map allow ts) ≡ cb) (sym (ap (λ r. r.1) (allow_call_exhausted t cb e h)))
      (run_exhausted ts cb e h)

-- A half-open breaker whose probes are used up refuses every call at every time and stays as it
-- is: without a reported outcome it does not recover.
allow_call-exhausted_forever :
    (ts : List ℕ) (cb : CircuitBreaker)
    → cb.state ≡ half_open
    → cb.half_open_max_calls ≤ cb.half_open_calls
    → (granted cb ts ≡ 0) × (run cb (map allow ts) ≡ cb)
allow_call-exhausted_forever ts cb e h = (granted_exhausted ts cb e h, run_exhausted ts cb e h)

-- The outcome of a granted probe decides: a success closes the circuit with the count at zero, a
-- failure opens it again for a whole timeout from the time of that failure.
probe_outcome :
    (now later ask : ℕ) (cb : CircuitBreaker)
    → cb.state ≡ opened
    → cb.last_failure_time + cb.recovery_timeout ≤ now
    → let probing = (allow_call now cb).1 in
      ((on_success probing).state ≡ closed)
      × ((on_success probing).failure_count ≡ 0)
      × ((on_failure later probing).state ≡ opened)
      × ((allow_call ask (on_failure later probing)).0 ≡ leb (later + cb.recovery_timeout) ask)
unfolding allow_call on_success on_failure
probe_outcome now later ask cb e h = ground arith
