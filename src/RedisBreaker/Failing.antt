-- ===== src/RedisBreaker/Failing.antt =====
-- What a lost connection to Redis does to the breaker.
use mapear_rn.Base.{ℕ, String, ◌≡◌, refl, ◌⊎◌, inl, inr}
use mapear_rn.RedisBreaker.{
  CircuitState, closed, opened, half_open, Redis, Texts, connection_error, value_error, Answer,
  returned, raised, CircuitBreaker, get_state, allowed_in, is_allowed, succeeded_in, record_success,
  failed_in, record_failure,
}

-- The answer is not the `ConnectionError`.
abbrev pub IsQuiet : {A : Type 0} → Answer A → Type 0
IsQuiet (returned x) = Unit
IsQuiet (raised connection_error) = ⊥
IsQuiet (raised value_error) = Unit

module _ (r : Redis) (texts : Texts) (extract_domain : String → String) where
  allowed_in-IsQuiet :
      (domain : String) (now : ℕ) (a : Answer CircuitState) (b : CircuitBreaker r.Store)
      → (a ≡ returned opened)
        ⊎ ((a ≡ returned half_open) ⊎ IsQuiet (allowed_in r texts extract_domain domain now a b).0)
  unfolding allowed_in
  allowed_in-IsQuiet domain now (raised connection_error) b = inr (inr tt)
  allowed_in-IsQuiet domain now (raised value_error) b = inr (inr tt)
  allowed_in-IsQuiet domain now (returned closed) b = inr (inr tt)
  allowed_in-IsQuiet domain now (returned opened) b = inl refl
  allowed_in-IsQuiet domain now (returned half_open) b = inr (inl refl)

  succeeded_in-IsQuiet :
      (domain : String) (now : ℕ) (a : Answer CircuitState) (b : CircuitBreaker r.Store)
      → IsQuiet (succeeded_in r texts extract_domain domain now a b).0
  unfolding succeeded_in
  succeeded_in-IsQuiet domain now (raised connection_error) b = tt
  succeeded_in-IsQuiet domain now (raised value_error) b = tt
  succeeded_in-IsQuiet domain now (returned closed) b = tt
  succeeded_in-IsQuiet domain now (returned opened) b = tt
  succeeded_in-IsQuiet domain now (returned half_open) b = tt

  failed_in-IsQuiet :
      (domain : String) (now : ℕ) (a : Answer CircuitState) (b : CircuitBreaker r.Store)
      → IsQuiet (failed_in r texts extract_domain domain now a b).0
  unfolding failed_in
  failed_in-IsQuiet domain now (raised connection_error) b = tt
  failed_in-IsQuiet domain now (raised value_error) b = tt
  failed_in-IsQuiet domain now (returned closed) b = tt
  failed_in-IsQuiet domain now (returned opened) b = tt
  failed_in-IsQuiet domain now (returned half_open) b = tt

  -- Reports of a success or a failure never pass a `ConnectionError` on. The question for permission
  -- does not either, unless it could read the state of the circuit and found it open or half-open.
  pub methods-IsQuiet :
      (url : String) (now : ℕ) (b : CircuitBreaker r.Store)
      → let state = get_state r texts extract_domain (extract_domain url) b.store in
        ((state ≡ returned opened)
          ⊎ ((state ≡ returned half_open)
              ⊎ IsQuiet (is_allowed r texts extract_domain url now b).0))
        × IsQuiet (record_success r texts extract_domain url now b).0
        × IsQuiet (record_failure r texts extract_domain url now b).0
  unfolding is_allowed record_success record_failure
  methods-IsQuiet url now b =
      let domain = extract_domain url in
      let state = get_state r texts extract_domain domain b.store in
      (
        allowed_in-IsQuiet domain now state b,
        succeeded_in-IsQuiet domain now state b,
        failed_in-IsQuiet domain now state b,
      )
