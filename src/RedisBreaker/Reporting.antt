-- ===== src/RedisBreaker/Reporting.antt =====
-- What the breaker in Redis makes of failures, and what it admits afterwards.
use mapear_rn.Base.{
  ℕ, ◌*◌, ◌≤◌, ◌<◌, String, Bool, true, false, ◌≡◌, refl, ◌∙◌, ◌⊎◌, inl, inr, none, some, leb,
  leb→le, leb→lt, if◌then◌else◌,
}
use mapear_rn.RedisBreaker.{
  opened, half_open, Redis, Texts, CircuitBreaker, key, get_state, transition, is_allowed,
  record_failure, failed_in, stored,
}
use mapear_rn.RedisBreaker.Recovery.{
  IsServing, IsCountable, IsOpenSince, IsTesting, Waits, key_ne, get_state_of, opened_contents,
  is_allowed-Waits,
}

module _ (r : Redis) (texts : Texts) (extract_domain : String → String)
    (serving : IsServing r texts) where
  -- With the connection up, a failure that is reported while a half-open circuit is tested opens it
  -- again: the circuit refuses every request until the timeout has passed since that failure, and
  -- then admits a request and is half-open.
  pub record_failure-Waits :
      (url : String) (now later : ℕ) (b : CircuitBreaker r.Store)
      → IsTesting r texts extract_domain (extract_domain url) b
      → let b' = (record_failure r texts extract_domain url now b).1 in
        (b'.recovery_timeout ≡ b.recovery_timeout)
        × Waits r texts extract_domain serving
            (extract_domain url)
            now
            later
            b'
            (is_allowed r texts extract_domain url later b')
  unfolding record_failure failed_in
  record_failure-Waits url now later b h =
      let d = extract_domain url in
      let (s', made, state, since) = opened_contents r texts extract_domain serving d now b.store in
      rw (get_state_of r texts extract_domain serving d "half_open" half_open b.store h.0 refl) (
        rw made (
          refl,
          is_allowed-Waits r texts extract_domain serving url now later (record b { store = s' })
              (state, since),
        ))

  -- The state after a failure that was counted
  abbrev pub Counted : String → ℕ → ℕ → ℕ → CircuitBreaker r.Store → Type 0
  Counted domain now n threshold b =
      ((threshold ≤ n) × IsOpenSince r texts extract_domain domain now b)
      ⊎ ((n < threshold) × (r.contents b.store (key domain "state") ≡ none))

  threshold-Counted :
      (domain : String) (now n : ℕ) (b : CircuitBreaker r.Store) (high : Bool)
      → r.contents b.store (key domain "state") ≡ none
      → leb b.failure_threshold n ≡ high
      → Counted domain now n b.failure_threshold (
          if high
          then stored r texts extract_domain
              (transition r texts extract_domain domain now opened b.store)
              b
          else b)
  threshold-Counted domain now n b false h e = inr (leb→lt b.failure_threshold n e, h)
  threshold-Counted domain now n b true h e =
      let (s', made, state, since) =
        opened_contents r texts extract_domain serving domain now b.store in
      rw made (inl (leb→le b.failure_threshold n e, (state, since)))

  -- With the connection up, a failure in a circuit without a stored state is counted: if the number
  -- that Redis counts to reaches the threshold then the circuit is open since that moment, and
  -- otherwise it has no stored state still.
  record_failure-Counted :
      (url : String) (now : ℕ) (b : CircuitBreaker r.Store)
      → r.contents b.store (key (extract_domain url) "state") ≡ none
      → IsCountable texts (r.contents b.store (key (extract_domain url) "failures"))
      → (n : ℕ) × (s' : r.Store) × (r.incr (key (extract_domain url) "failures") b.store
          ≡ some (n, s'))
        × Counted
            (extract_domain url)
            now
            n
            b.failure_threshold
            (record_failure r texts extract_domain url now b).1
  unfolding record_failure failed_in get_state
  record_failure-Counted url now b h countable =
      let d = extract_domain url in
      let k = key d "failures" in
      let other = key_ne d "failures" "state" refl in
      let (n, s₁, e, held₁) = serving.incr_contents k b.store countable in
      let (s₂, e₂, held₂) = serving.expire_contents k (b.recovery_timeout * 2) s₁ in
      let kept = held₂ (key d "state") other ∙ held₁ (key d "state") other ∙ h in
      (
        n,
        s₁,
        e,
        rw (serving.get_contents (key d "state") b.store, h, e, e₂)
            (threshold-Counted d now n (record b { store = s₂ }) _ kept refl),
      )
