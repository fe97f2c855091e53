-- ===== src/Cooldown/Reset.antt =====
-- What a reset releases.
use mapear_rn.Base.{
  ℕ, ◌≤◌, String, ◌≡◌, refl, true, false, Option, [], ◌∷◌, arith, ltb, count, lookup, Dict, get_or,
}
use mapear_rn.Cooldown.{DomainState, DomainCooldown, fresh, state_of, release, reset, is_cool}
use mapear_rn.Cooldown.Parking.{is_cool-eq}

release-count :
    (now : ℕ) (states : Dict DomainState)
    → (release now states).0
      ≡ count (λ (e : String × DomainState). ltb now e.1.cooldown_until) states
unfolding release
release-count now [] = refl
release-count now ((d, st) ∷ rest) = ground (arith, release-count now rest)

release_state :
    (now : ℕ) (j : String) (states : Dict DomainState)
    → let old = get_or (lookup j states) fresh in
      let new = get_or (lookup j (release now states).1) fresh in
      (new.cooldown_until ≤ now) × (new.consecutive_blocks ≡ old.consecutive_blocks)
unfolding release lookup
release_state now j [] = omega arith
release_state now j ((d, st) ∷ rest) = ground (arith, release_state now j rest)

-- A reset that is not forced returns the number of domains that were parked, after it every
-- domain may be fetched from that moment on, and no count of blocks in a row has changed.
reset-releases :
    (netloc : String → String) (force : Option String) (now t : ℕ) (url : String)
    (c : DomainCooldown)
    → now ≤ t
    → let (n, c') = reset false now c in
      (n ≡ count (λ (e : String × DomainState). ltb now e.1.cooldown_until) c.states)
      × ((is_cool netloc force t url c').0 ≡ true)
      × ((state_of c' (netloc url)).consecutive_blocks
          ≡ (state_of c (netloc url)).consecutive_blocks)
unfolding reset
reset-releases netloc force now t url c h = (
  release-count now c.states,
  rw is_cool-eq (ground (arith, release_state now (netloc url) c.states)),
  (release_state now (netloc url) c.states).1,
)
