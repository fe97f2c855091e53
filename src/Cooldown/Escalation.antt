-- ===== src/Cooldown/Escalation.antt =====
-- Blocks in a row: when the first window is armed, and how the windows grow.
use native.Mathlib.Nat.{pow-le-pow_right, mul-le-mul_left}
use mapear_rn.Base.{
  ℕ, ◌+◌, ◌*◌, min, ◌-◌, ◌^◌, ◌≤◌, String, ◌≡◌, refl, some, List, [], ◌∷◌, arith, ltb,
  lookup-insert_self, length, if◌then◌else◌, ◌∙◌,
}
use mapear_rn.ErrorClass.{
  ErrorClass, class_eq, bot_block, rate_limit, parser_hard, parser, transient,
}
use mapear_rn.Cooldown.{DomainCooldown, state_of, window, record_block, record_success}

abbrev pub IsGrowing : ErrorClass → Type 0
IsGrowing bot_block = Unit
IsGrowing rate_limit = Unit
IsGrowing _ = ⊥

module _ (netloc : String → String) (url e : String) where
  -- One block of the class at each of these times.
  unfoldable pub block_all : ErrorClass → List ℕ → DomainCooldown → DomainCooldown
  block_all cls [] c = c
  block_all cls (now ∷ nows) c = block_all cls nows (record_block netloc url e (some cls) now c).1

  block_config :
      (cls : ErrorClass) (now n : ℕ) (c : DomainCooldown)
      → IsGrowing cls
      → let c' = (record_block netloc url e (some cls) now c).1 in
        (c'.trigger_threshold ≡ c.trigger_threshold)
        × (window c' cls n ≡ window c cls n)
        × ((state_of c' (netloc url)).consecutive_blocks
            ≡ (state_of c (netloc url)).consecutive_blocks + 1)
  unfolding record_block window
  block_config bot_block now n c g = grind (arith, lookup-insert_self)
  block_config rate_limit now n c g = grind (arith, lookup-insert_self)
  block_config parser_hard now n c g = absurd g
  block_config parser now n c g = absurd g
  block_config transient now n c g = absurd g

  block_returns :
      (cls : ErrorClass) (now : ℕ) (c : DomainCooldown)
      → IsGrowing cls
      → let n = (state_of c (netloc url)).consecutive_blocks + 1 in
        (record_block netloc url e (some cls) now c).0
        ≡ (if ltb n c.trigger_threshold then 0 else now + window c cls n)
  unfolding record_block
  block_returns bot_block now c g = ground arith
  block_returns rate_limit now c g = ground arith
  block_returns parser_hard now c g = absurd g
  block_returns parser now c g = absurd g
  block_returns transient now c g = absurd g

  block_returns_at :
      (cls : ErrorClass) (now k : ℕ) (c : DomainCooldown) {threshold w : ℕ}
      → IsGrowing cls
      → c.trigger_threshold ≡ threshold
      → (state_of c (netloc url)).consecutive_blocks ≡ k
      → window c cls (k + 1) ≡ w
      → (record_block netloc url e (some cls) now c).0
        ≡ (if ltb (k + 1) threshold then 0 else now + w)
  block_returns_at cls now k c g ht hk hw = cc (block_returns cls now c g)

  block_all_count :
      (cls : ErrorClass) (nows : List ℕ) (c : DomainCooldown)
      → IsGrowing cls
      → let c' = block_all cls nows c in
        (c'.trigger_threshold ≡ c.trigger_threshold)
        × ((n : ℕ) → window c' cls n ≡ window c cls n)
        × ((state_of c' (netloc url)).consecutive_blocks
            ≡ (state_of c (netloc url)).consecutive_blocks + length nows)
  unfolding block_all
  block_all_count cls [] c g = (refl, λ n. refl, omega arith)
  block_all_count cls (now ∷ nows) c g =
      let ih = block_all_count cls nows (record_block netloc url e (some cls) now c).1 g in
      (
        ih.0 ∙ (block_config cls now 0 c g).0,
        λ n. ih.1 n ∙ (block_config cls now n c g).1,
        omega (arith, ih.2, (block_config cls now 0 c g).2),
      )

  success_resets :
      (cls : ErrorClass) (n : ℕ) (c : DomainCooldown)
      → let c' = record_success netloc url c in
        (c'.trigger_threshold ≡ c.trigger_threshold)
        × (window c' cls n ≡ window c cls n)
        × ((state_of c' (netloc url)).consecutive_blocks ≡ 0)
  unfolding record_success window
  success_resets cls n c = grind (arith, lookup-insert_self)

  -- After a success and then a number of bot blocks or rate limits in a row, the next one of the
  -- class arms a window exactly if it reaches the threshold, and the window is the base grown
  -- once for each block beyond the threshold, up to the cap of the class.
  pub block_after_success :
      (cls : ErrorClass) (nows : List ℕ) (now : ℕ) (c : DomainCooldown)
      → IsGrowing cls
      → let n = length nows + 1 in
        (record_block netloc url e
          (some cls)
          now
          (block_all cls nows (record_success netloc url c))).0
        ≡ (if ltb n c.trigger_threshold
            then 0
            else if class_eq cls rate_limit
            then now
              + min c.rate_limit_max_seconds
                  (c.rate_limit_base_seconds * c.growth_factor ^ (n - c.trigger_threshold))
            else now
              + min c.max_seconds (c.base_seconds * c.growth_factor ^ (n - c.trigger_threshold)))
  unfolding window
  block_after_success cls nows now c g =
      let c' = record_success netloc url c in
      let counted = block_all_count cls nows c' g in
      let reset = success_resets cls (length nows + 1) c in
      ground (
        arith,
        block_returns_at cls now (length nows) (block_all cls nows c') g (counted.0 ∙ reset.0)
            (omega (arith, counted.2, reset.2)) (counted.1 (length nows + 1) ∙ reset.1),
      )

-- With a growth factor of at least one, a later block in a row never arms a shorter window.
window_mono :
    (c : DomainCooldown) (cls : ErrorClass) (n m : ℕ)
    → 1 ≤ c.growth_factor
    → n ≤ m
    → window c cls n ≤ window c cls m
unfolding window
window_mono c cls n m g h =
    let grown : c.growth_factor ^ (n - c.trigger_threshold)
        ≤ c.growth_factor ^ (m - c.trigger_threshold) =
      pow-le-pow_right g (omega arith) in
    grind (arith, mul-le-mul_left)
