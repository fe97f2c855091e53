-- ===== src/Cooldown/Counts.antt =====
-- The run report's counters: windows armed, their reasons, and skipped fetches.
use mapear_rn.Base.{
  ℕ, ◌+◌, ◌<◌, String, ◌≡◌, refl, Bool, false, Option, some, [], ◌∷◌, arith, lookup, insert, Dict,
  get_or, if◌then◌else◌, ◌==◌,
}
use mapear_rn.ErrorClass.{
  ErrorClass, bot_block, rate_limit, parser_hard, parser, transient, error_class_for,
}
use mapear_rn.Cooldown.{
  DomainState, DomainCooldown, fresh, total, total_skips, release, reset, is_cool, record_block,
  record_success, block_class,
}

abbrev pub reasons : (ErrorClass → ℕ) → ℕ
reasons dist = dist bot_block + dist rate_limit + dist parser_hard + dist parser + dist transient

-- The armed windows are as many as their reasons.
abbrev pub IsCounted : DomainCooldown → Type 0
IsCounted c = c.applied_count ≡ reasons c.reason_distribution

block_class_counts :
    (d : String) (st : DomainState) (cls : ErrorClass) (now : ℕ) (c : DomainCooldown)
    → 0 < now
    → IsCounted c
    → let (until, c') = block_class d st cls now c in
      IsCounted c' × (c'.applied_count ≡ c.applied_count + (if until == 0 then 0 else 1))
unfolding record_block
block_class_counts d st bot_block now c h v = ground arith
block_class_counts d st rate_limit now c h v = ground arith
block_class_counts d st parser_hard now c h v = ground arith
block_class_counts d st parser now c h v = ground arith
block_class_counts d st transient now c h v = ground arith

-- A changed state changes the sum of the skips by what it changes in its own.
total-insert :
    (d : String) (st : DomainState) (states : Dict DomainState)
    → total (insert d st states) + (get_or (lookup d states) fresh).total_skips
      ≡ total states + st.total_skips
unfolding insert lookup
total-insert d st [] = omega arith
total-insert d st ((j, w) ∷ rest) = ground (arith, total-insert d st rest)

total-release : (now : ℕ) (states : Dict DomainState) → total (release now states).1 ≡ total states
unfolding release
total-release now [] = refl
total-release now ((j, w) ∷ rest) = ground (arith, total-release now rest)

module _ (netloc : String → String) where
  -- Every operation keeps the number of armed windows equal to the sum of the reason counters,
  -- and a block recorded at a positive time adds one to it exactly if it arms a window.
  pub operations-IsCounted :
      (force : Option String) (now : ℕ) (url e : String) (o : Option ErrorClass) (all : Bool)
      (c : DomainCooldown)
      → 0 < now
      → IsCounted c
      → (let (until, c') = record_block netloc url e o now c in
          IsCounted c' × (c'.applied_count ≡ c.applied_count + (if until == 0 then 0 else 1)))
        × IsCounted (record_success netloc url c)
        × IsCounted (is_cool netloc force now url c).1
        × IsCounted (reset all now c).1
  unfolding record_block
  operations-IsCounted force now url e o all c h v = (
    block_class_counts (netloc url) _ (get_or o (error_class_for (some e))) now c h v,
    unfold record_success in ground arith,
    unfold is_cool in ground arith,
    unfold reset in ground arith,
  )

  -- A question whether a domain may be fetched adds one to the skips exactly if the answer is no;
  -- a success and a reset that does not drop the states leave the skips as they are.
  total_skips-is_cool :
      (force : Option String) (now : ℕ) (url : String) (c : DomainCooldown)
      → (let (cool, c') = is_cool netloc force now url c in
          total_skips c' ≡ total_skips c + (if cool then 0 else 1))
        × (total_skips (record_success netloc url c) ≡ total_skips c)
        × (total_skips (reset false now c).1 ≡ total_skips c)
  unfolding total_skips
  total_skips-is_cool force now url c = (
    unfold is_cool in grind (arith, total-insert),
    unfold record_success in grind (arith, total-insert),
    unfold reset in total-release now c.states,
  )
