-- ===== src/Cooldown/Parking.antt =====
-- What a recorded block does to its own domain and to every other one.
use mapear_rn.Base.{
  ℕ, ◌+◌, ◌≤◌, ◌<◌, max, String, ◌≡◌, true, false, Option, some, arith, leb, str_eq, lookup,
  lookup-insert_ne, lookup-insert_self, get_or, if◌then◌else◌, ◌||◌, ◌==◌, ◌⊎◌,
}
use mapear_rn.ErrorClass.{
  ErrorClass, bot_block, rate_limit, parser_hard, parser, transient, error_class_for,
}
use mapear_rn.Cooldown.{
  DomainState, DomainCooldown, block_class, state_of, window, is_forced, is_cool, record_block,
  record_success,
}

abbrev pub class_used : String → Option ErrorClass → ErrorClass
class_used error_type error_class = get_or error_class (error_class_for (some error_type))

block_class_other :
    (d j : String) (st : DomainState) (cls : ErrorClass) (now : ℕ) (c : DomainCooldown)
    → str_eq d j ≡ false
    → lookup j (block_class d st cls now c).1.states ≡ lookup j c.states
unfolding record_block
block_class_other d j st bot_block now c h = grind (arith, lookup-insert_ne)
block_class_other d j st rate_limit now c h = grind (arith, lookup-insert_ne)
block_class_other d j st parser_hard now c h = grind (arith, lookup-insert_ne)
block_class_other d j st parser now c h = grind (arith, lookup-insert_ne)
block_class_other d j st transient now c h = grind (arith, lookup-insert_ne)

record_success_other :
    (netloc : String → String) (url j : String) (c : DomainCooldown)
    → str_eq (netloc url) j ≡ false
    → lookup j (record_success netloc url c).states ≡ lookup j c.states
unfolding record_success
record_success_other netloc url j c h = grind (arith, lookup-insert_ne)

is_cool_other :
    (netloc : String → String) (force : Option String) (now : ℕ) (url j : String)
    (c : DomainCooldown)
    → str_eq (netloc url) j ≡ false
    → lookup j (is_cool netloc force now url c).1.states ≡ lookup j c.states
unfolding is_cool
is_cool_other netloc force now url j c h = grind (arith, lookup-insert_ne)

module _ (netloc : String → String) where
  -- A block, a success or a question about one domain leaves the state of every other domain as
  -- it was.
  other_domains :
      (force : Option String) (now : ℕ) (url j e : String) (o : Option ErrorClass)
      (c : DomainCooldown)
      → str_eq (netloc url) j ≡ false
      → (lookup j (record_block netloc url e o now c).1.states ≡ lookup j c.states)
        × (lookup j (record_success netloc url c).states ≡ lookup j c.states)
        × (lookup j (is_cool netloc force now url c).1.states ≡ lookup j c.states)
  unfolding record_block
  other_domains force now url j e o c h = (
    block_class_other (netloc url) j _ (class_used e o) now c h,
    record_success_other netloc url j c h,
    is_cool_other netloc force now url j c h,
  )

  -- Whether a domain may be fetched: the escape hatch is set, or its window has passed.
  pub is_cool-eq :
      (force : Option String) (t : ℕ) (url : String) (c : DomainCooldown)
      → (is_cool netloc force t url c).0
        ≡ (is_forced force || leb (state_of c (netloc url)).cooldown_until t)
  unfolding is_cool
  is_cool-eq force t url c = ground arith

block_class_until :
    (d : String) (st : DomainState) (cls : ErrorClass) (now : ℕ) (c : DomainCooldown)
    → 0 < now
    → (state_of (block_class d st cls now c).1 d).cooldown_until ≡ (
        if (block_class d st cls now c).0 == 0
        then st.cooldown_until
        else (block_class d st cls now c).0)
unfolding record_block
block_class_until d st bot_block now c h = grind (arith, lookup-insert_self)
block_class_until d st rate_limit now c h = grind (arith, lookup-insert_self)
block_class_until d st parser_hard now c h = grind (arith, lookup-insert_self)
block_class_until d st parser now c h = grind (arith, lookup-insert_self)
block_class_until d st transient now c h = grind (arith, lookup-insert_self)

-- The longest window that any class can arm.
abbrev pub longest : DomainCooldown → ℕ
longest c = max c.parser_hard_seconds (max c.max_seconds c.rate_limit_max_seconds)

window-le-longest : (c : DomainCooldown) (cls : ErrorClass) (n : ℕ) → window c cls n ≤ longest c
unfolding window
window-le-longest c cls n = ground arith

block_class_bounds :
    (d : String) (st : DomainState) (cls : ErrorClass) (now : ℕ) (c : DomainCooldown)
    → let until = (block_class d st cls now c).0 in
      (until ≡ 0) ⊎ ((now ≤ until) × (until ≤ now + longest c))
unfolding record_block
block_class_bounds d st bot_block now c =
    ground (arith, window-le-longest c bot_block (st.consecutive_blocks + 1))
block_class_bounds d st rate_limit now c =
    ground (arith, window-le-longest c rate_limit (st.consecutive_blocks + 1))
block_class_bounds d st parser_hard now c = ground arith
block_class_bounds d st parser now c =
    ground (arith, window-le-longest c parser (st.consecutive_blocks + 1))
block_class_bounds d st transient now c = ground arith

module _ (netloc : String → String) where
  -- A block recorded at a positive time returns 0 and leaves the domain's window as it was, or
  -- returns the end of a window that starts now and is no longer than the longest configured one;
  -- unless the escape hatch is set, the domain may then be fetched exactly from that end on.
  pub record_block-parks :
      (force : Option String) (now t : ℕ) (url e : String) (o : Option ErrorClass)
      (c : DomainCooldown)
      → 0 < now
      → let (until, c') = record_block netloc url e o now c in
        ((until ≡ 0) ⊎ ((now ≤ until) × (until ≤ now + longest c)))
        × ((is_cool netloc force t url c').0 ≡ (
            is_forced force
            || leb (if until == 0 then (state_of c (netloc url)).cooldown_until else until) t))
  unfolding record_block
  record_block-parks force now t url e o c h = (
    block_class_bounds (netloc url) _ (class_used e o) now c,
    rw is_cool-eq (rw (block_class_until (netloc url) _ (class_used e o) now c h)),
  )

  -- Transient errors, and parser errors while they are disabled, arm no window and count towards
  -- no threshold.
  record_block-transient :
      (now : ℕ) (url e : String) (o : Option ErrorClass) (c : DomainCooldown)
      → (class_used e o ≡ transient) ⊎ ((class_used e o ≡ parser) × (c.parser_disabled ≡ true))
      → let (until, c') = record_block netloc url e o now c in
        (until ≡ 0)
        × ((state_of c' (netloc url)).cooldown_until ≡ (state_of c (netloc url)).cooldown_until)
        × ((state_of c' (netloc url)).consecutive_blocks
            ≡ (state_of c (netloc url)).consecutive_blocks)
        × (c'.applied_count ≡ c.applied_count)
  unfolding record_block
  record_block-transient now url e o c h = grind (arith, lookup-insert_self)
