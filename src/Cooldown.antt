-- ===== src/Cooldown.antt =====
-- pipelines/mapear-rss/src/mapear_rss/extraction/domain_cooldown.py: the per-domain cooldown.
-- Times and windows are whole ticks of the clock, the growth factor is a whole number, and the
-- clock's reading `now` is an argument. `netloc` is `urlparse(url).netloc`, and `force` is the
-- value of FORCE_SCRAPE in the environment.
pub mod Parking
pub mod Escalation
pub mod Counts
pub mod Reset
mod Tests
use mapear_rn.Base.{
  ℕ, zero, ◌+◌, ◌-◌, ◌*◌, ◌^◌, min, String, ◌≡◌, Bool, true, false, ◌&&◌, Option, none, some, List,
  [], ◌∷◌, map, ltb, leb, str_eq, Dict, lookup, insert, get_or, if◌then◌else◌, length,
}
use mapear_rn.ErrorClass.{
  ErrorClass, bot_block, rate_limit, parser_hard, parser, transient, class_eq, error_class_for,
}

pub record DomainState : Type 0 where
  pub cooldown_until : ℕ
  pub consecutive_blocks : ℕ
  pub total_skips : ℕ
  pub parser_flags : ℕ
  pub last_error_type : Option String
  pub last_error_class : Option ErrorClass

abbrev pub fresh : DomainState
fresh = record {
  cooldown_until = 0;
  consecutive_blocks = 0;
  total_skips = 0;
  parser_flags = 0;
  last_error_type = none;
  last_error_class = none;
}

pub record DomainCooldown : Type 0 where
  pub base_seconds : ℕ
  pub max_seconds : ℕ
  pub growth_factor : ℕ
  pub rate_limit_base_seconds : ℕ
  pub rate_limit_max_seconds : ℕ
  pub parser_hard_seconds : ℕ
  pub trigger_threshold : ℕ
  pub parser_hard_trigger : ℕ
  pub parser_disabled : Bool
  pub states : Dict DomainState
  pub applied_count : ℕ
  pub reason_distribution : ErrorClass → ℕ

-- `self._reason_distribution[cls] += 1` on a `Counter`
abbrev pub count_reason : ErrorClass → (ErrorClass → ℕ) → ErrorClass → ℕ
count_reason cls dist c = if class_eq cls c then dist c + 1 else dist c

abbrev pub state_of : DomainCooldown → String → DomainState
state_of c d = get_or (lookup d c.states) fresh

abbrev pub put_state : String → DomainState → DomainCooldown → DomainCooldown
put_state d st c = record c { states = insert d st c.states }

-- The window of a bot block, a rate limit or an enabled parser event at the n-th block in a row.
unfoldable pub window : DomainCooldown → ErrorClass → ℕ → ℕ
window c cls n =
    let growth_exp = n - c.trigger_threshold in
    if class_eq cls rate_limit
    then min c.rate_limit_max_seconds (c.rate_limit_base_seconds * c.growth_factor ^ growth_exp)
    else min c.max_seconds (c.base_seconds * c.growth_factor ^ growth_exp)

-- The domain is parked until `until`, and the reason is counted.
arm : String → DomainState → ErrorClass → ℕ → DomainCooldown → ℕ × DomainCooldown
arm d st cls until c = (
  until,
  record (put_state d (record st { cooldown_until = until }) c) {
    applied_count = c.applied_count + 1;
    reason_distribution = count_reason cls c.reason_distribution;
  },
)

block_parser_hard : String → DomainState → ℕ → DomainCooldown → ℕ × DomainCooldown
block_parser_hard d st now c =
    let counted = record st {
      parser_flags = st.parser_flags + 1;
      consecutive_blocks = st.consecutive_blocks + 1;
    } in
    if ltb counted.consecutive_blocks c.parser_hard_trigger
    then (0, put_state d counted c)
    else arm d counted parser_hard (now + c.parser_hard_seconds) c

block_growing : String → DomainState → ErrorClass → ℕ → DomainCooldown → ℕ × DomainCooldown
block_growing d st cls now c =
    let counted = record st { consecutive_blocks = st.consecutive_blocks + 1 } in
    if ltb counted.consecutive_blocks c.trigger_threshold
    then (0, put_state d counted c)
    else arm d counted cls (now + window c cls counted.consecutive_blocks) c

block_parser : String → DomainState → ℕ → DomainCooldown → ℕ × DomainCooldown
block_parser d st now c =
    if c.parser_disabled
    then (0, put_state d (record st { parser_flags = st.parser_flags + 1 }) c)
    else block_growing d st parser now c

block_class : String → DomainState → ErrorClass → ℕ → DomainCooldown → ℕ × DomainCooldown
block_class d st parser now c = block_parser d st now c
block_class d st transient now c = (0, put_state d st c)
block_class d st parser_hard now c = block_parser_hard d st now c
block_class d st bot_block now c = block_growing d st bot_block now c
block_class d st rate_limit now c = block_growing d st rate_limit now c

abbrev pub total : Dict DomainState → ℕ
total [] = 0
total ((d, st) ∷ rest) = st.total_skips + total rest

-- The loop of `reset(force=False)` over the states, with the number released.
unfoldable pub release : ℕ → Dict DomainState → ℕ × Dict DomainState
release now [] = (0, [])
release now ((d, st) ∷ rest) =
    let (n, rest') = release now rest in
    if ltb now st.cooldown_until
    then (n + 1, (d, record st { cooldown_until = 0 }) ∷ rest')
    else (n, (d, st) ∷ rest')

-- `reset`
unfoldable pub reset : Bool → ℕ → DomainCooldown → ℕ × DomainCooldown
unfolding release
reset true now c =
    (length c.states, record c { states = []; applied_count = 0; reason_distribution = λ cls. 0 })
reset false now c = let (n, released) = release now c.states in (n, record c { states = released })

unfoldable pub total_skips : DomainCooldown → ℕ
total_skips c = total c.states

pub record SnapshotEntry : Type 0 where
  pub consecutive_blocks : ℕ
  pub total_skips : ℕ
  pub parser_flags : ℕ
  pub cooldown_remaining_s : ℕ
  pub last_error_type : Option String
  pub last_error_class : Option ErrorClass

-- `max(0.0, cooldown_until - now)` is the subtraction that stops at 0.
unfoldable pub snapshot : ℕ → DomainCooldown → Dict SnapshotEntry
snapshot now c =
    map
      (λ (e : String × DomainState). (
        e.0,
        record {
          consecutive_blocks = e.1.consecutive_blocks;
          total_skips = e.1.total_skips;
          parser_flags = e.1.parser_flags;
          cooldown_remaining_s = e.1.cooldown_until - now;
          last_error_type = e.1.last_error_type;
          last_error_class = e.1.last_error_class;
        },
      ))
      c.states

-- `os.environ.get("FORCE_SCRAPE") == "true"`
unfoldable pub is_forced : Option String → Bool
is_forced none = false
is_forced (some v) = str_eq v "true"

check_cool : String → ℕ → Option DomainState → DomainCooldown → Bool × DomainCooldown
check_cool d now none c = (true, c)
check_cool d now (some st) c =
    if leb st.cooldown_until now
    then (true, c)
    else (false, put_state d (record st { total_skips = st.total_skips + 1 }) c)

clear_blocks : String → Option DomainState → DomainCooldown → DomainCooldown
clear_blocks d none c = c
clear_blocks d (some st) c =
    put_state d
      (record st {
        consecutive_blocks = 0;
        cooldown_until = 0;
        last_error_type = none;
        last_error_class = none;
      })
      c

module _ (netloc : String → String) where
  unfoldable pub is_cool : Option String → ℕ → String → DomainCooldown → Bool × DomainCooldown
  unfolding is_forced check_cool
  is_cool force now url c =
      if is_forced force
      then (true, c)
      else check_cool (netloc url) now (lookup (netloc url) c.states) c

  -- `error_class or error_class_for(error_type)`, and `setdefault` of the domain's state
  unfoldable pub record_block :
      String → String → Option ErrorClass → ℕ → DomainCooldown → ℕ × DomainCooldown
  unfolding block_class block_growing block_parser block_parser_hard arm
  record_block url error_type error_class now c =
      let cls = get_or error_class (error_class_for (some error_type)) in
      let d = netloc url in
      let st = record (state_of c d) {
        last_error_type = some error_type;
        last_error_class = some cls;
      } in
      block_class d st cls now c

  unfoldable pub record_success : String → DomainCooldown → DomainCooldown
  unfolding clear_blocks
  record_success url c = clear_blocks (netloc url) (lookup (netloc url) c.states) c
