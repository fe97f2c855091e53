-- ===== src/Cooldown/Tests.antt =====
-- The theorems of the cooldown at the configuration of the scraper's defaults, and runs of it.
use mapear_rn.Base.{
  ◌+◌, ◌≤◌, String, ◌≡◌, ◌⊎◌, refl, true, false, none, some, [], ◌∷◌, arith, lookup, leb, ◌||◌,
  if◌then◌else◌, ◌==◌,
}
use mapear_rn.ErrorClass.{
  bot_block, rate_limit, parser_hard, transient, error_class_for, retry_budget,
}
use mapear_rn.Cooldown.{
  DomainCooldown, fresh, state_of, window, is_cool, record_block, record_success, reset, is_forced,
}
use mapear_rn.Cooldown.Parking.{longest, record_block-parks}
use mapear_rn.Cooldown.Escalation.{block_all, block_after_success}
use mapear_rn.Cooldown.Counts.{IsCounted, operations-IsCounted}

abbrev blank : DomainCooldown
blank = record {
  base_seconds = 7200;
  max_seconds = 14400;
  growth_factor = 2;
  rate_limit_base_seconds = 900;
  rate_limit_max_seconds = 3600;
  parser_hard_seconds = 21600;
  trigger_threshold = 2;
  parser_hard_trigger = 1;
  parser_disabled = true;
  states = [];
  applied_count = 0;
  reason_distribution = λ c. 0;
}

abbrev parked : DomainCooldown
parked = record blank {
  states = ("b", record fresh { cooldown_until = 9000; consecutive_blocks = 3 }) ∷ [];
  applied_count = 1;
  reason_distribution = λ c. elim c [ bot_block ↦ 1 | _ ↦ 0 ];
}

-- With every text its own domain.
abbrev whole : String → String
whole url = url

classes :
    (error_class_for (some "http_403") ≡ bot_block)
    × (error_class_for (some "http_429") ≡ rate_limit)
    × (error_class_for (some "empty_content") ≡ parser_hard)
    × (error_class_for none ≡ transient)
    × (retry_budget "http_404" none ≡ 1)
    × (retry_budget "http_404" (some (("http_404", 7) ∷ [])) ≡ 7)
unfolding error_class_for retry_budget lookup
classes = (refl, refl, refl, refl, refl, refl)

record_block-second : (record_block whole "b" "http_403" none 100 parked).0 ≡ 14500
unfolding record_block error_class_for lookup window
record_block-second = refl

record_block-parks_example :
    let (until, c') = record_block whole "b" "http_403" none 100 parked in
    ((until ≡ 0) ⊎ ((100 ≤ until) × (until ≤ 100 + longest parked)))
    × ((is_cool whole none 200 "b" c').0 ≡ (
        is_forced none
        || leb (if until == 0 then (state_of parked "b").cooldown_until else until) 200))
record_block-parks_example =
    record_block-parks whole none 100 200 "b" "http_403" none parked (omega arith)

block_after_success_example :
    (record_block whole "b" "http_429" (some rate_limit) 50 (
      block_all whole "b" "http_429" rate_limit (10 ∷ 20 ∷ []) (record_success whole "b" parked))).0
    ≡ 1850
block_after_success_example =
    block_after_success whole "b" "http_429" rate_limit (10 ∷ 20 ∷ []) 50 parked tt

operations-IsCounted_example :
    (let (until, c') = record_block whole "b" "http_403" none 100 parked in
      IsCounted c' × (c'.applied_count ≡ 1 + (if until == 0 then 0 else 1)))
    × IsCounted (record_success whole "b" parked)
    × IsCounted (is_cool whole none 100 "b" parked).1
    × IsCounted (reset false 100 parked).1
operations-IsCounted_example =
    operations-IsCounted whole none 100 "b" "http_403" none false parked (omega arith) refl
