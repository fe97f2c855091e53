-- ===== src/SocialPipeline/Tests.antt =====
-- The theorems of the social pipeline's stages at small batches, and runs of them.
use text.Mathlib.Text.{starts_with}
use mapear_rn.Base.{
  ◌+◌, ◌*◌, ◌/◌, ◌≤◌, Option, insert, count, String, false, ◌≡◌, refl, none, some, List, [], ◌∷◌,
  length, All, str_eq, if◌then◌else◌, lookup,
}
use mapear_rn.SocialPipeline.{
  RawItem, SocialPost, ParsedItem, post, schema_drift, crashed, Run, parse_social_posts,
  dlq_entries_to_records, count_persons, volume_by_person, resolve_platform, has_targets,
}
use mapear_rn.SocialPipeline.Regions.{
  Mentions, Politician, merge_unique, mentions_count, with_matcher, with_author,
  enrich_with_region_matcher,
}
use mapear_rn.SocialPipeline.Parsed.{IsOfRun, parse_social_posts-IsOfRun}
use mapear_rn.SocialPipeline.Volumes.{is_of}
use mapear_rn.PoliticalSentiment.{Confidences, classify, result}
use mapear_rn.SocialPipeline.Inputs.{SilverRow, classifier_inputs}
use mapear_rn.SocialPipeline.Alerts.{classifier_inputs-is_alert}
use mapear_rn.SocialPipeline.Enriched.{Keeps, enrich_with_region_matcher-Keeps}

abbrev raw : String → RawItem
raw body = record { keys = "id" ∷ "text" ∷ "user" ∷ []; body = body }

abbrev sentinel : RawItem
sentinel = record { keys = "error" ∷ []; body = "{}" }

abbrev a_post : String → SocialPost
a_post id = record { post_id = id; author_handle = some "prefeito"; text = "Natal" }

-- An adapter that reads items of good bodies only
abbrev parse_item : RawItem → ParsedItem
parse_item item =
    if starts_with item.body "good"
    then post (a_post item.body)
    else if starts_with item.body "gone"
    then schema_drift "page_unavailable: gone"
    else crashed

abbrev run : Run
run = record { platform = "x"; actor_id = "actor"; actor_run_id = "r1"; ingestion_run_id = "i1" }

abbrev items : List RawItem
items = raw "good 1" ∷ sentinel ∷ raw "gone" ∷ raw "bad" ∷ raw "good 1" ∷ []

parse_social_posts-IsOfRun_example :
    let (posts, dlq) = parse_social_posts parse_item run items in
    let records = dlq_entries_to_records dlq "actor" in
    (length posts + length records ≡ 5) × All (IsOfRun run) records
parse_social_posts-IsOfRun_example = parse_social_posts-IsOfRun parse_item run items

abbrev recognised : Mentions
recognised = record {
  cities = "natal" ∷ [];
  mayors = [];
  governors = [];
  parties = "PT" ∷ [];
  candidates = [];
  politicians = [];
}

abbrev matched : Mentions
matched = record recognised { cities = "NATAL" ∷ "Mossoro" ∷ []; parties = [] }

abbrev mayor_of_mossoro : Politician
mayor_of_mossoro = record { name = "Allyson"; role = "mayor"; city = some "Mossoro" }

-- A lower case for the texts of these examples
abbrev lower : String → String
lower text = if str_eq text "NATAL" then "natal" else text

enrich_with_region_matcher-Keeps_example :
    let (enriched, counts) =
      enrich_with_region_matcher lower
        (λ h. some mayor_of_mossoro)
        (some "allyson")
        recognised
        matched in
    Keeps recognised enriched
    × (mentions_count lower enriched ≡ counts.ner + counts.matcher + counts.handle)
enrich_with_region_matcher-Keeps_example =
    enrich_with_region_matcher-Keeps lower (λ h. some mayor_of_mossoro) (some "allyson") recognised
      matched

enriched_cities :
    (enrich_with_region_matcher lower
      (λ h. some mayor_of_mossoro)
      (some "allyson")
      recognised
      matched).0.cities
    ≡ "natal" ∷ "Mossoro" ∷ []
unfolding enrich_with_region_matcher with_matcher with_author merge_unique
enriched_cities = refl

from_the_setting : resolve_platform none (some "") "tiktok" ≡ some "tiktok"
unfolding resolve_platform
from_the_setting = refl

no_targets : has_targets ("startUrls" ∷ "usernames" ∷ []) (("usernames", []) ∷ []) ≡ false
unfolding lookup
no_targets = refl

abbrev persons : List (Option String)
persons = some "p1" ∷ some "p1" ∷ some "p1" ∷ some "p1" ∷ some "p1" ∷ some "p2" ∷ []

abbrev viral : SilverRow
viral = record {
  person_id = some "p1";
  likes = some 4000;
  comments = some 900;
  shares = some 300;
  sentiment_overall = some 5000;
}

abbrev halves : Confidences
halves = record {
  compute_confidence = λ fs s. record { num = 1; den = 2 };
  round_4 = λ c. c.num * 10000 / c.den;
}

classifier_inputs-is_alert_example : 5 ≤ count (is_of "p1") persons
unfolding classify result classifier_inputs volume_by_person count_persons lookup insert
classifier_inputs-is_alert_example = classifier_inputs-is_alert halves viral persons refl
