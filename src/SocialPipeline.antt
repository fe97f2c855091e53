-- ===== src/SocialPipeline.antt =====
-- pipelines/mapear-social/src/mapear_social/pipeline.py: the stages of a social platform's run that do
-- not call a service. An adapter's `parse_item`, the text matcher and the table of politicians are
-- arguments.
pub mod Regions
pub mod Inputs
mod Alerts
mod Parsed
mod Enriched
mod Volumes
mod Tests
use text.Mathlib.Text.{starts_with}
use mapear_rn.Base.{
  ℕ, ◌+◌, String, Bool, true, false, not, Option, none, some, List, [], ◌∷◌, length, contains, leb,
  str_eq, if◌then◌else◌, Dict, lookup, insert, get_or,
}

-- An item of the actor's dataset: its keys and its JSON text
pub record RawItem : Type 0 where
  pub keys : List String
  pub body : String

-- The fields of `SocialPost` that the stages read
pub record SocialPost : Type 0 where
  pub post_id : String
  pub author_handle : Option String
  pub text : String

-- What `adapter.parse_item` does with an item
pub data ParsedItem : Type 0 where
  post : SocialPost → ParsedItem
  schema_drift : String → ParsedItem
  crashed : ParsedItem

-- An entry for the dead letters, without the text of its error and its time
pub record DlqEntry : Type 0 where
  pub platform : String
  pub actor_run_id : String
  pub ingestion_run_id : String
  pub reason : String
  pub raw : RawItem

pub record Run : Type 0 where
  pub platform : String
  pub actor_id : String
  pub actor_run_id : String
  pub ingestion_run_id : String

abbrev pub dlq_entry : Run → String → RawItem → DlqEntry
dlq_entry run reason raw = record {
  platform = run.platform;
  actor_run_id = run.actor_run_id;
  ingestion_run_id = run.ingestion_run_id;
  reason = reason;
  raw = raw;
}

abbrev pub drift_reason : String → String
drift_reason err =
    if starts_with err "page_unavailable:"
    then "page_unavailable"
    else if starts_with err "non_post_item:"
    then "non_post_item"
    else "schema_drift"

abbrev pub sort_out :
    Run → RawItem → ParsedItem → List SocialPost × List DlqEntry → List SocialPost × List DlqEntry
sort_out run raw (post p) (parsed, dlq) = (p ∷ parsed, dlq)
sort_out run raw (schema_drift err) (parsed, dlq) =
    (parsed, dlq_entry run (drift_reason err) raw ∷ dlq)
sort_out run raw crashed (parsed, dlq) = (parsed, dlq_entry run "parse_error" raw ∷ dlq)

-- `_parse_social_posts`: an item with at most two keys is not parsed.
unfoldable pub parse_social_posts :
    (RawItem → ParsedItem) → Run → List RawItem → List SocialPost × List DlqEntry
parse_social_posts parse_item run [] = ([], [])
parse_social_posts parse_item run (raw ∷ items) =
    let rest = parse_social_posts parse_item run items in
    if leb (length raw.keys) 2
    then (rest.0, dlq_entry run "non_post_item" raw ∷ rest.1)
    else sort_out run raw (parse_item raw) rest

-- The record of the table of dead letters
pub record DlqRecord : Type 0 where
  pub ingestion_run_id : String
  pub platform : String
  pub actor_id : String
  pub actor_run_id : String
  pub error_type : String
  pub raw_payload_json : String

unfoldable pub dlq_entries_to_records : List DlqEntry → String → List DlqRecord
dlq_entries_to_records [] actor_id = []
dlq_entries_to_records (entry ∷ dlq) actor_id =
    record {
      ingestion_run_id = entry.ingestion_run_id;
      platform = entry.platform;
      actor_id = actor_id;
      actor_run_id = entry.actor_run_id;
      error_type = entry.reason;
      raw_payload_json = entry.raw.body;
    }
    ∷ dlq_entries_to_records dlq actor_id

-- The loop of `_dedup_intra_batch`, with what was seen
unfoldable pub dedup_from : List String → List SocialPost → List SocialPost
dedup_from seen [] = []
dedup_from seen (p ∷ posts) =
    let skipped = dedup_from seen posts in
    let kept = dedup_from (p.post_id ∷ seen) posts in
    if contains p.post_id seen then skipped else p ∷ kept

unfoldable pub dedup_intra_batch : List SocialPost → List SocialPost
dedup_intra_batch posts = dedup_from [] posts

-- `_volume_by_person`, of the persons of the rows; an empty or missing one is not counted.
unfoldable pub count_persons : List (Option String) → Dict ℕ → Dict ℕ
count_persons [] counts = counts
count_persons (row ∷ rows) counts =
    let pid = get_or row "" in
    count_persons rows
      (if str_eq pid "" then counts else insert pid (get_or (lookup pid counts) 0 + 1) counts)

unfoldable pub volume_by_person : List (Option String) → Dict ℕ
volume_by_person rows = count_persons rows []

-- `any(bool(payload.get(k)) for k in _PAYLOAD_LIST_KEYS)`: false where the run exits with code 5.
abbrev pub has_targets : List String → Dict (List String) → Bool
has_targets [] payload = false
has_targets (k ∷ keys) payload = elim (get_or (lookup k payload) []) [
  | [] ↦ has_targets keys payload
  | x ∷ xs ↦ true
]

abbrev pub platforms : List String
platforms = "facebook" ∷ "instagram" ∷ "x" ∷ "tiktok" ∷ []

-- `cli_platform or os.environ.get("SOCIAL_PLATFORM") or settings.platform`
abbrev pub first_of : Option String → String → String
first_of o rest = if str_eq (get_or o "") "" then rest else get_or o ""

-- `_resolve_platform`, none for a `SystemExit`
unfoldable pub resolve_platform : Option String → Option String → String → Option String
resolve_platform cli_platform environ setting =
    let platform = first_of cli_platform (first_of environ setting) in
    if contains platform platforms then some platform else none
