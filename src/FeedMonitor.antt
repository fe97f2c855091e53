-- ===== src/FeedMonitor.antt =====
-- pipelines/mapear-rss/src/mapear_rss/monitoring/feed_health.py: is a feed available, and how many
-- times in a row has it failed. What the HEAD request does is an argument, for each feed; a message
-- is the text that the source keeps of it. The table is `feed_sources` of pipelines/mapear-rss/
-- scripts/init_db.sql.
pub mod History
pub mod Volumes
mod Tests
use mapear_rn.ClusterTracker.{Fraction}
use mapear_rn.Frontier.{Frontier}
use mapear_rn.Frontier.Rows.{Row, completed, status_eq}
use mapear_rn.Parallel.Report.{sum}
use mapear_rn.Base.{
  ◌/◌, ◌==◌, ℕ, ◌+◌, ◌-◌, String, Bool, true, false, ◌&&◌, not, Option, none, some, List, [], ◌∷◌,
  ltb, leb, str_eq, if◌then◌else◌, length, select, Dict, lookup, insert, get_or, join, show,
}

-- A response with its status and the milliseconds it took, a timeout, or another exception.
pub data HeadOutcome : Type 0 where
  responded : ℕ → ℕ → HeadOutcome
  timed_out : HeadOutcome
  raised : String → HeadOutcome

pub record FeedHealth : Type 0 where
  pub name : String
  pub url : String
  pub is_available : Bool
  pub response_time_ms : Option ℕ
  pub http_status : Option ℕ
  pub checked_at : ℕ
  pub consecutive_failures : ℕ
  pub error_message : Option String

pub record FeedHealthReport : Type 0 where
  pub total_feeds : ℕ
  pub available_feeds : ℕ
  pub unavailable_feeds : ℕ
  pub feeds : List FeedHealth
  pub avg_response_time_ms : Option Fraction
  pub unhealthy : List String

-- A row of `feed_sources`, as far as the monitor reads and writes it
pub record FeedSource : Type 0 where
  pub url : String
  pub is_active : Bool
  pub last_error : Option String
  pub last_fetched_at : Option ℕ
  pub updated_at : ℕ

abbrev pub unavailable : ℕ → String → String → String → FeedHealth
unavailable now name url message = record {
  name = name;
  url = url;
  is_available = false;
  response_time_ms = none;
  http_status = none;
  checked_at = now;
  consecutive_failures = 0;
  error_message = some message;
}

unfoldable pub check_feed : ℕ → HeadOutcome → String → String → FeedHealth
check_feed now (responded status ms) name url = record {
  name = name;
  url = url;
  is_available = ltb status 400;
  response_time_ms = some ms;
  http_status = some status;
  checked_at = now;
  consecutive_failures = 0;
  error_message = if ltb status 400 then none else some (join "HTTP " (show status));
}
check_feed now timed_out name url = unavailable now name url "timeout"
check_feed now (raised message) name url = unavailable now name url message

-- `1 if row.last_error else 0`: no text and the empty text are false.
abbrev pub past_failure : Option String → ℕ
past_failure none = 0
past_failure (some e) = if str_eq e "" then 0 else 1

-- `{row.url: … for row in rows}` over the active rows
load_rows : List FeedSource → Dict ℕ → Dict ℕ
load_rows [] acc = acc
load_rows (r ∷ rows) acc =
    let next = load_rows rows (insert r.url (past_failure r.last_error) acc) in
    let skip = load_rows rows acc in if r.is_active then next else skip

-- No engine and a failed query, none, give an empty history.
unfoldable pub load_consecutive_failures : Option (List FeedSource) → Dict ℕ
unfolding load_rows
load_consecutive_failures none = []
load_consecutive_failures (some rows) = load_rows rows []

abbrev pub count_failure : ℕ → FeedHealth → FeedHealth
count_failure prior h = record h {
  consecutive_failures = prior + (if h.is_available then 0 else 1);
}

-- The loop over the feeds
unfoldable pub check_each :
    (String → ℕ) → (String → HeadOutcome) → Dict ℕ → List (String × String) → List FeedHealth
check_each clock head past [] = []
check_each clock head past ((name, url) ∷ feeds) =
    count_failure (get_or (lookup url past) 0) (check_feed (clock url) (head url) name url)
    ∷ check_each clock head past feeds

abbrev pub unhealthy_names : ℕ → List FeedHealth → List String
unhealthy_names threshold [] = []
unhealthy_names threshold (h ∷ hs) =
    let rest = unhealthy_names threshold hs in
    if leb threshold h.consecutive_failures then h.name ∷ rest else rest

-- One `UPDATE … WHERE url = :url`
abbrev pub update_source : FeedHealth → FeedSource → FeedSource
update_source h r =
    if str_eq r.url h.url
    then record r {
      last_fetched_at = some h.checked_at;
      last_error = if h.is_available then none else h.error_message;
      updated_at = h.checked_at;
    }
    else r

abbrev pub update_sources : FeedHealth → List FeedSource → List FeedSource
update_sources h [] = []
update_sources h (r ∷ rows) = update_source h r ∷ update_sources h rows

unfoldable pub persist_health : List FeedHealth → List FeedSource → List FeedSource
persist_health [] rows = rows
persist_health (h ∷ hs) rows = persist_health hs (update_sources h rows)

abbrev pub persist : List FeedHealth → Option (List FeedSource) → Option (List FeedSource)
persist hs none = none
persist hs (some rows) = some (persist_health hs rows)

-- The times of the available feeds that have one
unfoldable pub response_times : List FeedHealth → List ℕ
response_times [] = []
response_times (h ∷ hs) = elim h.response_time_ms [
  | none ↦ response_times hs
  | some ms ↦ let rest = response_times hs in if h.is_available then ms ∷ rest else rest
]

-- Before the rounding to one digit
abbrev pub average : List ℕ → Option Fraction
average [] = none
average (t ∷ times) = some record { num = sum (t ∷ times); den = length (t ∷ times) }

-- The report, with the table afterwards
unfoldable pub check_all :
    ℕ
    → (String → ℕ)
    → (String → HeadOutcome)
    → List (String × String)
    → Option (List FeedSource)
    → FeedHealthReport × Option (List FeedSource)
check_all threshold clock head feeds table =
    let results = check_each clock head (load_consecutive_failures table) feeds in
    let available = length (select (λ (h : FeedHealth). h.is_available) results) in
    (
      record {
        total_feeds = length results;
        available_feeds = available;
        unavailable_feeds = length results - available;
        feeds = results;
        avg_response_time_ms = average (response_times results);
        unhealthy = unhealthy_names threshold results;
      },
      persist results table,
    )

-- Completed, and discovered on this UTC day
abbrev pub is_of_day : ℕ → Row → Bool
is_of_day day r = (r.discovered_at / 86400 == day) && status_eq r.status completed

count_feeds : ℕ → List Row → Dict ℕ → Dict ℕ
count_feeds day [] counts = counts
count_feeds day (r ∷ rows) counts =
    let next =
      count_feeds day rows
        (insert r.source_feed (get_or (lookup r.source_feed counts) 0 + 1) counts) in
    let skip = count_feeds day rows counts in if is_of_day day r then next else skip

-- `GROUP BY source_feed`; without an engine, and after a failed query, nothing.
unfoldable pub get_daily_volumes : Option Frontier → ℕ → Dict ℕ
unfolding count_feeds
get_daily_volumes none day = []
get_daily_volumes (some f) day = count_feeds day f.rows []

pub record FeedSummary : Type 0 where
  pub health : FeedHealth
  pub daily_volume : ℕ

abbrev pub summarise : Dict ℕ → List FeedHealth → List FeedSummary
summarise volumes [] = []
summarise volumes (h ∷ hs) =
    record { health = h; daily_volume = get_or (lookup h.url volumes) 0 } ∷ summarise volumes hs

-- The `per_feed` entries of the summary; its other entries are those of the report.
unfoldable pub build_report : FeedHealthReport → Dict ℕ → List FeedSummary
build_report report volumes = summarise volumes report.feeds
