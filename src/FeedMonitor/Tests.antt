-- ===== src/FeedMonitor/Tests.antt =====
-- Two checks in a row of a feed that times out and of one that answers.
use mapear_rn.Frontier.{Frontier}
use mapear_rn.Frontier.Rows.{Row, Status, completed, pending}
use mapear_rn.Base.{
  ◌+◌, String, ◌≡◌, refl, true, none, some, List, [], ◌∷◌, arith, All, length, str_eq,
  if◌then◌else◌, map, lookup, insert,
}
use mapear_rn.FeedMonitor.{
  HeadOutcome, responded, timed_out, FeedHealth, FeedSource, check_feed, check_each,
  load_consecutive_failures, persist_health, check_all,
}
use mapear_rn.FeedMonitor.History.{Reported, check_all-bound}

abbrev two_sources : List FeedSource
two_sources =
    record {
      url = "u1";
      is_active = true;
      last_error = none;
      last_fetched_at = none;
      updated_at = 0;
    }
    ∷ record {
      url = "u2";
      is_active = true;
      last_error = some "HTTP 500";
      last_fetched_at = none;
      updated_at = 0;
    }
    ∷ []

abbrev two_feeds : List (String × String)
two_feeds = ("one", "u1") ∷ ("two", "u2") ∷ []

abbrev answers : String → HeadOutcome
answers u = if str_eq u "u1" then timed_out else responded 200 80

failures_in_two_runs :
    let (first, table) = check_all 3 (λ u. 10) answers two_feeds (some two_sources) in
    let (second, table') = check_all 3 (λ u. 20) answers two_feeds table in
    map (λ (h : FeedHealth). h.consecutive_failures) second.feeds ≡ 2 ∷ 0 ∷ []
unfolding check_all check_each check_feed load_consecutive_failures persist_health lookup insert
failures_in_two_runs = refl

check_all-bound_example :
    let (report, table') = check_all 3 (λ u. 10) answers two_feeds (some two_sources) in
    All Reported report.feeds
    × (report.unhealthy ≡ [])
    × (report.available_feeds + report.unavailable_feeds ≡ length two_feeds)
check_all-bound_example =
    check_all-bound 3 (λ u. 10) answers two_feeds (some two_sources) (omega arith)

abbrev found_row : String → Status → Row
found_row feed status = record {
  id = 1;
  url = "a";
  source_feed = feed;
  status = status;
  title = none;
  published_at = none;
  discovered_at = 302400;
  last_attempt_at = none;
  attempt_count = 1;
  content_hash = none;
  recirculated_at = none;
  updated_at = 302400;
}

-- A row completed at noon of day 3, and one that is pending.
abbrev day_rows : Frontier
day_rows = record {
  rows = found_row "u1" completed ∷ found_row "u1" pending ∷ found_row "u2" completed ∷ [];
  next_id = 4;
  failed_articles = [];
}
