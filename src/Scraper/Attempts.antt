-- ===== src/Scraper/Attempts.antt =====
-- pipelines/mapear-rss/src/mapear_rss/extraction/scraper.py, `_async_scrape_one`: one URL, with its
-- guards and its retries. The semaphores and the random delays only order the runs of the URLs.
use mapear_rn.Base.{
  ℕ, zero, suc, ◌+◌, String, Bool, true, false, ◌&&◌, ◌||◌, not, Option, none, some, leb, max,
  str_eq, if◌then◌else◌, lookup, get_or, is_in,
}
use mapear_rn.ErrorClass.{
  ErrorClass, bot_block, rate_limit, class_eq, error_class_for, retry_budget,
}
use mapear_rn.Cooldown.{is_cool, record_block, record_success}
use mapear_rn.BlockDetector.{BlockSignals, no_signals, blocked, detect, classify_failure}
use mapear_rn.Scraper.State.{
  ParsedArticle, Services, Settings, DiagnosticRecord, ScraperState, count_failure, note_record,
  note_retry, defer, skipped_record,
}
use mapear_rn.Scraper.Rendering.{BrowserFetchResult, try_browser_fallbacks}

-- How a request ends: with a timeout or another HTTP error, named by its exception's type, with an
-- exception that nothing catches, or with a response.
pub data Fetch : Type 0 where
  timed_out : String → Fetch
  http_error : String → Fetch
  unexpected : Fetch
  responded : BrowserFetchResult → Fetch

-- What happens at one attempt: the clock's readings in the cool-down, the request, the browsers.
pub record Attempt : Type 0 where
  pub checked_at : ℕ
  pub fetch : Fetch
  pub blocked_at : ℕ
  pub camoufox_page : Option BrowserFetchResult
  pub browser_page : Option BrowserFetchResult

-- An attempt returns, raises, or is followed by another.
pub data Step (B : Type 0) : Type 0 where
  finished : Option ParsedArticle → ScraperState B → Step B
  escaped : ScraperState B → Step B
  again : ScraperState B → Step B

-- What the coroutine of a URL ends with.
pub data Scraped : Type 0 where
  found : ParsedArticle → Scraped
  nothing : Scraped
  failed : Scraped

abbrev pub result_of : Option ParsedArticle → Scraped
result_of none = nothing
result_of (some a) = found a

abbrev pub is_parking : ErrorClass → Bool
is_parking cls = class_eq cls bot_block || class_eq cls rate_limit

module _ (env : Services) (config : Settings) (url : String) where
  abbrev pub attempt_record :
      ℕ → String → Option ℕ → Bool → ℕ → Bool → Option String → DiagnosticRecord
  attempt_record k stage status is_blocked chars success error = record {
    url = url;
    domain = env.netloc url;
    attempt = k;
    stage = stage;
    status_code = status;
    is_blocked = is_blocked;
    extracted_chars = chars;
    extraction_success = success;
    error_type = error;
  }

  abbrev pub tell_failed : ScraperState env.Breaker → ScraperState env.Breaker
  tell_failed s = record s { cb = env.tell_failure url s.cb }

  abbrev pub park :
      String → Option ErrorClass → ℕ → ScraperState env.Breaker → ScraperState env.Breaker
  park error cls now s = record s {
    cooldown = (record_block env.netloc url error cls now s.cooldown).1;
  }

  abbrev pub recovered : Attempt → ScraperState env.Breaker → Step env.Breaker
  recovered t s =
      let (a, s') = try_browser_fallbacks env config url t.camoufox_page t.browser_page s in
      finished a s'

  -- The `except` branches of a request
  unfoldable pub on_transport_error :
      String → String → ℕ → ScraperState env.Breaker → Step env.Breaker
  on_transport_error error exception k s =
      let label = classify_failure env.lower none no_signals 0 (some exception) in
      let noted = note_record (attempt_record k "fetch" none false 0 false (some label)) s in
      if leb (retry_budget error (some config.retry_overrides)) k
      then finished none (count_failure error (tell_failed noted))
      else again (note_retry noted)

  -- A status of 400 or more
  unfoldable pub on_bad_status :
      Attempt → BrowserFetchResult → BlockSignals → ℕ → ScraperState env.Breaker → Step env.Breaker
  on_bad_status t r signals k s =
      let error = classify_failure env.lower (some r.status_code) signals 0 none in
      let cls = error_class_for (some error) in
      let noted = count_failure error (
        note_record
          (attempt_record k "fetch" (some r.status_code) (blocked signals) 0 false (some error))
          s) in
      let parked = if is_parking cls then park error (some cls) t.blocked_at noted else noted in
      if leb (retry_budget error (some config.retry_overrides)) k
      then if class_eq cls bot_block
        then recovered t (tell_failed parked)
        else finished none (tell_failed parked)
      else again (note_retry parked)

  -- A page that is not HTML
  unfoldable pub on_non_html :
      BrowserFetchResult → BlockSignals → ℕ → ScraperState env.Breaker → Step env.Breaker
  on_non_html r signals k s = finished none (
      count_failure "non_html" (
        note_record
          (attempt_record k "fetch" (some r.status_code) (blocked signals) 0 false
            (some "non_html"))
          s))

  -- A block that came with a good status
  unfoldable pub on_blocked_page :
      Attempt → BrowserFetchResult → ℕ → ScraperState env.Breaker → Step env.Breaker
  on_blocked_page t r k s = recovered t (
      tell_failed (
        park "blocked_bot" (some bot_block) t.blocked_at (
          count_failure "blocked_bot" (
            note_record
              (attempt_record k "fetch" (some r.status_code) true 0 false (some "blocked_bot"))
              s))))

  abbrev pub park_parse_failure : String → Attempt → ScraperState env.Breaker → Step env.Breaker
  park_parse_failure error t s =
      finished none (park error (some (error_class_for (some error))) t.blocked_at s)

  -- The parse stage
  unfoldable pub on_parsed :
      Attempt
      → BrowserFetchResult
      → BlockSignals
      → ℕ
      → Option ParsedArticle
      → ScraperState env.Breaker
      → Step env.Breaker
  on_parsed t r signals k (some a) s =
      let noted =
        note_record
          (attempt_record k "parse" (some r.status_code) (blocked signals) a.content_chars true
            none)
          s in
      finished (some a) (record noted {
        cb = env.tell_success url noted.cb;
        cooldown = record_success env.netloc url noted.cooldown;
      })
  on_parsed t r signals k none s =
      let error = classify_failure env.lower (some r.status_code) signals 0 none in
      let noted = count_failure "parse_error" (
        note_record
          (attempt_record k "parse" (some r.status_code) (blocked signals) 0 false (some error))
          s) in
      let (a, tried) = try_browser_fallbacks env config url t.camoufox_page t.browser_page noted in
      let rescued : Step env.Breaker = elim a [
        | some b ↦ finished (some b) tried
        | none ↦ park_parse_failure error t tried
      ] in
      if str_eq error "selector_missing" then rescued else park_parse_failure error t noted

  unfoldable pub on_response :
      Attempt → BrowserFetchResult → ℕ → ScraperState env.Breaker → Step env.Breaker
  unfolding on_bad_status on_non_html on_blocked_page on_parsed
  on_response t r k s =
      let signals =
        if config.block_detection_enabled
        then detect env.lower (some r.status_code) r.headers (some (env.sample r.html))
        else no_signals in
      if leb 400 r.status_code
      then on_bad_status t r signals k s
      else if not (is_in "text/html" (get_or (lookup "content-type" r.headers) ""))
      then on_non_html r signals k s
      else if blocked signals
      then on_blocked_page t r k s
      else on_parsed t r signals k (env.parse r.html r.final_url) s

  unfoldable pub on_fetch : Attempt → Fetch → ℕ → ScraperState env.Breaker → Step env.Breaker
  on_fetch t (timed_out name) k s = on_transport_error "timeout" name k s
  on_fetch t (http_error name) k s = on_transport_error "connection_reset" name k s
  on_fetch t unexpected k s = escaped s
  on_fetch t (responded r) k s = on_response t r k s

  -- The body of the retry loop
  unfoldable pub one_attempt : Attempt → ℕ → ScraperState env.Breaker → Step env.Breaker
  unfolding on_fetch
  one_attempt t k s =
      let (cool, c) = is_cool env.netloc config.force_scrape t.checked_at url s.cooldown in
      let asked = record s { cooldown = c } in
      if cool
      then on_fetch t t.fetch k asked
      else finished none (defer url (count_failure "cooldown_skip" asked))

  -- `for attempt in range(k, k + rounds)`
  unfoldable pub attempts :
      (ℕ → Attempt) → ℕ → ℕ → ScraperState env.Breaker → Scraped × ScraperState env.Breaker
  attempts world zero k s = (nothing, s)
  attempts world (suc rounds) k s = elim (one_attempt (world k) k s) [
    | finished a s' ↦ (result_of a, s')
    | escaped s' ↦ (failed, s')
    | again s' ↦ attempts world rounds (k + 1) s'
  ]

  -- `max(budget_blocked, budget_transient)`
  abbrev pub max_attempts : ℕ
  max_attempts =
      max (get_or (lookup "blocked_bot" config.retry_overrides) 1)
        (get_or (lookup "timeout" config.retry_overrides) 3)

  -- A URL that is given up, with its reason and its record
  abbrev pub give_up :
      String → String → String → ScraperState env.Breaker → ScraperState env.Breaker
  give_up reason stage error s =
      count_failure reason (note_record (skipped_record url (env.netloc url) stage error) s)

  -- `_async_scrape_one` of a resolved URL: the answer of robots.txt, the clock at the first question,
  -- and the attempts.
  unfoldable pub async_scrape_one :
      Bool → ℕ → (ℕ → Attempt) → ScraperState env.Breaker → Scraped × ScraperState env.Breaker
  async_scrape_one robots_allow now world s =
      let (allowed, cb') = env.is_allowed url s.cb in
      let s₁ = record s { cb = cb' } in
      let (cool, c) = is_cool env.netloc config.force_scrape now url s₁.cooldown in
      let s₂ = record s₁ { cooldown = c } in
      if not allowed
      then (nothing, give_up "circuit_breaker" "circuit_open" "circuit_open" s₁)
      else if config.respect_robots && not robots_allow
      then (nothing, give_up "robots_txt" "robots_blocked" "robots_txt" s₁)
      else if not cool
      then (nothing, defer url (give_up "cooldown_skip" "cooldown_skip" "cooldown_skip" s₂))
      else attempts world max_attempts 1 s₂
