-- ===== src/Scraper/State.antt =====
-- pipelines/mapear-rss/src/mapear_rss/extraction/scraper.py and diagnostics.py: what the scraper
-- keeps, what it uses, and its counters.
use mapear_rn.Base.{
  ℕ, ◌+◌, String, Bool, false, Option, none, some, List, [], ◌∷◌, ◌++◌, Dict, lookup, insert,
  get_or, contains, if◌then◌else◌,
}
use mapear_rn.Cooldown.{DomainCooldown}
use mapear_rn.Deduplicator.{RawArticle}

-- The article that the parser makes of a page, with the length of its content
pub record ParsedArticle : Type 0 where
  pub article : RawArticle
  pub content_chars : ℕ

-- What the scraper is given: the methods of its `CircuitBreakerProtocol`, its parser, `urlparse`'s
-- netloc, `str.lower`, and the prefix of a body that is looked at. In a coroutine the breaker's
-- methods return and every URL has a netloc; an exception there ends the coroutine.
pub record Services : Type 1 where
  pub Breaker : Type 0
  pub is_allowed : String → Breaker → Bool × Breaker
  pub tell_success : String → Breaker → Breaker
  pub tell_failure : String → Breaker → Breaker
  pub parse : String → String → Option ParsedArticle
  pub netloc : String → String
  pub lower : String → String
  pub sample : String → String

pub record Settings : Type 0 where
  pub respect_robots : Bool
  pub block_detection_enabled : Bool
  pub retry_overrides : Dict ℕ
  -- `camoufox_enabled and self._camoufox is not None`, and the same for Playwright
  pub has_camoufox : Bool
  pub has_browser : Bool
  pub browser_targets : List String
  -- `FORCE_SCRAPE` of the environment
  pub force_scrape : Option String

-- `DiagnosticRecord`, without its telemetry: latency, headers, hashes, user agent
pub record DiagnosticRecord : Type 0 where
  pub url : String
  pub domain : String
  pub attempt : ℕ
  pub stage : String
  pub status_code : Option ℕ
  pub is_blocked : Bool
  pub extracted_chars : ℕ
  pub extraction_success : Bool
  pub error_type : Option String

-- `Counter` of the attempts, successes and failures of a browser
pub record RenderCounts : Type 0 where
  pub attempts : ℕ
  pub success : ℕ
  pub failed : ℕ

pub record ScraperState (B : Type 0) : Type 0 where
  pub cb : B
  pub cooldown : DomainCooldown
  pub failure_reasons : Dict ℕ
  pub deferred_urls : List String
  pub records : List DiagnosticRecord
  pub retries_total : ℕ
  pub parser_recovery : List (String × String)
  pub camoufox_counts : RenderCounts
  pub browser_counts : RenderCounts

-- `counter[reason] += 1`
abbrev pub bump : String → Dict ℕ → Dict ℕ
bump k counts = insert k (get_or (lookup k counts) 0 + 1) counts

module _ {B : Type 0} where
  abbrev pub count_failure : String → ScraperState B → ScraperState B
  count_failure reason s = record s { failure_reasons = bump reason s.failure_reasons }

  -- `diagnostics.record`
  abbrev pub note_record : DiagnosticRecord → ScraperState B → ScraperState B
  note_record r s = record s { records = s.records ++ r ∷ [] }

  abbrev pub note_retry : ScraperState B → ScraperState B
  note_retry s = record s { retries_total = s.retries_total + 1 }

  -- `deferred_urls.add`
  abbrev pub defer : String → ScraperState B → ScraperState B
  defer url s = record s {
    deferred_urls = if contains url s.deferred_urls then s.deferred_urls else url ∷ s.deferred_urls;
  }

-- A record of a URL that is given up before any fetch
abbrev pub skipped_record : String → String → String → String → DiagnosticRecord
skipped_record url domain stage error = record {
  url = url;
  domain = domain;
  attempt = 0;
  stage = stage;
  status_code = none;
  is_blocked = false;
  extracted_chars = 0;
  extraction_success = false;
  error_type = some error;
}
