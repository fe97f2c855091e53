-- ===== src/Scraper/Tests.antt =====
-- The scraper's theorems at a site that first times out and then answers, and runs of it.
use mapear_rn.Base.{
  ℕ, ◌+◌, String, Bool, true, false, ◌≡◌, refl, none, some, List, [], ◌∷◌, arith, ltb, is_in,
  if◌then◌else◌, lookup, insert, ◌⊎◌,
}
use text.Mathlib.Text.{find?}
use mapear_rn.Scraper.Redirects.{IsBehind, resolve_redirect_url-IsBehind}
use mapear_rn.Cooldown.{DomainCooldown, is_cool}
use mapear_rn.ErrorClass.{retry_budget}
use mapear_rn.BlockDetector.{blocked, detect, first_marker}
use mapear_rn.Scraper.State.{
  ParsedArticle, Services, Settings, ScraperState, RenderCounts, DiagnosticRecord,
}
use mapear_rn.Scraper.Rendering.{BrowserFetchResult, try_browser_fallbacks}
use mapear_rn.Scraper.Attempts.{
  Fetch, timed_out, responded, Attempt, found, attempts, one_attempt, on_transport_error,
  on_response, async_scrape_one,
}
use mapear_rn.Scraper.Rendered.{Rendered, try_browser_fallbacks-Rendered}
use mapear_rn.Scraper.Retries.{IsReported, IsDeferredOnly, IsBounded}
use mapear_rn.Scraper.Budgets.{IsWithin, retry_overrides_of}
use mapear_rn.Scraper.Ends.{IsDecided}
use mapear_rn.Scraper.Verdicts.{
  permitted, async_scrape_one-IsReported, async_scrape_one-IsDeferredOnly,
  async_scrape_one-IsBounded, async_scrape_one-retries,
}
use mapear_rn.Scraper.Batches.{
  SyncServices, SyncItem, returned, bad_status, raised, on_sync_fetch, on_cool, on_robots,
  on_allowed, scrape_url, scrape_batch_sync, resolve_redirect_url,
}
use mapear_rn.Scraper.Accounts.{IsAccounted, scrape_batch_sync-sum_values}
use mapear_rn.Scraper.Reports.{stats_of, per_domain, FetchCounters}
use mapear_rn.Scraper.Tallies.{per_domain-counts}

abbrev article : ParsedArticle
article = record {
  article = record { url = "http://a"; content_hash = "1"; source_feed = "g1" };
  content_chars = 900;
}

-- A breaker that opens at three failures in a row, and a parser that wants an `<article>`
abbrev site : Services
site = record {
  Breaker = ℕ;
  is_allowed = λ url b. (ltb b 3, b);
  tell_success = λ url b. 0;
  tell_failure = λ url b. b + 1;
  parse = λ html url. if is_in "<article>" html then some article else none;
  netloc = λ url. "a";
  lower = λ text. text;
  sample = λ html. html;
}

abbrev config : Settings
config = record {
  respect_robots = true;
  block_detection_enabled = true;
  retry_overrides = retry_overrides_of 1 3;
  has_camoufox = true;
  has_browser = true;
  browser_targets = "a" ∷ [];
  force_scrape = none;
}

abbrev cold : DomainCooldown
cold = record {
  base_seconds = 7200;
  max_seconds = 14400;
  growth_factor = 2;
  rate_limit_base_seconds = 900;
  rate_limit_max_seconds = 3600;
  parser_hard_seconds = 21600;
  trigger_threshold = 2;
  parser_hard_trigger = 1;
  parser_disabled = true;
  states = [];
  applied_count = 0;
  reason_distribution = λ c. 0;
}

abbrev no_renders : RenderCounts
no_renders = record { attempts = 0; success = 0; failed = 0 }

abbrev start : ScraperState ℕ
start = record {
  cb = 1;
  cooldown = cold;
  failure_reasons = [];
  deferred_urls = [];
  records = [];
  retries_total = 0;
  parser_recovery = [];
  camoufox_counts = no_renders;
  browser_counts = no_renders;
}

abbrev page : BrowserFetchResult
page = record {
  status_code = 200;
  html = "<html><body><article>text of the article</article></body></html>";
  headers = ("content-type", "text/html; charset=utf-8") ∷ [];
  final_url = "http://a";
  error = none;
}

abbrev attempt_with : Fetch → Attempt
attempt_with f = record {
  checked_at = 5;
  fetch = f;
  blocked_at = 6;
  camoufox_page = none;
  browser_page = some page;
}

-- The first request times out, the next ones are answered.
abbrev world : ℕ → Attempt
world k = if ltb 1 k then attempt_with (responded page) else attempt_with (timed_out "ReadTimeout")

abbrev url : String
url = "http://a"

after_a_timeout : (async_scrape_one site config url true 4 world start).0 ≡ found article
unfolding async_scrape_one is_cool lookup attempts one_attempt on_transport_error retry_budget
    on_response blocked detect first_marker insert
after_a_timeout = refl

async_scrape_one-IsReported_example :
    IsReported site config url (async_scrape_one site config url true 4 world start)
async_scrape_one-IsReported_example = async_scrape_one-IsReported site config url true 4 world start

async_scrape_one-IsDeferredOnly_example :
    IsDeferredOnly site config url
      (permitted site config url start)
      (async_scrape_one site config url true 4 world start)
async_scrape_one-IsDeferredOnly_example =
    async_scrape_one-IsDeferredOnly site config url true 4 world start

async_scrape_one-IsBounded_example :
    IsBounded site config url 3 start (async_scrape_one site config url true 4 world start)
unfolding lookup
async_scrape_one-IsBounded_example = async_scrape_one-IsBounded site config url true 4 world start

async_scrape_one-retries_example :
    let x = async_scrape_one site config url true 4 world start in
    IsDecided site config url true 4 world 3 start x × IsWithin site config url 3 start x
async_scrape_one-retries_example =
    async_scrape_one-retries site config url 1 3 true 4 world start refl (omega arith)

try_browser_fallbacks-Rendered_example :
    Rendered site url 2 start (try_browser_fallbacks site config url none (some page) start)
try_browser_fallbacks-Rendered_example =
    try_browser_fallbacks-Rendered site url config none (some page) start

abbrev batch : List SyncItem
batch =
    record { url = url; robots_allow = some true; now = 5; fetch = returned (some article) }
    ∷ record { url = "r/*https://b"; robots_allow = some true; now = 5; fetch = bad_status 404 }
    ∷ record { url = url; robots_allow = some false; now = 5; fetch = returned none }
    ∷ []

-- The same breaker behind a connection that is lost once it is open
abbrev lost_site : SyncServices
lost_site = record {
  Breaker = ℕ;
  is_allowed = λ url b. (if ltb b 3 then some true else none, b);
  tell_success = λ url b. (true, 0);
  tell_failure = λ url b. (true, b + 1);
  netloc = λ url. some "a";
}

-- Two more failures open the breaker, and the third URL breaks the batch.
abbrev lost_batch : List SyncItem
lost_batch =
    record { url = url; robots_allow = some true; now = 5; fetch = raised }
    ∷ record { url = url; robots_allow = some true; now = 5; fetch = bad_status 404 }
    ∷ record { url = url; robots_allow = some true; now = 5; fetch = returned (some article) }
    ∷ []

lost : (scrape_batch_sync lost_site config lost_batch start).0 ≡ none
unfolding scrape_batch_sync scrape_url on_allowed on_robots on_cool on_sync_fetch is_cool lookup
    insert resolve_redirect_url
lost = refl

scrape_batch_sync-sum_values_example :
    IsAccounted lost_site config batch start (scrape_batch_sync lost_site config batch start)
scrape_batch_sync-sum_values_example = scrape_batch_sync-sum_values lost_site config batch start

abbrev tried : String → Bool → Bool → DiagnosticRecord
tried error is_blocked success = record {
  url = url;
  domain = "a";
  attempt = 1;
  stage = "fetch";
  status_code = some 403;
  is_blocked = is_blocked;
  extracted_chars = 0;
  extraction_success = success;
  error_type = some error;
}

per_domain-counts_example :
    let d = stats_of "a" (per_domain (tried "http_403" true false ∷ tried "" false true ∷ [])) in
    (d.attempts ≡ 2)
    × (d.success ≡ 1)
    × (d.blocked ≡ 1)
    × (d.parser_failure ≡ 0)
    × (d.http_error ≡ 1)
per_domain-counts_example =
    per_domain-counts (tried "http_403" true false ∷ tried "" false true ∷ []) "a"

redirected : resolve_redirect_url "http://r/*https://b/c" ≡ "https://b/c"
unfolding resolve_redirect_url
redirected = refl

resolve_redirect_url-IsBehind_example :
    let url : String = "http://r/*https://b/c" in
    ((find? url "/*https://" ≡ none)
      × (find? url "/*http://" ≡ none)
      × (resolve_redirect_url url ≡ url))
    ⊎ (IsBehind "https://" url (resolve_redirect_url url)
        ⊎ ((find? url "/*https://" ≡ none) × IsBehind "http://" url (resolve_redirect_url url)))
resolve_redirect_url-IsBehind_example = resolve_redirect_url-IsBehind "http://r/*https://b/c"

abbrev broken : FetchCounters
broken = record { fetched_main = 4; fetched_retry = 1; extracted_main = 3; extracted_retry = 4 }
