-- ===== src/Scraper/Batches.antt =====
-- pipelines/mapear-rss/src/mapear_rss/extraction/scraper.py: a URL behind a redirector, the
-- synchronous scraping of a URL and of a batch, and what a batch of coroutines hands on.
use Prim.Native.String.{slice, len}
use text.Mathlib.Text.{find?}
use mapear_rn.Base.{
  ℕ, ◌+◌, String, Bool, true, false, Option, none, some, List, [], ◌∷◌, if◌then◌else◌, join, show,
}
use mapear_rn.Cooldown.{DomainCooldown, is_forced, is_cool, record_success}
use mapear_rn.Scraper.State.{ParsedArticle, Services, Settings, ScraperState, count_failure, defer}
use mapear_rn.Scraper.Attempts.{Scraped, found, nothing, failed}

-- `url[idx + 2:]`, if the marker was found
abbrev pub tail_from : Option ℕ → String → String → String
tail_from none url rest = rest
tail_from (some i) url rest = slice url (i + 2) (len url)

-- What stands behind the first of the markers that the URL has, without the marker's two characters
unfoldable pub first_behind : List String → String → String
first_behind [] url = url
first_behind (marker ∷ markers) url = tail_from (find? url marker) url (first_behind markers url)

unfoldable pub resolve_redirect_url : String → String
unfolding first_behind
resolve_redirect_url url = first_behind ("/*https://" ∷ "/*http://" ∷ []) url

-- What the synchronous scraping is given. The breaker's methods can raise, a lost connection to
-- Redis for one: no answer, or false, stands for that. `urlparse` has no netloc for what it refuses.
pub record SyncServices : Type 1 where
  pub Breaker : Type 0
  pub is_allowed : String → Breaker → Option Bool × Breaker
  pub tell_success : String → Breaker → Bool × Breaker
  pub tell_failure : String → Breaker → Bool × Breaker
  pub netloc : String → Option String

-- How `_fetch_and_parse` ends, its retries on network errors included: it returns, or raises an
-- error of the status, a timeout, or another exception.
pub data SyncFetch : Type 0 where
  returned : Option ParsedArticle → SyncFetch
  bad_status : ℕ → SyncFetch
  timed_out raised : SyncFetch

-- A URL of a batch, with what robots.txt, the clock and the network answer; no answer of
-- `_is_allowed_by_robots` stands for an exception.
pub record SyncItem : Type 0 where
  pub url : String
  pub robots_allow : Option Bool
  pub now : ℕ
  pub fetch : SyncFetch

-- `scrape_url` returns, or an exception leaves it.
pub data SyncResult : Type 0 where
  ended : Option ParsedArticle → SyncResult
  broke : SyncResult

-- `if article: articles.append(article)`
abbrev pub keep_article : Option ParsedArticle → List ParsedArticle → List ParsedArticle
keep_article none rest = rest
keep_article (some a) rest = a ∷ rest

module _ (env : SyncServices) (config : Settings) where
  -- An `except` branch: the breaker is told first, and may raise.
  abbrev pub on_sync_error :
      String → String → ScraperState env.Breaker → SyncResult × ScraperState env.Breaker
  on_sync_error url reason s =
      let (done, cb') = env.tell_failure url s.cb in
      let told = record s { cb = cb' } in
      if done then (ended none, count_failure reason told) else (broke, told)

  abbrev pub cleared :
      String
      → Option String
      → ParsedArticle
      → ScraperState env.Breaker
      → SyncResult × ScraperState env.Breaker
  cleared url none a s = on_sync_error url "other" s
  cleared url (some domain) a s =
      (ended (some a), record s { cooldown = record_success (λ u. domain) url s.cooldown })

  -- Both reports of a success stand in the `try`.
  abbrev pub on_article :
      String → ParsedArticle → ScraperState env.Breaker → SyncResult × ScraperState env.Breaker
  on_article url a s =
      let (done, cb') = env.tell_success url s.cb in
      let told = record s { cb = cb' } in
      if done then cleared url (env.netloc url) a told else on_sync_error url "other" told

  unfoldable pub on_sync_fetch :
      String → SyncFetch → ScraperState env.Breaker → SyncResult × ScraperState env.Breaker
  on_sync_fetch url (returned (some a)) s = on_article url a s
  on_sync_fetch url (returned none) s = (ended none, count_failure "parse_error" s)
  on_sync_fetch url (bad_status code) s = on_sync_error url (join "http_" (show code)) s
  on_sync_fetch url timed_out s = on_sync_error url "timeout" s
  on_sync_fetch url raised s = on_sync_error url "other" s

  -- `self.cooldown.is_cool`, which asks `urlparse` unless it is forced
  abbrev pub asked_cool : ℕ → String → Option String → DomainCooldown → Option Bool × DomainCooldown
  asked_cool now url none c = (if is_forced config.force_scrape then some true else none, c)
  asked_cool now url (some domain) c =
      let (cool, c') = is_cool (λ u. domain) config.force_scrape now url c in (some cool, c')

  unfoldable pub on_cool :
      Option Bool
      → String
      → SyncFetch
      → ScraperState env.Breaker
      → SyncResult × ScraperState env.Breaker
  on_cool none url fetch s = (broke, s)
  on_cool (some false) url fetch s = (ended none, defer url (count_failure "cooldown_skip" s))
  on_cool (some true) url fetch s = on_sync_fetch url fetch s

  unfoldable pub on_robots :
      Option Bool
      → String
      → SyncItem
      → ScraperState env.Breaker
      → SyncResult × ScraperState env.Breaker
  on_robots none url item s = (broke, s)
  on_robots (some false) url item s = (ended none, count_failure "robots_txt" s)
  on_robots (some true) url item s =
      let (cool, c) = asked_cool item.now url (env.netloc url) s.cooldown in
      on_cool cool url item.fetch (record s { cooldown = c })

  unfoldable pub on_allowed :
      Option Bool
      → String
      → SyncItem
      → ScraperState env.Breaker
      → SyncResult × ScraperState env.Breaker
  on_allowed none url item s = (broke, s)
  on_allowed (some false) url item s = (ended none, count_failure "circuit_breaker" s)
  on_allowed (some true) url item s =
      on_robots (if config.respect_robots then item.robots_allow else some true) url item s

  unfoldable pub scrape_url :
      SyncItem → ScraperState env.Breaker → SyncResult × ScraperState env.Breaker
  scrape_url item s =
      let url = resolve_redirect_url item.url in
      let (allowed, cb') = env.is_allowed url s.cb in
      on_allowed allowed url item (record s { cb = cb' })

  abbrev pub kept_of :
      Option ParsedArticle
      → Option (List ParsedArticle) × ScraperState env.Breaker
      → Option (List ParsedArticle) × ScraperState env.Breaker
  kept_of a (none, s) = (none, s)
  kept_of a (some rest, s) = (some (keep_article a rest), s)

  -- What the loop does after a URL, with what it does for the others: an exception leaves it, and the
  -- articles found so far are lost.
  abbrev pub after_url :
      SyncResult × ScraperState env.Breaker
      → (ScraperState env.Breaker → Option (List ParsedArticle) × ScraperState env.Breaker)
      → Option (List ParsedArticle) × ScraperState env.Breaker
  after_url (broke, s) others = (none, s)
  after_url (ended a, s) others = kept_of a (others s)

  -- No articles stand for an exception.
  unfoldable pub scrape_batch_sync :
      List SyncItem
      → ScraperState env.Breaker
      → Option (List ParsedArticle) × ScraperState env.Breaker
  scrape_batch_sync [] s = (some [], s)
  scrape_batch_sync (item ∷ items) s =
      after_url (scrape_url item s) (λ t. scrape_batch_sync items t)

module _ (env : Services) (config : Settings) where
  -- The end of `_scrape_batch_async`: the articles, and a failure for each exception
  unfoldable pub gathered :
      List Scraped → ScraperState env.Breaker → List ParsedArticle × ScraperState env.Breaker
  gathered [] s = ([], s)
  gathered (found a ∷ results) s = let (rest, s') = gathered results s in (a ∷ rest, s')
  gathered (nothing ∷ results) s = gathered results s
  gathered (failed ∷ results) s = gathered results (count_failure "unhandled_exception" s)
