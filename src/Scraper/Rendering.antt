-- ===== src/Scraper/Rendering.antt =====
-- pipelines/mapear-rss/src/mapear_rss/extraction/scraper.py, `_try_browser_fallbacks`: a page that the
-- plain client could not get, rendered by Camoufox and then by Playwright.
use mapear_rn.Base.{
  ℕ, ◌+◌, String, Bool, true, false, ◌&&◌, ◌||◌, not, Option, none, some, List, [], ◌∷◌, ◌++◌, ◌==◌,
  str_eq, contains, if◌then◌else◌, get_or,
}
use mapear_rn.BlockDetector.{BlockSignals, blocked, detect, classify_failure}
use mapear_rn.Cooldown.{record_success}
use mapear_rn.Scraper.State.{
  ParsedArticle, Services, Settings, DiagnosticRecord, RenderCounts, ScraperState, note_record,
}

-- `BrowserFetchResult`
pub record BrowserFetchResult : Type 0 where
  pub status_code : ℕ
  pub html : String
  pub headers : List (String × String)
  pub final_url : String
  pub error : Option String

pub data Renderer : Type 0 where
  camoufox playwright : Renderer

abbrev pub stage_of : Renderer → String
stage_of camoufox = "camoufox_render"
stage_of playwright = "browser_render"

abbrev pub failure_of : Renderer → String
failure_of camoufox = "camoufox_failed"
failure_of playwright = "browser_failed"

-- The strategy of `note_parser_recovery`
abbrev pub strategy_of : Renderer → String
strategy_of camoufox = "camoufox_render"
strategy_of playwright = "playwright_render"

module _ {B : Type 0} where
  abbrev pub update_counts :
      Renderer → (RenderCounts → RenderCounts) → ScraperState B → ScraperState B
  update_counts camoufox f s = record s { camoufox_counts = f s.camoufox_counts }
  update_counts playwright f s = record s { browser_counts = f s.browser_counts }

  abbrev pub render_attempted : Renderer → ScraperState B → ScraperState B
  render_attempted k = update_counts k (λ c. record c { attempts = c.attempts + 1 })

  abbrev pub render_failed : Renderer → ScraperState B → ScraperState B
  render_failed k = update_counts k (λ c. record c { failed = c.failed + 1 })

  abbrev pub render_succeeded : Renderer → ScraperState B → ScraperState B
  render_succeeded k = update_counts k (λ c. record c { success = c.success + 1 })

-- `result.error or not result.html`
abbrev pub is_unusable : BrowserFetchResult → Bool
is_unusable r = not (str_eq (get_or r.error "") "") || str_eq r.html ""

module _ (env : Services) where
  abbrev pub render_record :
      Renderer → String → Option ℕ → Bool → ℕ → Bool → Option String → DiagnosticRecord
  render_record k url status is_blocked chars success error = record {
    url = url;
    domain = env.netloc url;
    attempt = 0;
    stage = stage_of k;
    status_code = status;
    is_blocked = is_blocked;
    extracted_chars = chars;
    extraction_success = success;
    error_type = error;
  }

  -- The end of a fallback: the breaker and the cool-down hear of a success only.
  unfoldable pub render_parsed :
      Renderer
      → String
      → BrowserFetchResult
      → BlockSignals
      → Option ParsedArticle
      → ScraperState env.Breaker
      → Option ParsedArticle × ScraperState env.Breaker
  render_parsed k url r signals none s =
      let error = classify_failure env.lower (some r.status_code) signals 0 none in
      (
        none,
        render_failed k
            (note_record (render_record k url (some r.status_code) false 0 false (some error)) s),
      )
  render_parsed k url r signals (some a) s =
      let noted = render_succeeded k (
        note_record (render_record k url (some r.status_code) false a.content_chars true none) s) in
      (
        some a,
        record noted {
          cb = env.tell_success url noted.cb;
          cooldown = record_success env.netloc url noted.cooldown;
          parser_recovery = noted.parser_recovery ++ (env.netloc url, strategy_of k) ∷ [];
        },
      )

  unfoldable pub render_result :
      Renderer
      → String
      → BrowserFetchResult
      → ScraperState env.Breaker
      → Option ParsedArticle × ScraperState env.Breaker
  render_result k url r s =
      let signals =
        record (detect env.lower (some r.status_code) r.headers (some (env.sample r.html))) {
          browser_required = true;
        } in
      let status : Option ℕ = if r.status_code == 0 then none else some r.status_code in
      if is_unusable r
      then (
        none,
        note_record (render_record k url status false 0 false (some (failure_of k)))
            (render_failed k s),
      )
      else if blocked signals
      then (
        none,
        note_record (render_record k url (some r.status_code) true 0 false (some "blocked_bot"))
            (render_failed k s),
      )
      else render_parsed k url r signals (env.parse r.html r.final_url) s

  -- `_camoufox_fallback` and `_browser_fallback`; no result stands for a browser that is not there.
  unfoldable pub render_fallback :
      Renderer
      → String
      → Option BrowserFetchResult
      → ScraperState env.Breaker
      → Option ParsedArticle × ScraperState env.Breaker
  unfolding render_result render_parsed
  render_fallback k url none s = (none, render_failed k (render_attempted k s))
  render_fallback k url (some r) s = render_result k url r (render_attempted k s)

  abbrev pub should_try_browser : Settings → String → Bool
  should_try_browser config url =
      config.has_browser && contains (env.netloc url) config.browser_targets

  unfoldable pub try_browser :
      Settings
      → String
      → Option BrowserFetchResult
      → ScraperState env.Breaker
      → Option ParsedArticle × ScraperState env.Breaker
  try_browser config url browser s =
      let tried = render_fallback playwright url browser s in
      if should_try_browser config url then tried else (none, s)

  -- Playwright is tried if Camoufox found nothing.
  unfoldable pub after_first :
      Settings
      → String
      → Option BrowserFetchResult
      → Option ParsedArticle
      → ScraperState env.Breaker
      → Option ParsedArticle × ScraperState env.Breaker
  after_first config url browser_page (some a) s = (some a, s)
  after_first config url browser_page none s = try_browser config url browser_page s

  -- `_try_browser_fallbacks`, with what the two browsers return
  unfoldable pub try_browser_fallbacks :
      Settings
      → String
      → Option BrowserFetchResult
      → Option BrowserFetchResult
      → ScraperState env.Breaker
      → Option ParsedArticle × ScraperState env.Breaker
  unfolding after_first
  try_browser_fallbacks config url camoufox_page browser_page s =
      let (first, s') = render_fallback camoufox url camoufox_page s in
      if config.has_camoufox
      then after_first config url browser_page first s'
      else try_browser config url browser_page s
