-- ===== src/Scraper/Budgets.antt =====
-- The retry loop of a URL ends with a verdict, never because its range is used up.
use mapear_rn.Base.{
  ℕ, zero, suc, ◌+◌, ◌≤◌, ◌<◌, max, String, ◌≡◌, refl, Bool, true, false, not, Option, none, some,
  arith, [], ◌∷◌, if◌then◌else◌, is_in, lookup, get_or, leb, leb→lt, str_eq, Dict,
}
use mapear_rn.ErrorClass.{bot_block, class_eq, error_class_for, retry_budget}
use mapear_rn.Scraper.State.{
  ParsedArticle, Services, Settings, ScraperState, note_record, count_failure,
}
use mapear_rn.Scraper.Attempts.{
  Fetch, timed_out, http_error, unexpected, responded, Attempt, Step, finished, escaped, again,
  max_attempts, attempts, result_of, failed, Scraped, attempt_record, park_parse_failure,
  on_transport_error, on_bad_status, on_non_html, on_blocked_page, on_parsed, on_response, on_fetch,
  one_attempt,
}
use mapear_rn.Scraper.Rendering.{BrowserFetchResult, try_browser_fallbacks}
use mapear_rn.BlockDetector.{BlockSignals, no_signals, detect, blocked, classify_failure}
use mapear_rn.Cooldown.{is_cool}
use mapear_rn.Scraper.Outcomes.{IsOk}
use mapear_rn.Scraper.Retries.{one_attempt-IsOk}

-- `_retry_overrides`, of the settings `max_retries_blocked` and `max_retries_transient`
abbrev pub retry_overrides_of : ℕ → ℕ → Dict ℕ
retry_overrides_of blocked transient =
    ("blocked_bot", blocked)
    ∷ ("http_403", blocked)
    ∷ ("http_429", blocked)
    ∷ ("timeout", transient)
    ∷ ("connection_reset", transient)
    ∷ ("http_5xx", transient)
    ∷ []

pub retry_budget-max :
    (b t : ℕ) (e : String) → 2 ≤ max b t → retry_budget e (some (retry_overrides_of b t)) ≤ max b t
unfolding retry_budget lookup
retry_budget-max b t e h = ground arith

pub max_of_overrides :
    (b t : ℕ)
    → max
        (get_or (lookup "blocked_bot" (retry_overrides_of b t)) 1)
        (get_or (lookup "timeout" (retry_overrides_of b t)) 3)
      ≡ max b t
unfolding lookup
max_of_overrides b t = refl

module _ (env : Services) (config : Settings) (url : String) where
  -- An attempt that is followed by another is not the last of the range.
  abbrev pub IsEarly : ℕ → Step env.Breaker → Type 0
  IsEarly k (finished a t) = Unit
  IsEarly k (escaped t) = Unit
  IsEarly k (again t) = k < max_attempts env config url

  -- No error is retried more often than the range allows.
  abbrev pub AreCovered : Type 0
  AreCovered =
      (e : String) → retry_budget e (some config.retry_overrides) ≤ max_attempts env config url

  retried-IsEarly :
      (k n : ℕ) (b : Bool) (t : ScraperState env.Breaker) (x : Step env.Breaker)
      → n ≤ max_attempts env config url
      → leb n k ≡ b
      → IsEarly k x
      → IsEarly k (if b then x else again t)
  retried-IsEarly k n true t x l e h = h
  retried-IsEarly k n false t x l e h = omega (arith, l, leb→lt n k e)

  either-IsEarly :
      (k : ℕ) (b : Bool) (x y : Step env.Breaker)
      → IsEarly k x
      → IsEarly k y
      → IsEarly k (if b then x else y)
  either-IsEarly k true x y h l = h
  either-IsEarly k false x y h l = l

  transport-IsEarly :
      AreCovered
      → (error exception : String) (k : ℕ) (s : ScraperState env.Breaker)
      → IsEarly k (on_transport_error env config url error exception k s)
  unfolding on_transport_error
  transport-IsEarly covered error exception k s =
      retried-IsEarly k (retry_budget error (some config.retry_overrides)) _ _ _ (covered error)
        refl tt

  bad_status-IsEarly :
      AreCovered
      → (w : Attempt) (r : BrowserFetchResult) (b : BlockSignals) (k : ℕ)
        (s : ScraperState env.Breaker)
      → IsEarly k (on_bad_status env config url w r b k s)
  unfolding on_bad_status
  bad_status-IsEarly covered w r b k s =
      let error = classify_failure env.lower (some r.status_code) b 0 none in
      retried-IsEarly k (retry_budget error (some config.retry_overrides)) _ _ _ (covered error)
        refl (either-IsEarly k (class_eq (error_class_for (some error)) bot_block) _ _ tt tt)

  rescued-IsEarly :
      (k : ℕ) (error : String) (w : Attempt) (t : ScraperState env.Breaker)
      (a : Option ParsedArticle)
      → IsEarly k (elim a [
        | some b ↦ finished (some b) t
        | none ↦ park_parse_failure env config url error w t
      ])
  rescued-IsEarly k error w t none = tt
  rescued-IsEarly k error w t (some a) = tt

  parsed-IsEarly :
      (w : Attempt) (r : BrowserFetchResult) (b : BlockSignals) (k : ℕ) (o : Option ParsedArticle)
      (s : ScraperState env.Breaker)
      → IsEarly k (on_parsed env config url w r b k o s)
  unfolding on_parsed
  parsed-IsEarly w r b k (some a) s = tt
  parsed-IsEarly w r b k none s =
      let error = classify_failure env.lower (some r.status_code) b 0 none in
      let d =
        attempt_record env config url k "parse" (some r.status_code) (blocked b) 0 false
          (some error) in
      let (a, t) =
        try_browser_fallbacks env config url w.camoufox_page w.browser_page
          (count_failure "parse_error" (note_record d s)) in
      either-IsEarly k (str_eq error "selector_missing") _ _ (rescued-IsEarly k error w t a) tt

  response-IsEarly :
      AreCovered
      → (w : Attempt) (r : BrowserFetchResult) (k : ℕ) (s : ScraperState env.Breaker)
      → IsEarly k (on_response env config url w r k s)
  unfolding on_response on_non_html on_blocked_page
  response-IsEarly covered w r k s =
      let b =
        if config.block_detection_enabled
        then detect env.lower (some r.status_code) r.headers (some (env.sample r.html))
        else no_signals in
      let kept = on_parsed env config url w r b k (env.parse r.html r.final_url) s in
      let page = if blocked b then on_blocked_page env config url w r k s else kept in
      let is_html = is_in "text/html" (get_or (lookup "content-type" r.headers) "") in
      let blocked_or_kept =
        either-IsEarly k (blocked b) (on_blocked_page env config url w r k s) kept tt
          (parsed-IsEarly w r b k (env.parse r.html r.final_url) s) in
      either-IsEarly k (leb 400 r.status_code) _ _ (bad_status-IsEarly covered w r b k s) (
        either-IsEarly k (not is_html) (on_non_html env config url r b k s) page tt blocked_or_kept)

  fetch-IsEarly :
      AreCovered
      → (w : Attempt) (f : Fetch) (k : ℕ) (s : ScraperState env.Breaker)
      → IsEarly k (on_fetch env config url w f k s)
  unfolding on_fetch
  fetch-IsEarly covered w (timed_out name) k s = transport-IsEarly covered "timeout" name k s
  fetch-IsEarly covered w (http_error name) k s =
      transport-IsEarly covered "connection_reset" name k s
  fetch-IsEarly covered w unexpected k s = tt
  fetch-IsEarly covered w (responded r) k s = response-IsEarly covered w r k s

  pub one_attempt-IsEarly :
      AreCovered
      → (w : Attempt) (k : ℕ) (s : ScraperState env.Breaker)
      → IsEarly k (one_attempt env config url w k s)
  unfolding one_attempt
  one_attempt-IsEarly covered w k s =
      either-IsEarly k (is_cool env.netloc config.force_scrape w.checked_at url s.cooldown).0 _ _
        (fetch-IsEarly covered w w.fetch k _) tt

  abbrev pub IsWithin : ℕ → ScraperState env.Breaker → Scraped × ScraperState env.Breaker → Type 0
  IsWithin n s (r, t) = t.retries_total < s.retries_total + n

  retries-step :
      (world : ℕ → Attempt) (n k : ℕ) (s : ScraperState env.Breaker) (x : Step env.Breaker)
      → k + n ≡ max_attempts env config url
      → IsOk env url s x
      → IsEarly k x
      → ((t : ScraperState env.Breaker)
          → 0 < n
          → IsWithin n t (attempts env config url world n (k + 1) t))
      → IsWithin (suc n) s (elim x [
        | finished a t ↦ (result_of a, t)
        | escaped t ↦ (failed, t)
        | again t ↦ attempts env config url world n (k + 1) t
      ])
  retries-step world n k s (finished a t) e ok early rest = omega (arith, ok.2)
  retries-step world n k s (escaped t) e ok early rest = omega (arith, ok.1)
  retries-step world n k s (again t) e ok early rest =
      let more : 0 < n = omega (arith, e, early) in omega (arith, ok.2, rest t more)

  pub attempts-retries :
      AreCovered
      → (world : ℕ → Attempt) (n k : ℕ) (s : ScraperState env.Breaker)
      → k + n ≡ max_attempts env config url + 1
      → 0 < n
      → IsWithin n s (attempts env config url world n k s)
  unfolding attempts
  attempts-retries covered world zero k s e h = absurd (omega (arith, h))
  attempts-retries covered world (suc n) k s e h =
      retries-step world n k s (one_attempt env config url (world k) k s) (omega (arith, e))
        (one_attempt-IsOk env config url (world k) k s) (one_attempt-IsEarly covered (world k) k s)
        (λ t. attempts-retries covered world n (k + 1) t (omega (arith, e)))

  pub IsWithin-either :
      (n : ℕ) (b : Bool) (s : ScraperState env.Breaker) (x y : Scraped × ScraperState env.Breaker)
      → IsWithin n s x
      → IsWithin n s y
      → IsWithin n s (if b then x else y)
  IsWithin-either n true s x y h k = h
  IsWithin-either n false s x y h k = k
