-- ===== src/Scraper/Rendered.antt =====
-- What the browser fallbacks do to the scraper's state.
use mapear_rn.Base.{
  ℕ, ◌+◌, ◌≤◌, String, ◌≡◌, refl, Bool, true, false, Option, none, some, [], ◌∷◌, arith,
  if◌then◌else◌, length, length-append, ap, ◌∙◌,
}
use mapear_rn.BlockDetector.{BlockSignals, blocked, detect}
use mapear_rn.Cooldown.{record_success}
use mapear_rn.Scraper.State.{
  ParsedArticle, Services, Settings, RenderCounts, ScraperState, note_record, DiagnosticRecord,
}
use mapear_rn.Scraper.Rendering.{
  BrowserFetchResult, Renderer, camoufox, playwright, render_fallback, render_result, render_parsed,
  try_browser, try_browser_fallbacks, after_first, render_failed, render_attempted, is_unusable,
  should_try_browser,
}

-- Every attempt has succeeded or failed.
abbrev pub IsSettled : RenderCounts → Type 0
IsSettled c = c.attempts ≡ c.success + c.failed

module _ {B : Type 0} where
  -- Both browsers' counts
  abbrev pub AreSettled : ScraperState B → Type 0
  AreSettled s = IsSettled s.camoufox_counts × IsSettled s.browser_counts

  -- What a fallback leaves alone, and how much it records
  abbrev pub Leaves : ℕ → ScraperState B → ScraperState B → Type 0
  Leaves n s s' =
      (s'.deferred_urls ≡ s.deferred_urls)
      × (s'.retries_total ≡ s.retries_total)
      × (s'.failure_reasons ≡ s.failure_reasons)
      × (length s.records ≤ length s'.records)
      × (length s'.records ≤ length s.records + n)

  length-note_record :
      (r : DiagnosticRecord) (s : ScraperState B)
      → length (note_record r s).records ≡ length s.records + 1
  length-note_record r s = omega (arith, length-append s.records (r ∷ []))

  Leaves-trans :
      (n m : ℕ) (s t u : ScraperState B) → Leaves n s t → Leaves m t u → Leaves (n + m) s u
  Leaves-trans n m s t u h k =
      (k.0 ∙ h.0, k.1 ∙ h.1, k.2 ∙ h.2, omega (arith, h.3, k.3), omega (arith, h.4, k.4))

module _ (env : Services) (url : String) where
  -- A page that was found is told to the breaker and to the cool-down; without one neither hears.
  abbrev pub Reports :
      ScraperState env.Breaker → Option ParsedArticle → ScraperState env.Breaker → Type 0
  Reports s none s' = (s'.cb ≡ s.cb) × (s'.cooldown ≡ s.cooldown)
  Reports s (some a) s' =
      (s'.cb ≡ env.tell_success url s.cb) × (s'.cooldown ≡ record_success env.netloc url s.cooldown)

  abbrev pub Rendered :
      ℕ → ScraperState env.Breaker → Option ParsedArticle × ScraperState env.Breaker → Type 0
  Rendered n s (a, s') = Reports s a s' × Leaves n s s' × (AreSettled s → AreSettled s')

  render_parsed-Rendered :
      (k : Renderer) (r : BrowserFetchResult) (b : BlockSignals) (o : Option ParsedArticle)
      (s : ScraperState env.Breaker)
      → Rendered 1 s (render_parsed env k url r b o (render_attempted k s))
  unfolding render_parsed
  render_parsed-Rendered camoufox r b none s = grind (arith, length-append)
  render_parsed-Rendered camoufox r b (some a) s = grind (arith, length-append)
  render_parsed-Rendered playwright r b none s = grind (arith, length-append)
  render_parsed-Rendered playwright r b (some a) s = grind (arith, length-append)

  Rendered-either :
      (n : ℕ) (b : Bool) (s : ScraperState env.Breaker)
      (x y : Option ParsedArticle × ScraperState env.Breaker)
      → Rendered n s x
      → Rendered n s y
      → Rendered n s (if b then x else y)
  Rendered-either n true s x y h k = h
  Rendered-either n false s x y h k = k

  Rendered-rejected :
      (k : Renderer) (d : DiagnosticRecord) (s : ScraperState env.Breaker)
      → Rendered 1 s (none, note_record d (render_failed k (render_attempted k s)))
  Rendered-rejected camoufox d s = grind (arith, length-append)
  Rendered-rejected playwright d s = grind (arith, length-append)

  render_result-Rendered :
      (k : Renderer) (r : BrowserFetchResult) (s : ScraperState env.Breaker)
      → Rendered 1 s (render_result env k url r (render_attempted k s))
  unfolding render_result
  render_result-Rendered k r s =
      let b = record (detect env.lower (some r.status_code) r.headers (some (env.sample r.html))) {
        browser_required = true;
      } in
      Rendered-either 1 (is_unusable r) s _ _ (Rendered-rejected k _ s) (
        Rendered-either 1 (blocked b) s _ _ (Rendered-rejected k _ s)
          (render_parsed-Rendered k r b (env.parse r.html r.final_url) s))

  render_fallback-Rendered :
      (k : Renderer) (o : Option BrowserFetchResult) (s : ScraperState env.Breaker)
      → Rendered 1 s (render_fallback env k url o s)
  unfolding render_fallback
  render_fallback-Rendered camoufox none s = ground arith
  render_fallback-Rendered playwright none s = ground arith
  render_fallback-Rendered k (some r) s = render_result-Rendered k r s

  try_browser-Rendered :
      (config : Settings) (page : Option BrowserFetchResult) (s : ScraperState env.Breaker)
      → Rendered 1 s (try_browser env config url page s)
  unfolding try_browser
  try_browser-Rendered config page s =
      Rendered-either 1 (should_try_browser env config url) s _ _
        (render_fallback-Rendered playwright page s)
        ((refl, refl), (refl, refl, refl, omega arith, omega arith), λ h. h)

  Rendered-after :
      (n m : ℕ) (s : ScraperState env.Breaker) (s' : ScraperState env.Breaker)
      (x : Option ParsedArticle × ScraperState env.Breaker)
      → Rendered n s (none, s')
      → Rendered m s' x
      → Rendered (n + m) s x
  Rendered-after n m s s' (none, t) h k = (
    (k.0.0 ∙ h.0.0, k.0.1 ∙ h.0.1),
    Leaves-trans n m s s' t h.1 k.1,
    λ settled. k.2 (h.2 settled),
  )
  Rendered-after n m s s' (some a, t) h k = (
    (k.0.0 ∙ ap (env.tell_success url) h.0.0, k.0.1 ∙ ap (record_success env.netloc url) h.0.1),
    Leaves-trans n m s s' t h.1 k.1,
    λ settled. k.2 (h.2 settled),
  )

  Rendered-more :
      (n m : ℕ) (s : ScraperState env.Breaker) (x : Option ParsedArticle × ScraperState env.Breaker)
      → n ≤ m
      → Rendered n s x
      → Rendered m s x
  Rendered-more n m s x l h =
      let (d, r, f, low, high) = h.1 in (h.0, (d, r, f, low, omega (arith, high, l)), h.2)

  after_first-Rendered :
      (config : Settings) (page : Option BrowserFetchResult) (s s' : ScraperState env.Breaker)
      (o : Option ParsedArticle)
      → Rendered 1 s (o, s')
      → Rendered 2 s (after_first env config url page o s')
  unfolding after_first
  after_first-Rendered config page s s' none h =
      Rendered-after 1 1 s s' _ h (try_browser-Rendered config page s')
  after_first-Rendered config page s s' (some a) h =
      Rendered-more 1 2 s (some a, s') (omega arith) h

  -- The fallbacks add at most two records; they leave the deferred URLs, the retries and the failure
  -- reasons as they are; if they find an article then its success is told to the breaker and to the
  -- cool-down, and otherwise neither changes; and every counted attempt of a browser is a counted
  -- success or a counted failure, if it was so before.
  pub try_browser_fallbacks-Rendered :
      (config : Settings) (camoufox_page browser_page : Option BrowserFetchResult)
      (s : ScraperState env.Breaker)
      → Rendered 2 s (try_browser_fallbacks env config url camoufox_page browser_page s)
  unfolding try_browser_fallbacks
  try_browser_fallbacks-Rendered config camoufox_page browser_page s =
      let (o, s') = render_fallback env camoufox url camoufox_page s in
      Rendered-either 2 config.has_camoufox s _ _
        (after_first-Rendered config browser_page s s' o
          (render_fallback-Rendered camoufox camoufox_page s))
        (Rendered-more 1 2 s _ (omega arith) (try_browser-Rendered config browser_page s))
