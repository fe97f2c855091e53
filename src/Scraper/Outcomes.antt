-- ===== src/Scraper/Outcomes.antt =====
-- What one attempt on a URL may do to the state of the scraper.
use mapear_rn.Base.{
  ◌+◌, ◌≤◌, String, ◌≡◌, refl, Bool, true, false, ◌⊎◌, inl, Option, none, some, [], ◌∷◌, arith,
  if◌then◌else◌, length, length-append, ◌∙◌,
}
use mapear_rn.Cooldown.{DomainCooldown, record_success}
use mapear_rn.Scraper.State.{
  ParsedArticle, Services, Settings, DiagnosticRecord, ScraperState, note_record, note_retry,
}
use mapear_rn.Scraper.Rendering.{try_browser_fallbacks}
use mapear_rn.Scraper.Rendered.{AreSettled, Reports, try_browser_fallbacks-Rendered}
use mapear_rn.Scraper.Attempts.{Attempt, Step, finished, escaped, again, recovered}

module _ {B : Type 0} where
  -- One record, and nothing else that the counts of attempts read
  abbrev pub Booked : ScraperState B → ScraperState B → Type 0
  Booked s t =
      (t.deferred_urls ≡ s.deferred_urls)
      × (t.retries_total ≡ s.retries_total)
      × (length t.records ≡ length s.records + 1)
      × (t.camoufox_counts ≡ s.camoufox_counts)
      × (t.browser_counts ≡ s.browser_counts)

  pub note_record-Booked : (r : DiagnosticRecord) (s : ScraperState B) → Booked s (note_record r s)
  note_record-Booked r s = (refl, refl, length-append s.records (r ∷ []), refl, refl)

module _ (env : Services) (url : String) where
  -- The breaker and the cool-down heard last of a success of this URL.
  abbrev pub IsTold : ScraperState env.Breaker → Type 0
  IsTold s =
      ((b : env.Breaker) × (s.cb ≡ env.tell_success url b))
      × ((c : DomainCooldown) × (s.cooldown ≡ record_success env.netloc url c))

  abbrev pub Told : Option ParsedArticle → ScraperState env.Breaker → Type 0
  Told none s = Unit
  Told (some a) s = IsTold s

  abbrev pub IsOk : ScraperState env.Breaker → Step env.Breaker → Type 0
  IsOk s (finished a t) =
      Told a t
      × ((t.deferred_urls ≡ s.deferred_urls) ⊎ ((a ≡ none) × (t.cb ≡ s.cb)))
      × (t.retries_total ≡ s.retries_total)
      × (length t.records ≤ length s.records + 3)
      × (AreSettled s → AreSettled t)
  IsOk s (escaped t) =
      (t.deferred_urls ≡ s.deferred_urls)
      × (t.retries_total ≡ s.retries_total)
      × (length t.records ≡ length s.records)
      × (AreSettled s → AreSettled t)
  IsOk s (again t) =
      (t.cb ≡ s.cb)
      × (t.deferred_urls ≡ s.deferred_urls)
      × (t.retries_total ≡ s.retries_total + 1)
      × (length t.records ≡ length s.records + 1)
      × (AreSettled s → AreSettled t)

  pub IsOk-either :
      (b : Bool) (s : ScraperState env.Breaker) (x y : Step env.Breaker)
      → IsOk s x
      → IsOk s y
      → IsOk s (if b then x else y)
  IsOk-either true s x y h k = h
  IsOk-either false s x y h k = k

  pub settled-Booked : (s t : ScraperState env.Breaker) → Booked s t → AreSettled s → AreSettled t
  settled-Booked s t b h = ground (arith, b.3, b.4)

  pub finished-IsOk : (s t : ScraperState env.Breaker) → Booked s t → IsOk s (finished none t)
  finished-IsOk s t b = (tt, inl b.0, b.1, omega (arith, b.2), settled-Booked s t b)

  pub again-IsOk :
      (s t : ScraperState env.Breaker) → Booked s t → t.cb ≡ s.cb → IsOk s (again (note_retry t))
  again-IsOk s t b e = (e, b.0, omega (arith, b.1), b.2, settled-Booked s t b)

  Reports-Told :
      (t u : ScraperState env.Breaker) (a : Option ParsedArticle) → Reports env url t a u → Told a u
  Reports-Told t u none h = tt
  Reports-Told t u (some a) h = ((t.cb, h.0), (t.cooldown, h.1))

  pub fallback-IsOk :
      (config : Settings) (w : Attempt) (s t : ScraperState env.Breaker)
      → Booked s t
      → IsOk s (recovered env config url w t)
  fallback-IsOk config w s t b =
      let (report, kept, settled) =
        try_browser_fallbacks-Rendered env url config w.camoufox_page w.browser_page t in
      let (a, u) = try_browser_fallbacks env config url w.camoufox_page w.browser_page t in
      (
        Reports-Told t u a report,
        inl (kept.0 ∙ b.0),
        kept.1 ∙ b.1,
        omega (arith, kept.4, b.2),
        λ h. settled (settled-Booked s t b h),
      )
