-- ===== src/Scraper/Retries.antt =====
-- The retry loop of a URL, and the whole of its scraping.
use mapear_rn.Base.{
  ℕ, zero, suc, ◌+◌, ◌≤◌, String, ◌≡◌, refl, ◌⊎◌, inl, inr, Option, none, some, arith, length, ap,
  ◌∙◌,
}
use mapear_rn.Cooldown.{is_cool}
use mapear_rn.Scraper.State.{ParsedArticle, Services, Settings, ScraperState}
use mapear_rn.Scraper.Rendered.{AreSettled}
use mapear_rn.Scraper.Outcomes.{IsTold, IsOk, IsOk-either}
use mapear_rn.Scraper.Branches.{fetch-IsOk}
use mapear_rn.Scraper.Attempts.{
  Attempt, Step, finished, escaped, again, Scraped, found, nothing, failed, result_of, one_attempt,
  attempts,
}

module _ (env : Services) (config : Settings) (url : String) where
  pub one_attempt-IsOk :
      (w : Attempt) (k : ℕ) (s : ScraperState env.Breaker)
      → IsOk env url s (one_attempt env config url w k s)
  unfolding one_attempt
  one_attempt-IsOk w k s =
      let (cool, c) = is_cool env.netloc config.force_scrape w.checked_at url s.cooldown in
      let asked = record s { cooldown = c } in
      IsOk-either env url cool s _ _ (fetch-IsOk env url config w w.fetch k asked)
        (tt, inr (refl, refl), refl, omega arith, λ h. h)

  -- An article was told to the breaker and to the cool-down.
  abbrev pub IsReported : Scraped × ScraperState env.Breaker → Type 0
  IsReported (found a, t) = IsTold env url t
  IsReported (nothing, t) = Unit
  IsReported (failed, t) = Unit

  -- A URL that was deferred has no result and left the breaker as it was.
  abbrev pub IsDeferredOnly : ScraperState env.Breaker → Scraped × ScraperState env.Breaker → Type 0
  IsDeferredOnly s (r, t) = (t.deferred_urls ≡ s.deferred_urls) ⊎ ((r ≡ nothing) × (t.cb ≡ s.cb))

  -- Each retry leaves one record and the last attempt at most three.
  abbrev pub IsBounded : ℕ → ScraperState env.Breaker → Scraped × ScraperState env.Breaker → Type 0
  IsBounded rounds s (r, t) =
      (s.retries_total ≤ t.retries_total)
      × (t.retries_total ≤ s.retries_total + rounds)
      × (length t.records + s.retries_total ≤ length s.records + t.retries_total + 3)

  abbrev pub IsSound : ℕ → ScraperState env.Breaker → Scraped × ScraperState env.Breaker → Type 0
  IsSound rounds s x =
      IsReported x × IsDeferredOnly s x × IsBounded rounds s x × (AreSettled s → AreSettled x.1)

  finished-IsSound :
      (n : ℕ) (a : Option ParsedArticle) (s t : ScraperState env.Breaker)
      → IsOk env url s (finished a t)
      → IsSound (suc n) s (result_of a, t)
  finished-IsSound n none s t (told, kept, same, few, settled) = (
    tt,
    elim kept [ inl e ↦ inl e | inr (_, e) ↦ inr (refl, e) ],
    (omega (arith, same), omega (arith, same), omega (arith, same, few)),
    settled,
  )
  finished-IsSound n (some a) s t (told, kept, same, few, settled) = (
    told,
    elim kept [ inl e ↦ inl e | inr (e, same) ↦ inr (ap result_of e, same) ],
    (omega (arith, same), omega (arith, same), omega (arith, same, few)),
    settled,
  )

  again-IsSound :
      (n : ℕ) (s t : ScraperState env.Breaker) (x : Scraped × ScraperState env.Breaker)
      → IsOk env url s (again t)
      → IsSound n t x
      → IsSound (suc n) s x
  again-IsSound n s t x (same, kept, more, one, settled) (told, deferred, (low, high, few), after) =
      (
        told,
        elim deferred [ inl e ↦ inl (e ∙ kept) | inr (r, e) ↦ inr (r, e ∙ same) ],
        (omega (arith, low, more), omega (arith, high, more), omega (arith, few, more, one)),
        λ h. after (settled h),
      )

  step-IsSound :
      (world : ℕ → Attempt) (n k : ℕ) (s : ScraperState env.Breaker) (x : Step env.Breaker)
      → IsOk env url s x
      → ((t : ScraperState env.Breaker) → IsSound n t (attempts env config url world n (k + 1) t))
      → IsSound (suc n) s (elim x [
        | finished a t ↦ (result_of a, t)
        | escaped t ↦ (failed, t)
        | again t ↦ attempts env config url world n (k + 1) t
      ])
  step-IsSound world n k s (finished a t) h rest = finished-IsSound n a s t h
  step-IsSound world n k s (escaped t) (kept, same, none_more, settled) rest = (
    tt,
    inl kept,
    (omega (arith, same), omega (arith, same), omega (arith, same, none_more)),
    settled,
  )
  step-IsSound world n k s (again t) h rest = again-IsSound n s t _ h (rest t)

  pub attempts-IsSound :
      (world : ℕ → Attempt) (n k : ℕ) (s : ScraperState env.Breaker)
      → IsSound n s (attempts env config url world n k s)
  unfolding attempts
  attempts-IsSound world zero k s = (tt, inl refl, (omega arith, omega arith, omega arith), λ h. h)
  attempts-IsSound world (suc n) k s =
      step-IsSound world n k s (one_attempt env config url (world k) k s)
        (one_attempt-IsOk (world k) k s) (λ t. attempts-IsSound world n (k + 1) t)
