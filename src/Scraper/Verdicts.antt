-- ===== src/Scraper/Verdicts.antt =====
-- What the scraping of one URL promises.
use mapear_rn.Base.{
  ℕ, ◌+◌, ◌≤◌, ◌<◌, max, String, ◌≡◌, refl, Bool, true, false, ◌&&◌, not, inr, arith, if◌then◌else◌,
  length-append, ◌∷◌, [],
}
use mapear_rn.Cooldown.{is_cool}
use mapear_rn.Scraper.State.{Services, Settings, ScraperState, defer, skipped_record}
use mapear_rn.Scraper.Rendered.{AreSettled}
use mapear_rn.Scraper.Retries.{IsReported, IsDeferredOnly, IsBounded, IsSound, attempts-IsSound}
use mapear_rn.Scraper.Budgets.{
  AreCovered, IsWithin, attempts-retries, retry_overrides_of, retry_budget-max, max_of_overrides,
  IsWithin-either,
}
use mapear_rn.Scraper.Ends.{EndsWithin, attempts-EndsWithin, asked, IsDecided, decided_of}
use mapear_rn.Scraper.Attempts.{
  Attempt, Scraped, nothing, attempts, max_attempts, give_up, async_scrape_one,
}

module _ (env : Services) (config : Settings) (url : String) where
  -- The state after the breaker was asked
  abbrev pub permitted : ScraperState env.Breaker → ScraperState env.Breaker
  permitted s = record s { cb = (env.is_allowed url s.cb).1 }

  IsSound-either :
      (n : ℕ) (b : Bool) (s : ScraperState env.Breaker) (x y : Scraped × ScraperState env.Breaker)
      → IsSound env config url n s x
      → IsSound env config url n s y
      → IsSound env config url n s (if b then x else y)
  IsSound-either n true s x y h k = h
  IsSound-either n false s x y h k = k

  give_up-IsSound :
      (n : ℕ) (reason stage error : String) (s : ScraperState env.Breaker)
      → IsSound env config url n s (nothing, give_up env config url reason stage error s)
  give_up-IsSound n reason stage error s =
      let one = length-append s.records (skipped_record url (env.netloc url) stage error ∷ []) in
      (tt, inr (refl, refl), (omega arith, omega arith, omega (arith, one)), λ h. h)

  parked-IsSound :
      (n : ℕ) (s : ScraperState env.Breaker)
      → IsSound env config url n s (
        nothing,
        defer url (give_up env config url "cooldown_skip" "cooldown_skip" "cooldown_skip" s),
      )
  parked-IsSound n s =
      let (told, kept, few, settled) =
        give_up-IsSound n "cooldown_skip" "cooldown_skip" "cooldown_skip" s in
      (tt, inr (refl, refl), few, settled)

  scraped-IsSound :
      (robots_allow : Bool) (now : ℕ) (world : ℕ → Attempt) (s : ScraperState env.Breaker)
      → IsSound env config url
          (max_attempts env config url)
          (permitted s)
          (async_scrape_one env config url robots_allow now world s)
  unfolding async_scrape_one
  scraped-IsSound robots_allow now world s =
      let n = max_attempts env config url in
      let (cool, c) = is_cool env.netloc config.force_scrape now url s.cooldown in
      IsSound-either n (not (env.is_allowed url s.cb).0) (permitted s) _ _
        (give_up-IsSound n "circuit_breaker" "circuit_open" "circuit_open" (permitted s))
        (IsSound-either n (config.respect_robots && not robots_allow) (permitted s) _ _
          (give_up-IsSound n "robots_txt" "robots_blocked" "robots_txt" (permitted s))
          (IsSound-either n (not cool) (permitted s) _ _
            (parked-IsSound n (record (permitted s) { cooldown = c }))
            (attempts-IsSound env config url world n 1 (record (permitted s) { cooldown = c }))))

  -- If scraping a URL finds an article, then the last that the breaker and the cool-down heard is a
  -- success of this URL, whatever the attempts before met.
  pub async_scrape_one-IsReported :
      (robots_allow : Bool) (now : ℕ) (world : ℕ → Attempt) (s : ScraperState env.Breaker)
      → IsReported env config url (async_scrape_one env config url robots_allow now world s)
  async_scrape_one-IsReported robots_allow now world s =
      (scraped-IsSound robots_allow now world s).0

  -- Either the deferred URLs are as before, or the URL was put off: then scraping it returns
  -- nothing, and the breaker is as the question for permission left it.
  pub async_scrape_one-IsDeferredOnly :
      (robots_allow : Bool) (now : ℕ) (world : ℕ → Attempt) (s : ScraperState env.Breaker)
      → IsDeferredOnly env config url
          (permitted s)
          (async_scrape_one env config url robots_allow now world s)
  async_scrape_one-IsDeferredOnly robots_allow now world s =
      (scraped-IsSound robots_allow now world s).1

  -- Scraping a URL retries at most `max_attempts` times, and leaves at most one record for each
  -- retry and three more.
  pub async_scrape_one-IsBounded :
      (robots_allow : Bool) (now : ℕ) (world : ℕ → Attempt) (s : ScraperState env.Breaker)
      → IsBounded env config url
          (max_attempts env config url)
          s
          (async_scrape_one env config url robots_allow now world s)
  async_scrape_one-IsBounded robots_allow now world s = (scraped-IsSound robots_allow now world s).2

  -- If every counted attempt of a browser is a counted success or a counted failure, then it is so
  -- after a URL was scraped.
  pub async_scrape_one-AreSettled :
      (robots_allow : Bool) (now : ℕ) (world : ℕ → Attempt) (s : ScraperState env.Breaker)
      → AreSettled s
      → AreSettled (async_scrape_one env config url robots_allow now world s).1
  async_scrape_one-AreSettled robots_allow now world s =
      (scraped-IsSound robots_allow now world s).3

  -- With the retry budgets made of the settings for blocks and for transient errors, one of them
  -- at least 2, the retry loop never uses up its range: a URL that the breaker, robots.txt or the
  -- cool-down refuses has no result, and else what the scraping ends with is what one of its at most
  -- so many attempts as the larger setting returned or raised, each one before it having been followed
  -- by another. The retries are fewer than that setting.
  pub async_scrape_one-retries :
      (b t : ℕ) (robots_allow : Bool) (now : ℕ) (world : ℕ → Attempt) (s : ScraperState env.Breaker)
      → config.retry_overrides ≡ retry_overrides_of b t
      → 2 ≤ max b t
      → let x = async_scrape_one env config url robots_allow now world s in
        IsDecided env config url robots_allow now world (max b t) s x
        × IsWithin env config url (max b t) s x
  unfolding async_scrape_one
  async_scrape_one-retries b t robots_allow now world s e h =
      let n = max b t in
      let covered : AreCovered env config url =
        λ x. rw e (rw (max_of_overrides b t) (retry_budget-max b t x h)) in
      let range : max_attempts env config url ≡ n = rw e (max_of_overrides b t) in
      let (cool, c) = is_cool env.netloc config.force_scrape now url s.cooldown in
      let s₂ = asked env config url now s in
      let ended : EndsWithin env config url world n 1 s₂ (attempts env config url world n 1 s₂) =
        attempts-EndsWithin env config url covered world n 1 s₂ (omega (arith, range))
          (omega (arith, h)) in
      let ended : EndsWithin env config url world n 1 s₂
          (attempts env config url world (max_attempts env config url) 1 s₂) =
        rw range ended in
      let tried : IsWithin env config url n s (attempts env config url world n 1 s₂) =
        attempts-retries env config url covered world n 1 s₂ (omega (arith, range))
          (omega (arith, h)) in
      let tried : IsWithin env config url n s
          (attempts env config url world (max_attempts env config url) 1 s₂) =
        rw range tried in
      let more : s.retries_total < s.retries_total + n = omega (arith, h) in
      (
        decided_of env config url (EndsWithin env config url world n 1 s₂)
            (not (env.is_allowed url s.cb).0) (config.respect_robots && not robots_allow) (not cool)
            _ _ _ _ refl refl refl ended,
        IsWithin-either env config url n (not (env.is_allowed url s.cb).0) s _ _ more (
            IsWithin-either env config url n (config.respect_robots && not robots_allow) s _ _ more
              (IsWithin-either env config url n (not cool) s _ _ more tried)),
      )
