-- ===== src/Scraper/SyncCounts.antt =====
-- What the synchronous scraping of one URL adds to the counted failures, and what makes an exception
-- leave it.
use mapear_rn.Base.{
  ℕ, ◌+◌, String, ◌≡◌, refl, Bool, true, false, Option, none, some, [], ◌∷◌, arith, if◌then◌else◌,
  Dict, lookup, insert, get_or, ◌⊎◌, inl, inr,
}
use mapear_rn.Cooldown.{DomainCooldown}
use mapear_rn.Scraper.State.{Settings, ScraperState, ParsedArticle, bump}
use mapear_rn.Scraper.Batches.{
  SyncServices, SyncItem, SyncResult, ended, broke, SyncFetch, returned, bad_status, timed_out,
  raised, resolve_redirect_url, on_sync_error, cleared, on_sync_fetch, asked_cool, on_cool,
  on_robots, on_allowed, scrape_url,
}

-- `sum(counter.values())`
abbrev pub sum_values : Dict ℕ → ℕ
sum_values [] = 0
sum_values ((k, n) ∷ d) = n + sum_values d

sum_values-insert :
    (k : String) (m : ℕ) (d : Dict ℕ)
    → sum_values (insert k m d) + get_or (lookup k d) 0 ≡ sum_values d + m
unfolding insert lookup
sum_values-insert k m [] = omega arith
sum_values-insert k m ((j, n) ∷ d) = ground (arith, sum_values-insert k m d)

pub sum_values-bump : (k : String) (d : Dict ℕ) → sum_values (bump k d) ≡ sum_values d + 1
sum_values-bump k d = omega (arith, sum_values-insert k (get_or (lookup k d) 0 + 1) d)

module _ (env : SyncServices) (config : Settings) where
  -- What makes an exception leave the scraping of a URL: the breaker does not answer, or
  -- robots.txt, or the URL has no netloc, or the breaker, as the question or as then the report of a
  -- success left it, raises when it is told of a failure.
  abbrev pub IsFault : SyncItem → ScraperState env.Breaker → Type 0
  IsFault item s =
      let url = resolve_redirect_url item.url in
      let cb' = (env.is_allowed url s.cb).1 in
      ((env.is_allowed url s.cb).0 ≡ none)
      ⊎ ((item.robots_allow ≡ none)
          ⊎ ((env.netloc url ≡ none)
              ⊎ (((env.tell_failure url cb').0 ≡ false)
                  ⊎ ((env.tell_failure url (env.tell_success url cb').1).0 ≡ false))))

  module _ (F : Type 0) where
    -- An article, or one more failure; an exception that leaves counts nothing, and has a cause.
    abbrev pub IsCounted : ScraperState env.Breaker → SyncResult × ScraperState env.Breaker → Type 0
    IsCounted s (ended none, t) = sum_values t.failure_reasons ≡ sum_values s.failure_reasons + 1
    IsCounted s (ended (some a), t) = t.failure_reasons ≡ s.failure_reasons
    IsCounted s (broke, t) = (t.failure_reasons ≡ s.failure_reasons) × F

    IsCounted-either :
        (b : Bool) (s : ScraperState env.Breaker) (x y : SyncResult × ScraperState env.Breaker)
        → IsCounted s x
        → (b ≡ false → IsCounted s y)
        → IsCounted s (if b then x else y)
    IsCounted-either true s x y h k = h
    IsCounted-either false s x y h k = k refl

    -- The parts of `scrape_url` at one URL, of which each exception is a cause
    module _ (url : String) (splitting : env.netloc url ≡ none → F) where
      -- A breaker that raises when it is told of a failure, now or after a success, is a cause.
      abbrev Telling : ScraperState env.Breaker → Type 0
      Telling s =
          ((env.tell_failure url s.cb).0 ≡ false → F)
          × ((env.tell_failure url (env.tell_success url s.cb).1).0 ≡ false → F)

      on_sync_error-IsCounted :
          (reason : String) (s : ScraperState env.Breaker)
          → ((env.tell_failure url s.cb).0 ≡ false → F)
          → IsCounted s (on_sync_error env config url reason s)
      on_sync_error-IsCounted reason s h =
          IsCounted-either (env.tell_failure url s.cb).0 s _ _
            (sum_values-bump reason s.failure_reasons) (λ e. (refl, h e))

      cleared-IsCounted :
          (o : Option String) (a : ParsedArticle) (s : ScraperState env.Breaker)
          → ((env.tell_failure url s.cb).0 ≡ false → F)
          → IsCounted s (cleared env config url o a s)
      cleared-IsCounted none a s h = on_sync_error-IsCounted "other" s h
      cleared-IsCounted (some domain) a s h = refl

      on_sync_fetch-IsCounted :
          (f : SyncFetch) (s : ScraperState env.Breaker)
          → Telling s
          → IsCounted s (on_sync_fetch env config url f s)
      unfolding on_sync_fetch
      on_sync_fetch-IsCounted (returned (some a)) s h =
          let (done, cb') = env.tell_success url s.cb in
          let told = record s { cb = cb' } in
          IsCounted-either done s _ _ (cleared-IsCounted (env.netloc url) a told h.1)
            (λ e. on_sync_error-IsCounted "other" told h.1)
      on_sync_fetch-IsCounted (returned none) s h = sum_values-bump _ s.failure_reasons
      on_sync_fetch-IsCounted (bad_status code) s h = on_sync_error-IsCounted _ s h.0
      on_sync_fetch-IsCounted timed_out s h = on_sync_error-IsCounted _ s h.0
      on_sync_fetch-IsCounted raised s h = on_sync_error-IsCounted _ s h.0

      on_cool-IsCounted :
          (o : Option Bool) (f : SyncFetch) (s : ScraperState env.Breaker)
          → Telling s
          → (o ≡ none → F)
          → IsCounted s (on_cool env config o url f s)
      unfolding on_cool
      on_cool-IsCounted none f s g h = (refl, h refl)
      on_cool-IsCounted (some false) f s g h = sum_values-bump _ s.failure_reasons
      on_cool-IsCounted (some true) f s g h = on_sync_fetch-IsCounted f s g

      asked_cool-none :
          (now : ℕ) (o : Option String) (c : DomainCooldown)
          → (asked_cool env config now url o c).0 ≡ none
          → o ≡ none
      asked_cool-none now none c h = refl
      asked_cool-none now (some domain) c h = absurd (ground (arith, h))

      on_robots-IsCounted :
          (o : Option Bool) (item : SyncItem) (s : ScraperState env.Breaker)
          → Telling s
          → (o ≡ none → F)
          → IsCounted s (on_robots env config o url item s)
      unfolding on_robots
      on_robots-IsCounted none item s g h = (refl, h refl)
      on_robots-IsCounted (some false) item s g h = sum_values-bump _ s.failure_reasons
      on_robots-IsCounted (some true) item s g h =
          let (cool, c) = asked_cool env config item.now url (env.netloc url) s.cooldown in
          on_cool-IsCounted cool item.fetch (record s { cooldown = c }) g
            (λ e. splitting (asked_cool-none item.now (env.netloc url) s.cooldown e))

      asked_robots_none :
          (b : Bool) (o : Option Bool) → (if b then o else some true) ≡ none → o ≡ none
      asked_robots_none true o h = h
      asked_robots_none false o h = absurd (ground (arith, h))

      on_allowed-IsCounted :
          (o : Option Bool) (item : SyncItem) (s : ScraperState env.Breaker)
          → Telling s
          → (o ≡ none → F)
          → (item.robots_allow ≡ none → F)
          → IsCounted s (on_allowed env config o url item s)
      unfolding on_allowed
      on_allowed-IsCounted none item s g h k = (refl, h refl)
      on_allowed-IsCounted (some false) item s g h k = sum_values-bump _ s.failure_reasons
      on_allowed-IsCounted (some true) item s g h k =
          on_robots-IsCounted _ item s g
            (λ e. k (asked_robots_none config.respect_robots item.robots_allow e))

  pub scrape_url-IsCounted :
      (item : SyncItem) (s : ScraperState env.Breaker)
      → IsCounted (IsFault item s) s (scrape_url env config item s)
  unfolding scrape_url
  scrape_url-IsCounted item s =
      let url = resolve_redirect_url item.url in
      let (allowed, cb') = env.is_allowed url s.cb in
      on_allowed-IsCounted (IsFault item s) url (λ e. inr (inr (inl e))) allowed item
        (record s { cb = cb' }) (λ e. inr (inr (inr (inl e))), λ e. inr (inr (inr (inr e))))
        (λ e. inl e) (λ e. inr (inl e))
