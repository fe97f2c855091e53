-- ===== src/Scraper/Accounts.antt =====
-- Every URL of a batch is accounted for.
use mapear_rn.Base.{
  ◌+◌, ◌≡◌, refl, Bool, true, false, Option, none, some, List, [], ◌∷◌, ◌++◌, arith, length, count,
  ap, ◌∙◌,
}
use mapear_rn.Scraper.State.{Services, Settings, ScraperState, ParsedArticle, count_failure}
use mapear_rn.Scraper.Attempts.{Scraped, found, nothing, failed}
use mapear_rn.Scraper.Batches.{
  SyncServices, SyncItem, SyncResult, ended, broke, scrape_url, kept_of, after_url,
  scrape_batch_sync, keep_article, gathered,
}
use mapear_rn.Scraper.SyncCounts.{
  sum_values, sum_values-bump, IsFault, IsCounted, scrape_url-IsCounted,
}

module _ (env : SyncServices) (config : Settings) where
  -- The URLs done before the one that an exception left, with their articles
  pub record IsBroken (items : List SyncItem) (s s' : ScraperState env.Breaker) : Type 0 where
    pub done : List SyncItem
    pub item : SyncItem
    pub others : List SyncItem
    pub articles : List ParsedArticle
    pub before : ScraperState env.Breaker
    pub items_split : items ≡ done ++ item ∷ others
    pub done_found : scrape_batch_sync env config done s ≡ (some articles, before)
    pub item_broke : scrape_url env config item before ≡ (broke, s')
    pub item_fault : IsFault env config item before
    pub done_counted :
        length articles + sum_values s'.failure_reasons ≡ length done + sum_values s.failure_reasons

  abbrev pub IsAccounted :
      List SyncItem
      → ScraperState env.Breaker
      → Option (List ParsedArticle) × ScraperState env.Breaker
      → Type 0
  IsAccounted items s (some articles, s') =
      length articles + sum_values s'.failure_reasons ≡ length items + sum_values s.failure_reasons
  IsAccounted items s (none, s') = IsBroken items s s'

  keep_article-IsCounted :
      (F : Type 0) (s : ScraperState env.Breaker) (o : Option ParsedArticle)
      (t : ScraperState env.Breaker) (rest : List ParsedArticle)
      → IsCounted env config F s (ended o, t)
      → length (keep_article o rest) + sum_values t.failure_reasons
        ≡ length rest + 1 + sum_values s.failure_reasons
  keep_article-IsCounted F s none t rest h = omega (arith, h)
  keep_article-IsCounted F s (some a) t rest h = omega (arith, ap sum_values h)

  kept_of-IsAccounted :
      (item : SyncItem) (items : List SyncItem) (s t : ScraperState env.Breaker)
      (a : Option ParsedArticle) (x : Option (List ParsedArticle) × ScraperState env.Breaker)
      → scrape_url env config item s ≡ (ended a, t)
      → IsCounted env config (IsFault env config item s) s (ended a, t)
      → IsAccounted items t x
      → IsAccounted (item ∷ items) s (kept_of env config a x)
  unfolding scrape_batch_sync
  kept_of-IsAccounted item items s t a (some rest, s') e h k =
      omega (arith, keep_article-IsCounted (IsFault env config item s) s a t rest h, k)
  kept_of-IsAccounted item items s t a (none, s') e h k = record {
    done = item ∷ k.done;
    item = k.item;
    others = k.others;
    articles = keep_article a k.articles;
    before = k.before;
    items_split = ap (λ is. item ∷ is) k.items_split;
    done_found =
        ap (λ r. after_url env config r (λ u. scrape_batch_sync env config k.done u)) e
        ∙ ap (kept_of env config a) k.done_found;
    item_broke = k.item_broke;
    item_fault = k.item_fault;
    done_counted = omega (
      arith,
      keep_article-IsCounted (IsFault env config item s) s a t k.articles h,
      k.done_counted,
    );
  }

  after_url-IsAccounted :
      (item : SyncItem) (items : List SyncItem) (s : ScraperState env.Breaker)
      (r : SyncResult × ScraperState env.Breaker)
      → scrape_url env config item s ≡ r
      → IsCounted env config (IsFault env config item s) s r
      → ((t : ScraperState env.Breaker)
          → IsAccounted items t (scrape_batch_sync env config items t))
      → IsAccounted
          (item ∷ items)
          s
          (after_url env config r (λ t. scrape_batch_sync env config items t))
  unfolding scrape_batch_sync
  after_url-IsAccounted item items s (ended a, t) e h k =
      kept_of-IsAccounted item items s t a (scrape_batch_sync env config items t) e h (k t)
  after_url-IsAccounted item items s (broke, t) e h k = record {
    done = [];
    item = item;
    others = items;
    articles = [];
    before = s;
    items_split = refl;
    done_found = refl;
    item_broke = e;
    item_fault = h.1;
    done_counted = ap (λ d. 0 + sum_values d) h.0;
  }

  -- When scraping a batch one URL after another returns, every URL became an article or one counted
  -- failure: the articles and the new failures are together as many as the URLs. When an exception
  -- leaves it, it left the scraping of one URL, which counted nothing, and the URLs before it had
  -- become articles or counted failures in the same way; the exception was the breaker's, that of
  -- robots.txt, or that of a URL without a netloc.
  pub scrape_batch_sync-sum_values :
      (items : List SyncItem) (s : ScraperState env.Breaker)
      → IsAccounted items s (scrape_batch_sync env config items s)
  unfolding scrape_batch_sync
  scrape_batch_sync-sum_values [] s = refl
  scrape_batch_sync-sum_values (item ∷ items) s =
      after_url-IsAccounted item items s (scrape_url env config item s) refl
        (scrape_url-IsCounted env config item s) (λ t. scrape_batch_sync-sum_values items t)

abbrev is_found : Scraped → Bool
is_found (found a) = true
is_found nothing = false
is_found failed = false

abbrev is_failed : Scraped → Bool
is_failed (found a) = false
is_failed nothing = false
is_failed failed = true

-- Of the results of a batch of coroutines, every article is handed on, and every one that raised
-- is counted as a failure; nothing else of the state changes.
gathered-sum_values :
    (env : Services) (config : Settings) (results : List Scraped) (s : ScraperState env.Breaker)
    → let (articles, s') = gathered env config results s in
      (length articles ≡ count is_found results)
      × (sum_values s'.failure_reasons ≡ sum_values s.failure_reasons + count is_failed results)
      × (s'.cb ≡ s.cb)
      × (s'.deferred_urls ≡ s.deferred_urls)
unfolding gathered
gathered-sum_values env config [] s = (refl, omega arith, refl, refl)
gathered-sum_values env config (found a ∷ results) s =
    let h = gathered-sum_values env config results s in
    (omega (arith, h.0), omega (arith, h.1), h.2, h.3)
gathered-sum_values env config (nothing ∷ results) s =
    let h = gathered-sum_values env config results s in
    (omega (arith, h.0), omega (arith, h.1), h.2, h.3)
gathered-sum_values env config (failed ∷ results) s =
    let h = gathered-sum_values env config results (count_failure "unhandled_exception" s) in
    (
      omega (arith, h.0),
      omega (arith, h.1, sum_values-bump "unhandled_exception" s.failure_reasons),
      h.2,
      h.3,
    )
