-- ===== src/Scraper/Ends.antt =====
-- What the retry loop of a URL ends with: the verdict of one of its attempts.
use mapear_rn.Base.{
  ℕ, zero, suc, ◌+◌, ◌<◌, String, ◌≡◌, refl, Bool, true, false, ◌&&◌, ◌||◌, not, arith,
  if◌then◌else◌,
}
use mapear_rn.Cooldown.{is_cool}
use mapear_rn.Scraper.State.{Services, Settings, ScraperState}
use mapear_rn.Scraper.Attempts.{
  Attempt, Step, finished, escaped, again, Scraped, nothing, failed, result_of, one_attempt,
  attempts, max_attempts,
}
use mapear_rn.Scraper.Budgets.{AreCovered, IsEarly, one_attempt-IsEarly}

module _ (env : Services) (config : Settings) (url : String) where
  -- An attempt that returns or raises ends with this; one that is followed by another leaves it to
  -- the others.
  abbrev pub EndedBy :
      Step env.Breaker
      → Scraped × ScraperState env.Breaker
      → (ScraperState env.Breaker → Type 0)
      → Type 0
  EndedBy (finished a t) x others = x ≡ (result_of a, t)
  EndedBy (escaped t) x others = x ≡ (failed, t)
  EndedBy (again t) x others = others t

  -- Of the attempts from the k-th on, at most n, one returns or raises this.
  abbrev pub EndsWithin :
      (ℕ → Attempt) → ℕ → ℕ → ScraperState env.Breaker → Scraped × ScraperState env.Breaker → Type 0
  EndsWithin world zero k s x = ⊥
  EndsWithin world (suc n) k s x =
      EndedBy (one_attempt env config url (world k) k s) x (λ t. EndsWithin world n (k + 1) t x)

  ends_by :
      (world : ℕ → Attempt) (n k : ℕ) (x : Step env.Breaker)
      → k + n ≡ max_attempts env config url
      → IsEarly env config url k x
      → ((t : ScraperState env.Breaker)
          → 0 < n
          → EndsWithin world n (k + 1) t (attempts env config url world n (k + 1) t))
      → let r : Scraped × ScraperState env.Breaker = elim x [
        | finished a t ↦ (result_of a, t)
        | escaped t ↦ (failed, t)
        | again t ↦ attempts env config url world n (k + 1) t
      ] in
        EndedBy x r (λ t. EndsWithin world n (k + 1) t r)
  ends_by world n k (finished a t) e early others = refl
  ends_by world n k (escaped t) e early others = refl
  ends_by world n k (again t) e early others = others t (omega (arith, e, early))

  pub attempts-EndsWithin :
      AreCovered env config url
      → (world : ℕ → Attempt) (n k : ℕ) (s : ScraperState env.Breaker)
      → k + n ≡ max_attempts env config url + 1
      → 0 < n
      → EndsWithin world n k s (attempts env config url world n k s)
  unfolding attempts
  attempts-EndsWithin covered world zero k s e h = absurd (omega (arith, h))
  attempts-EndsWithin covered world (suc n) k s e h =
      ends_by world n k (one_attempt env config url (world k) k s) (omega (arith, e))
        (one_attempt-IsEarly env config url covered (world k) k s)
        (λ t. attempts-EndsWithin covered world n (k + 1) t (omega (arith, e)))

  -- The state when the breaker and the cool-down were asked
  abbrev pub asked : ℕ → ScraperState env.Breaker → ScraperState env.Breaker
  asked now s = record s {
    cb = (env.is_allowed url s.cb).1;
    cooldown = (is_cool env.netloc config.force_scrape now url s.cooldown).1;
  }

  -- The breaker, robots.txt or the cool-down refuses the URL.
  abbrev pub is_refused : Bool → ℕ → ScraperState env.Breaker → Bool
  is_refused robots_allow now s =
      not (env.is_allowed url s.cb).0
      || ((config.respect_robots && not robots_allow)
          || not (is_cool env.netloc config.force_scrape now url s.cooldown).0)

  -- Nothing for a URL that is refused, and else the verdict of one of the attempts.
  abbrev pub IsDecided :
      Bool
      → ℕ
      → (ℕ → Attempt)
      → ℕ
      → ScraperState env.Breaker
      → Scraped × ScraperState env.Breaker
      → Type 0
  IsDecided robots_allow now world n s x =
      if is_refused robots_allow now s then x.0 ≡ nothing else EndsWithin world n 1 (asked now s) x

  pub decided_of :
      (P : Scraped × ScraperState env.Breaker → Type 0) (a b c : Bool)
      (x y z w : Scraped × ScraperState env.Breaker)
      → x.0 ≡ nothing
      → y.0 ≡ nothing
      → z.0 ≡ nothing
      → P w
      → let r = if a then x else if b then y else if c then z else w in
        if a || (b || c) then r.0 ≡ nothing else P r
  decided_of P true b c x y z w hx hy hz hw = hx
  decided_of P false true c x y z w hx hy hz hw = hy
  decided_of P false false true x y z w hx hy hz hw = hz
  decided_of P false false false x y z w hx hy hz hw = hw
