-- ===== src/FeedMonitor/History.antt =====
-- How far back the monitor's history of failures reaches.
use mapear_rn.Base.{
  ℕ, ◌+◌, ◌≤◌, ◌<◌, String, ◌≡◌, refl, Option, none, some, List, [], ◌∷◌, arith, length,
  length-select-le, Dict, lookup, insert, lookup-insert, get_or, All,
}
use mapear_rn.FeedMonitor.{
  HeadOutcome, FeedHealth, FeedSource, past_failure, load_rows, load_consecutive_failures,
  check_each, unhealthy_names, check_all,
}

load_rows_bound :
    (rows : List FeedSource) (acc : Dict ℕ) (u : String)
    → get_or (lookup u acc) 0 ≤ 1
    → get_or (lookup u (load_rows rows acc)) 0 ≤ 1
unfolding load_rows
load_rows_bound [] acc u h = h
load_rows_bound (r ∷ rows) acc u h = ground (
  arith,
  load_rows_bound rows acc u h,
  load_rows_bound rows (insert r.url (past_failure r.last_error) acc) u,
  lookup-insert r.url u (past_failure r.last_error) acc,
)

history_bound :
    (table : Option (List FeedSource)) (u : String)
    → get_or (lookup u (load_consecutive_failures table)) 0 ≤ 1
unfolding load_consecutive_failures lookup
history_bound none u = omega arith
history_bound (some rows) u = load_rows_bound rows [] u (omega arith)

abbrev pub Reported : FeedHealth → Type 0
Reported h = h.consecutive_failures ≤ 2

check_each_bound :
    (clock : String → ℕ) (head : String → HeadOutcome) (table : Option (List FeedSource))
    (feeds : List (String × String))
    → All Reported (check_each clock head (load_consecutive_failures table) feeds)
unfolding check_each
check_each_bound clock head table [] = tt
check_each_bound clock head table ((name, url) ∷ feeds) =
    (ground (arith, history_bound table url), check_each_bound clock head table feeds)

none_unhealthy :
    (threshold : ℕ) (hs : List FeedHealth)
    → 2 < threshold
    → All Reported hs
    → unhealthy_names threshold hs ≡ []
none_unhealthy threshold [] l h = refl
none_unhealthy threshold (x ∷ hs) l h = ground (arith, h.0, none_unhealthy threshold hs l h.1)

length-check_each :
    (clock : String → ℕ) (head : String → HeadOutcome) (past : Dict ℕ)
    (feeds : List (String × String))
    → length (check_each clock head past feeds) ≡ length feeds
unfolding check_each
length-check_each clock head past [] = refl
length-check_each clock head past ((name, url) ∷ feeds) =
    omega (arith, length-check_each clock head past feeds)

-- Whatever the feeds, their history and their answers, no report counts more than two failures in
-- a row, so a threshold of three or more, as the default is, never names a feed as unhealthy; and
-- the available and the unavailable feeds are together all the feeds.
pub check_all-bound :
    (threshold : ℕ) (clock : String → ℕ) (head : String → HeadOutcome)
    (feeds : List (String × String)) (table : Option (List FeedSource))
    → 2 < threshold
    → let (report, table') = check_all threshold clock head feeds table in
      All Reported report.feeds
      × (report.unhealthy ≡ [])
      × (report.available_feeds + report.unavailable_feeds ≡ length feeds)
unfolding check_all
check_all-bound threshold clock head feeds table l =
    let bound = check_each_bound clock head table feeds in
    (
      bound,
      none_unhealthy threshold _ l bound,
      omega (
        arith,
        length-check_each clock head (load_consecutive_failures table) feeds,
        length-select-le (λ (h : FeedHealth). h.is_available)
            (check_each clock head (load_consecutive_failures table) feeds),
      ),
    )
