-- ===== src/FeedMonitor/Volumes.antt =====
-- The daily volume that the summary gives for a feed.
use mapear_rn.Base.{
  ℕ, ◌+◌, String, ◌≡◌, ◌&&◌, some, List, [], ◌∷◌, arith, str_eq, Dict, lookup, insert,
  lookup-recounted, get_or, count, All,
}
use mapear_rn.Frontier.{Frontier}
use mapear_rn.Frontier.Rows.{Row}
use mapear_rn.FeedMonitor.{
  FeedHealth, FeedHealthReport, is_of_day, count_feeds, get_daily_volumes, summarise, build_report,
}

lookup-count_feeds :
    (day : ℕ) (u : String) (rows : List Row) (counts : Dict ℕ)
    → get_or (lookup u (count_feeds day rows counts)) 0
      ≡ get_or (lookup u counts) 0 + count (λ r. is_of_day day r && str_eq r.source_feed u) rows
unfolding count_feeds
lookup-count_feeds day u [] counts = omega arith
lookup-count_feeds day u (r ∷ rows) counts =
    let counts' = insert r.source_feed (get_or (lookup r.source_feed counts) 0 + 1) counts in
    ground (
      arith,
      lookup-count_feeds day u rows counts,
      lookup-count_feeds day u rows counts',
      lookup-recounted u r.source_feed counts,
    )

summarise-All :
    (day : ℕ) (f : Frontier) (hs : List FeedHealth)
    → All
        (λ s.
          s.daily_volume ≡ count (λ r. is_of_day day r && str_eq r.source_feed s.health.url) f.rows)
        (summarise (get_daily_volumes (some f) day) hs)
unfolding get_daily_volumes lookup
summarise-All day f [] = tt
summarise-All day f (h ∷ hs) =
    (omega (arith, lookup-count_feeds day h.url f.rows []), summarise-All day f hs)

-- In the summary of a day every feed's volume is the number of the frontier's rows that were found
-- on that day through the feed's address and are completed.
build_report_lem :
    (day : ℕ) (f : Frontier) (report : FeedHealthReport)
    → All
        (λ s.
          s.daily_volume ≡ count (λ r. is_of_day day r && str_eq r.source_feed s.health.url) f.rows)
        (build_report report (get_daily_volumes (some f) day))
unfolding build_report
build_report_lem day f report = summarise-All day f report.feeds
