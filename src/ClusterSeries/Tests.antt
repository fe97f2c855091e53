-- ===== src/ClusterSeries/Tests.antt =====
-- Three days, given out of order: one community that lasts, one that appears on the second day.
use mapear_rn.Base.{ℕ, String, ◌≡◌, refl, List, [], ◌∷◌, map, All, length, count, find_key, put_key}
use mapear_rn.ClusterTracker.{
  AuthorKey, CommunityStats, Fraction, frozenset, jaccard_members, le_fraction, sets_by_id,
  score_all, sort_scored, greedy, fill_one, fill_none, match_both, match_communities,
}
use mapear_rn.ClusterSeries.{
  SeriesAssignment, Day, sort_days, sort_results, settle, first_day, one_community, later_day,
  later_days, track_sorted, track_cluster_series,
}
use mapear_rn.ClusterSeries.Starts.{IsSound, communities}
use mapear_rn.ClusterSeries.Counted.{is_at, occurrences}
use mapear_rn.ClusterSeries.Sorted.{track_cluster_series-IsSound}

abbrev member : String → AuthorKey
member id = record { platform = "x"; author_id = id }

abbrev digest : List String → String
digest [] = "none"
digest (k ∷ ks) = k

abbrev squad : ℕ → String → String → CommunityStats
squad n a b = record { community_id = n; members = member a ∷ member b ∷ [] }

abbrev three_days : List Day
three_days =
    (11, squad 4 "a" "b" ∷ squad 5 "c" "d" ∷ [])
    ∷ (10, squad 1 "a" "b" ∷ [])
    ∷ (12, squad 8 "d" "c" ∷ [])
    ∷ []

abbrev half : Fraction
half = record { num = 1; den = 2 }

starts_of_three :
    map
      (λ (r : SeriesAssignment). r.series_start_date)
      (track_cluster_series digest three_days half)
    ≡ 10 ∷ 10 ∷ 11 ∷ 11 ∷ []
unfolding track_cluster_series track_sorted sort_days sort_results settle first_day one_community
    later_day later_days match_communities match_both sort_scored score_all sets_by_id frozenset
    jaccard_members le_fraction greedy fill_one fill_none put_key find_key
starts_of_three = refl

track_cluster_series-IsSound_example :
    let rs = track_cluster_series digest three_days half in
    All IsSound rs
    × (length rs ≡ communities three_days)
    × ((date id : ℕ) → count (is_at date id) rs ≡ occurrences date id three_days)
track_cluster_series-IsSound_example =
    track_cluster_series-IsSound digest three_days half
      ((λ q. cc, (λ q. cc, tt)), ((λ q. cc, tt), (tt, tt)))
