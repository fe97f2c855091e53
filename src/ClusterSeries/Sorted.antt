-- ===== src/ClusterSeries/Sorted.antt =====
-- `track_cluster_series` as a whole: its days sorted by date, its results by date and community.
use mapear_rn.Base.{
  ℕ, suc, ◌+◌, ◌<◌, String, ◌≡◌, ◌≢◌, refl, Bool, true, false, List, [], ◌∷◌, arith, if◌then◌else◌,
  length, count, length-append, All, All-append,
}
use mapear_rn.ClusterTracker.{Fraction}
use mapear_rn.ClusterSeries.{
  SeriesAssignment, Day, place_day, sort_days, le_result, place_result, sort_results, first_day,
  later_days, track_sorted, track_cluster_series,
}
use mapear_rn.ClusterSeries.Starts.{
  IsSound, Rising, communities, StartsBy-empty, first_day-IsSound, later_days-IsSound,
}
use mapear_rn.ClusterSeries.Counted.{is_at, occurrences, track_cluster_series-count}

-- The dates are the keys of a dictionary.
abbrev pub HasDistinctDates : List Day → Type 0
HasDistinctDates [] = Unit
HasDistinctDates (d ∷ days) = All (λ (e : Day). d.0 ≢ e.0) days × HasDistinctDates days

abbrev IsRising : List Day → Type 0
IsRising [] = Unit
IsRising (d ∷ days) = Rising d.0 days

Rising-place_day :
    (last : ℕ) (d : Day) (days : List Day)
    → last < d.0
    → All (λ (e : Day). d.0 ≢ e.0) days
    → Rising last days
    → Rising last (place_day d days)
Rising-place_day last d [] l n r = (l, tt)
Rising-place_day last d (e ∷ days) l n r =
    ground (arith, n.0, r.0, r.1, Rising-place_day e.0 d days)

IsRising-place_day :
    (d : Day) (days : List Day)
    → All (λ (e : Day). d.0 ≢ e.0) days
    → IsRising days
    → IsRising (place_day d days)
IsRising-place_day d [] n r = tt
IsRising-place_day d (e ∷ days) n r = ground (arith, n.0, Rising-place_day e.0 d days)

All-place_day :
    (P : Day → Type 0) (d : Day) (days : List Day) → P d → All P days → All P (place_day d days)
All-place_day P d [] h k = (h, tt)
All-place_day P d (e ∷ days) h k = ground (arith, All-place_day P d days h k.1)

All-sort_days : (P : Day → Type 0) (days : List Day) → All P days → All P (sort_days days)
unfolding sort_days
All-sort_days P [] h = tt
All-sort_days P (d ∷ days) h = All-place_day P d (sort_days days) h.0 (All-sort_days P days h.1)

IsRising-sort_days : (days : List Day) → HasDistinctDates days → IsRising (sort_days days)
unfolding sort_days
IsRising-sort_days [] h = tt
IsRising-sort_days (d ∷ days) h =
    IsRising-place_day d (sort_days days) (All-sort_days _ days h.0) (IsRising-sort_days days h.1)

communities-place_day :
    (d : Day) (days : List Day) → communities (place_day d days) ≡ length d.1 + communities days
communities-place_day d [] = refl
communities-place_day d (e ∷ days) = ground (arith, communities-place_day d days)

communities-sort_days : (days : List Day) → communities (sort_days days) ≡ communities days
unfolding sort_days
communities-sort_days [] = refl
communities-sort_days (d ∷ days) =
    omega (arith, communities-place_day d (sort_days days), communities-sort_days days)

kept_either :
    (b : Bool) (xs ys : List SeriesAssignment) (n : ℕ)
    → All IsSound xs × (length xs ≡ n)
    → All IsSound ys × (length ys ≡ n)
    → All IsSound (if b then xs else ys) × (length (if b then xs else ys) ≡ n)
kept_either true xs ys n h k = h
kept_either false xs ys n h k = k

place_result-kept :
    (r : SeriesAssignment) (rs : List SeriesAssignment)
    → IsSound r
    → All IsSound rs
    → All IsSound (place_result r rs) × (length (place_result r rs) ≡ suc (length rs))
place_result-kept r [] h k = ((h, tt), refl)
place_result-kept r (x ∷ rs) h k =
    let (k', n) = place_result-kept r rs h k.1 in
    kept_either (le_result r x) (r ∷ x ∷ rs) (x ∷ place_result r rs) (suc (suc (length rs)))
      ((h, k), omega arith) ((k.0, k'), omega (arith, n))

sort_results-kept :
    (rs : List SeriesAssignment)
    → All IsSound rs
    → All IsSound (sort_results rs) × (length (sort_results rs) ≡ length rs)
unfolding sort_results
sort_results-kept [] h = (tt, refl)
sort_results-kept (r ∷ rs) h =
    let (k, n) = sort_results-kept rs h.1 in
    let (k', n') = place_result-kept r (sort_results rs) h.0 k in (k', omega (arith, n, n'))

track_sorted-IsSound :
    (digest : List String → String) (threshold : Fraction) (days : List Day)
    → IsRising days
    → let rs = track_sorted digest threshold days in All IsSound rs × (length rs ≡ communities days)
unfolding track_sorted
track_sorted-IsSound digest threshold [] r = (tt, refl)
track_sorted-IsSound digest threshold ((date, today) ∷ days) r =
    let (s, b, n) = first_day-IsSound digest date today [] (StartsBy-empty date) in
    let (rs, reg) = first_day digest date today [] in
    let (s', n') = later_days-IsSound digest threshold today reg date days b r in
    (
      All-append IsSound rs _ s s',
      omega (arith, n, n', length-append rs (later_days digest threshold today reg days)),
    )

-- When no date occurs twice, tracking yields as many assignments as the days have communities: for
-- every date and community number, as many of that date and number as that day has; and in each of them a new series starts on the day itself and has no predecessor, while a continued
-- series started on an earlier day and has its overlap with the predecessor recorded.
pub track_cluster_series-IsSound :
    (digest : List String → String) (days : List Day) (threshold : Fraction)
    → HasDistinctDates days
    → let rs = track_cluster_series digest days threshold in
      All IsSound rs
      × (length rs ≡ communities days)
      × ((date id : ℕ) → count (is_at date id) rs ≡ occurrences date id days)
unfolding track_cluster_series
track_cluster_series-IsSound digest days threshold h =
    let (s, n) =
      track_sorted-IsSound digest threshold (sort_days days) (IsRising-sort_days days h) in
    let (s', n') = sort_results-kept (track_sorted digest threshold (sort_days days)) s in
    (
      s',
      omega (arith, n, n', communities-sort_days days),
      λ date id. track_cluster_series-count date id digest days threshold,
    )
