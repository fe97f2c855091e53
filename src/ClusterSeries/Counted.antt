-- ===== src/ClusterSeries/Counted.antt =====
-- Which assignments the tracking of communities makes: for each date and community, as many as the day
-- has communities of that number.
use mapear_rn.Base.{
  ℕ, ◌+◌, String, ◌≡◌, refl, ap, ◌∙◌, Bool, true, false, ◌&&◌, Option, none, some, List, [], ◌∷◌,
  arith, ◌==◌, if◌then◌else◌, count, count-append, NatDict, put_key,
}
use mapear_rn.ClusterTracker.{AuthorKey, CommunityStats, Fraction, sets_by_id, match_communities}
use mapear_rn.ClusterSeries.{
  SeriesAssignment, Entry, Registry, Day, place_day, sort_days, place_result, sort_results,
  continued, settle, first_day, one_community, later_day, later_days, track_sorted,
  track_cluster_series,
}

module _ (date id : ℕ) where
  -- The assignment is of this date and community.
  abbrev pub is_at : SeriesAssignment → Bool
  is_at r = (r.activation_date == date) && (r.community_id == id)

  -- The community has this number.
  abbrev pub is_numbered : CommunityStats → Bool
  is_numbered c = c.community_id == id

  abbrev pub numbered : Day → ℕ
  numbered (d, cs) = if d == date then count is_numbered cs else 0

  -- The communities of this date and number
  abbrev pub occurrences : List Day → ℕ
  occurrences [] = 0
  occurrences (d ∷ days) = numbered d + occurrences days

  occurrences-place_day :
      (d : Day) (days : List Day) → occurrences (place_day d days) ≡ numbered d + occurrences days
  occurrences-place_day d [] = refl
  occurrences-place_day d (e ∷ days) = ground (arith, occurrences-place_day d days)

  occurrences-sort_days : (days : List Day) → occurrences (sort_days days) ≡ occurrences days
  unfolding sort_days
  occurrences-sort_days [] = refl
  occurrences-sort_days (d ∷ days) =
      omega (arith, occurrences-place_day d (sort_days days), occurrences-sort_days days)

  count-place_result :
      (r : SeriesAssignment) (rs : List SeriesAssignment)
      → count is_at (place_result r rs) ≡ count is_at (r ∷ rs)
  count-place_result r [] = refl
  count-place_result r (x ∷ rs) = ground (arith, count-place_result r rs)

  count-sort_results : (rs : List SeriesAssignment) → count is_at (sort_results rs) ≡ count is_at rs
  unfolding sort_results
  count-sort_results [] = refl
  count-sort_results (r ∷ rs) =
      ground (arith, count-place_result r (sort_results rs), count-sort_results rs)

  one_more :
      (b c : Bool) (n m : ℕ)
      → n ≡ (if b then m else 0)
      → (if b && c then 1 else 0) + n ≡ (if b then (if c then 1 else 0) + m else 0)
  one_more true c n m h = omega (arith, h)
  one_more false c n m h = omega (arith, h)

  module _ (digest : List String → String) where
    first_day-count :
        (d : ℕ) (cs : List CommunityStats) (reg : Registry)
        → count is_at (first_day digest d cs reg).0 ≡ numbered (d, cs)
    unfolding first_day
    first_day-count d [] reg = ground arith
    first_day-count d (c ∷ cs) reg =
        one_more (d == date) (is_numbered c) _ (count is_numbered cs) (first_day-count d cs _)

    settle_at :
        (d tid : ℕ) (members : List AuthorKey) (ys : NatDict (List AuthorKey))
        (o : Option (ℕ × Entry))
        → is_at (settle digest d tid members ys o).0 ≡ ((d == date) && (tid == id))
    unfolding settle
    settle_at d tid members ys none = refl
    settle_at d tid members ys (some (yid, e)) = refl

    one_community_at :
        (d : ℕ) (ts ys : NatDict (List AuthorKey)) (assignment : NatDict (Option ℕ))
        (old : Registry) (c : CommunityStats)
        → is_at (one_community digest d ts ys assignment old c).0 ≡ ((d == date) && is_numbered c)
    unfolding one_community
    one_community_at d ts ys assignment old c =
        settle_at d c.community_id _ ys (continued assignment old c.community_id)

    later_day-count :
        (d : ℕ) (ts ys : NatDict (List AuthorKey)) (assignment : NatDict (Option ℕ))
        (old : Registry) (cs : List CommunityStats) (reg : Registry)
        → count is_at (later_day digest d ts ys assignment old cs reg).0 ≡ numbered (d, cs)
    unfolding later_day
    later_day-count d ts ys assignment old [] reg = ground arith
    later_day-count d ts ys assignment old (c ∷ cs) reg =
        let (r, entry) = one_community digest d ts ys assignment old c in
        let reg' = put_key c.community_id entry reg in
        let rest = count is_at (later_day digest d ts ys assignment old cs reg').0 in
        ap (λ b. (if b then 1 else 0) + rest) (one_community_at d ts ys assignment old c)
        ∙ one_more (d == date) (is_numbered c) rest (count is_numbered cs)
            (later_day-count d ts ys assignment old cs reg')

    later_days-count :
        (threshold : Fraction) (yesterday : List CommunityStats) (reg : Registry) (days : List Day)
        → count is_at (later_days digest threshold yesterday reg days) ≡ occurrences days
    unfolding later_days
    later_days-count threshold yesterday reg [] = refl
    later_days-count threshold yesterday reg ((d, today) ∷ days) =
        let ts = sets_by_id today [] in
        let ys = sets_by_id yesterday [] in
        let a = match_communities today yesterday threshold in
        let (rs, reg') = later_day digest d ts ys a reg today [] in
        omega (
          arith,
          count-append is_at rs (later_days digest threshold today reg' days),
          later_day-count d ts ys a reg today [],
          later_days-count threshold today reg' days,
        )

    track_sorted-count :
        (threshold : Fraction) (days : List Day)
        → count is_at (track_sorted digest threshold days) ≡ occurrences days
    unfolding track_sorted
    track_sorted-count threshold [] = refl
    track_sorted-count threshold ((d, today) ∷ days) =
        let (rs, reg) = first_day digest d today [] in
        omega (
          arith,
          count-append is_at rs (later_days digest threshold today reg days),
          first_day-count d today [],
          later_days-count threshold today reg days,
        )

    pub track_cluster_series-count :
        (days : List Day) (threshold : Fraction)
        → count is_at (track_cluster_series digest days threshold) ≡ occurrences days
    unfolding track_cluster_series
    track_cluster_series-count days threshold = omega (
      arith,
      count-sort_results (track_sorted digest threshold (sort_days days)),
      track_sorted-count threshold (sort_days days),
      occurrences-sort_days days,
    )
