-- ===== src/ClusterSeries.antt =====
-- libs/mapear-nlp/src/mapear_nlp/graph/cluster_tracker.py, `track_cluster_series`: the communities of
-- all days chained into series by the matchings of adjacent days. A date is a number of days, and
-- `digest` stands for the first 16 digits of the SHA-1 of the sorted texts in JSON.
pub mod Starts
pub mod Counted
pub mod Sorted
mod Tests
use mapear_rn.Base.{
  ℕ, ◌+◌, String, Bool, true, false, ◌&&◌, ◌||◌, Option, none, some, List, [], ◌∷◌, ◌++◌, ltb, leb,
  ◌==◌, if◌then◌else◌, NatDict, find_key, put_key, get_or, join,
}
use mapear_rn.ClusterTracker.{
  AuthorKey, frozenset, CommunityStats, Fraction, jaccard_members, sets_by_id, match_communities,
}

pub record SeriesAssignment : Type 0 where
  pub activation_date : ℕ
  pub community_id : ℕ
  pub series_id : String
  pub series_start_date : ℕ
  pub jaccard_to_previous : Option Fraction
  pub is_new_series : Bool

-- The tuple `(sid, start_date)`
pub record Entry : Type 0 where
  pub sid : String
  pub start_date : ℕ

-- The entry of each community's series
abbrev pub Registry : Type 0
Registry = NatDict Entry

abbrev pub Day : Type 0
Day = ℕ × List CommunityStats

abbrev pub new_series : ℕ → ℕ → String → SeriesAssignment
new_series date id sid = record {
  activation_date = date;
  community_id = id;
  series_id = sid;
  series_start_date = date;
  jaccard_to_previous = none;
  is_new_series = true;
}

abbrev pub place_day : Day → List Day → List Day
place_day d [] = d ∷ []
place_day d (e ∷ days) = if leb d.0 e.0 then d ∷ e ∷ days else e ∷ place_day d days

-- `sorted(communities_by_date.keys())`, with the communities of each date
unfoldable pub sort_days : List Day → List Day
sort_days [] = []
sort_days (d ∷ days) = place_day d (sort_days days)

-- `(r.activation_date, r.community_id)` in the order of tuples
abbrev pub le_result : SeriesAssignment → SeriesAssignment → Bool
le_result a b =
    ltb a.activation_date b.activation_date
    || ((a.activation_date == b.activation_date) && leb a.community_id b.community_id)

abbrev pub place_result : SeriesAssignment → List SeriesAssignment → List SeriesAssignment
place_result r [] = r ∷ []
place_result r (x ∷ rs) = if le_result r x then r ∷ x ∷ rs else x ∷ place_result r rs

unfoldable pub sort_results : List SeriesAssignment → List SeriesAssignment
sort_results [] = []
sort_results (r ∷ rs) = place_result r (sort_results rs)

-- `assignment.get(tid)` and then the entry of `series_registry`
abbrev pub continued : NatDict (Option ℕ) → Registry → ℕ → Option (ℕ × Entry)
continued assignment old id = elim (find_key id assignment) [
  | none ↦ none
  | some none ↦ none
  | some (some yid) ↦ elim (find_key yid old) [ none ↦ none | some e ↦ some (yid, e) ]
]

-- `[f"{m.platform}:{m.author_id}" for m in members]`
abbrev pub canonical_names : List AuthorKey → List String
canonical_names [] = []
canonical_names (m ∷ members) = join m.platform (join ":" m.author_id) ∷ canonical_names members

module _ (digest : List String → String) where
  -- `_series_id`
  abbrev pub series_id_of : List AuthorKey → String
  series_id_of members = digest (canonical_names members)

  -- The bootstrap: the results and the registry of the first day.
  unfoldable pub first_day : ℕ → List CommunityStats → Registry → List SeriesAssignment × Registry
  first_day date [] reg = ([], reg)
  first_day date (c ∷ cs) reg =
      let sid = series_id_of (frozenset c.members) in
      let (rs, reg') =
        first_day date cs (put_key c.community_id record { sid = sid; start_date = date } reg) in
      (new_series date c.community_id sid ∷ rs, reg')

  -- The result and the entry of a community that starts or continues a series. A set is found for
  -- every predecessor, so the empty default is never used.
  unfoldable pub settle :
      ℕ
      → ℕ
      → List AuthorKey
      → NatDict (List AuthorKey)
      → Option (ℕ × Entry)
      → SeriesAssignment × Entry
  settle date tid today_members yesterday_sets none =
      let sid = series_id_of today_members in
      (new_series date tid sid, record { sid = sid; start_date = date })
  settle date tid today_members yesterday_sets (some (yid, entry)) = (
    record {
      activation_date = date;
      community_id = tid;
      series_id = entry.sid;
      series_start_date = entry.start_date;
      jaccard_to_previous =
          some (jaccard_members today_members (get_or (find_key yid yesterday_sets) []));
      is_new_series = false;
    },
    entry,
  )

  -- One community of a later day
  unfoldable pub one_community :
      ℕ
      → NatDict (List AuthorKey)
      → NatDict (List AuthorKey)
      → NatDict (Option ℕ)
      → Registry
      → CommunityStats
      → SeriesAssignment × Entry
  one_community date today_sets yesterday_sets assignment old c =
      let tid = c.community_id in
      settle date tid (get_or (find_key tid today_sets) []) yesterday_sets
        (continued assignment old tid)

  unfoldable pub later_day :
      ℕ
      → NatDict (List AuthorKey)
      → NatDict (List AuthorKey)
      → NatDict (Option ℕ)
      → Registry
      → List CommunityStats
      → Registry
      → List SeriesAssignment × Registry
  later_day date ts ys assignment old [] reg = ([], reg)
  later_day date ts ys assignment old (c ∷ cs) reg =
      let (r, entry) = one_community date ts ys assignment old c in
      let (rs, reg') = later_day date ts ys assignment old cs (put_key c.community_id entry reg) in
      (r ∷ rs, reg')

  -- The days after the first, each against the day before it
  unfoldable pub later_days :
      Fraction → List CommunityStats → Registry → List Day → List SeriesAssignment
  later_days threshold yesterday reg [] = []
  later_days threshold yesterday reg ((date, today) ∷ days) =
      let (rs, reg') =
        later_day date (sets_by_id today []) (sets_by_id yesterday [])
          (match_communities today yesterday threshold) reg today [] in
      rs ++ later_days threshold today reg' days

  unfoldable pub track_sorted : Fraction → List Day → List SeriesAssignment
  track_sorted threshold [] = []
  track_sorted threshold ((date, today) ∷ days) =
      let (rs, reg) = first_day date today [] in rs ++ later_days threshold today reg days

  unfoldable pub track_cluster_series : List Day → Fraction → List SeriesAssignment
  track_cluster_series communities_by_date threshold =
      sort_results (track_sorted threshold (sort_days communities_by_date))
