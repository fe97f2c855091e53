-- ===== src/ClusterSeries/Starts.antt =====
-- When the series of a tracked community began.
use mapear_rn.Base.{
  ℕ, ◌+◌, ◌≤◌, ◌<◌, String, ◌≡◌, ◌≢◌, refl, Option, none, some, List, [], ◌∷◌, arith, if◌then◌else◌,
  length, length-append, All, All-append, NatDict, find_key, put_key, find_key-put_key,
}
use mapear_rn.ClusterTracker.{
  AuthorKey, CommunityStats, Fraction, frozenset, sets_by_id, match_communities,
}
use mapear_rn.ClusterSeries.{
  series_id_of, SeriesAssignment, Entry, Registry, Day, continued, settle, first_day, one_community,
  later_day, later_days,
}

-- A new series starts on its day, without a predecessor; a continued one started before, and its
-- overlap with the predecessor is recorded.
abbrev pub IsSound : SeriesAssignment → Type 0
IsSound r =
    if r.is_new_series
    then (r.series_start_date ≡ r.activation_date) × (r.jaccard_to_previous ≡ none)
    else (r.series_start_date < r.activation_date) × (r.jaccard_to_previous ≢ none)

-- The entries start by this date.
abbrev pub StartsBy : ℕ → Registry → Type 0
StartsBy date reg = (id : ℕ) (e : Entry) → find_key id reg ≡ some e → e.start_date ≤ date

StartsBy-put_key :
    (date id : ℕ) (e : Entry) (reg : Registry)
    → e.start_date ≤ date
    → StartsBy date reg
    → StartsBy date (put_key id e reg)
StartsBy-put_key date id e reg h k j f q = ground (arith, h, k j f, q, find_key-put_key id j e reg)

-- Each day is after the one before.
abbrev pub Rising : ℕ → List Day → Type 0
Rising last [] = Unit
Rising last (d ∷ days) = (last < d.0) × Rising d.0 days

abbrev pub communities : List Day → ℕ
communities [] = 0
communities (d ∷ days) = length d.1 + communities days

pub StartsBy-empty : (date : ℕ) → StartsBy date []
unfolding find_key
StartsBy-empty date id e h = absurd (ground arith)

module _ (digest : List String → String) where
  pub first_day-IsSound :
      (date : ℕ) (cs : List CommunityStats) (reg : Registry)
      → StartsBy date reg
      → let (rs, reg') = first_day digest date cs reg in
        All IsSound rs × StartsBy date reg' × (length rs ≡ length cs)
  unfolding first_day
  first_day-IsSound date [] reg h = (tt, h, refl)
  first_day-IsSound date (c ∷ cs) reg h =
      let sid = series_id_of digest (frozenset c.members) in
      let (s, b, n) =
        first_day-IsSound date cs
          (put_key c.community_id record { sid = sid; start_date = date } reg)
          (StartsBy-put_key date c.community_id record { sid = sid; start_date = date } reg
            (omega arith) h) in
      (((refl, refl), s), b, omega (arith, n))

  settle-IsSound :
      (date last tid : ℕ) (members : List AuthorKey) (ys : NatDict (List AuthorKey))
      (o : Option (ℕ × Entry))
      → last < date
      → ((yid : ℕ) (e : Entry) → o ≡ some (yid, e) → e.start_date ≤ last)
      → let (r, entry) = settle digest date tid members ys o in
        IsSound r × (entry.start_date ≤ date)
  unfolding settle
  settle-IsSound date last tid members ys none l h = ((refl, refl), omega arith)
  settle-IsSound date last tid members ys (some (yid, e)) l h =
      let b = h yid e refl in ((omega (arith, b), λ q. cc), omega (arith, b))

  continued-old :
      (id yid : ℕ) (e : Entry) (assignment : NatDict (Option ℕ)) (old : Registry)
      → continued assignment old id ≡ some (yid, e)
      → find_key yid old ≡ some e
  continued-old id yid e assignment old q = ground arith

  continued-by :
      (date id yid : ℕ) (e : Entry) (assignment : NatDict (Option ℕ)) (old : Registry)
      → StartsBy date old
      → continued assignment old id ≡ some (yid, e)
      → e.start_date ≤ date
  continued-by date id yid e assignment old h q = h yid e (continued-old id yid e assignment old q)

  one_community-IsSound :
      (date last : ℕ) (ts ys : NatDict (List AuthorKey)) (assignment : NatDict (Option ℕ))
      (old : Registry) (c : CommunityStats)
      → last < date
      → StartsBy last old
      → let (r, entry) = one_community digest date ts ys assignment old c in
        IsSound r × (entry.start_date ≤ date)
  unfolding one_community
  one_community-IsSound date last ts ys assignment old c l h =
      settle-IsSound date last c.community_id _ ys (continued assignment old c.community_id) l
        (λ yid e. continued-by last c.community_id yid e assignment old h)

  later_day-IsSound :
      (date last : ℕ) (ts ys : NatDict (List AuthorKey)) (assignment : NatDict (Option ℕ))
      (old : Registry) (cs : List CommunityStats) (reg : Registry)
      → last < date
      → StartsBy last old
      → StartsBy date reg
      → let (rs, reg') = later_day digest date ts ys assignment old cs reg in
        All IsSound rs × StartsBy date reg' × (length rs ≡ length cs)
  unfolding later_day
  later_day-IsSound date last ts ys assignment old [] reg l h k = (tt, k, refl)
  later_day-IsSound date last ts ys assignment old (c ∷ cs) reg l h k =
      let (r, entry) = one_community digest date ts ys assignment old c in
      let (sound, by) = one_community-IsSound date last ts ys assignment old c l h in
      let (s, b, n) =
        later_day-IsSound date last ts ys assignment old cs (put_key c.community_id entry reg) l h
          (StartsBy-put_key date c.community_id entry reg by k) in
      ((sound, s), b, omega (arith, n))

  pub later_days-IsSound :
      (threshold : Fraction) (yesterday : List CommunityStats) (reg : Registry) (last : ℕ)
      (days : List Day)
      → StartsBy last reg
      → Rising last days
      → let rs = later_days digest threshold yesterday reg days in
        All IsSound rs × (length rs ≡ communities days)
  unfolding later_days
  later_days-IsSound threshold yesterday reg last [] h r = (tt, refl)
  later_days-IsSound threshold yesterday reg last ((date, today) ∷ days) h r =
      let ts = sets_by_id today [] in
      let ys = sets_by_id yesterday [] in
      let a = match_communities today yesterday threshold in
      let (s, b, n) =
        later_day-IsSound date last ts ys a reg today [] r.0 h (StartsBy-empty date) in
      let (rs, reg') = later_day digest date ts ys a reg today [] in
      let (s', n') = later_days-IsSound threshold today reg' date days b r.1 in
      (
        All-append IsSound rs _ s s',
        omega (arith, n, n', length-append rs (later_days digest threshold today reg' days)),
      )
