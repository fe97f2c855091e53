-- ===== src/ClusterTracker/Matching.antt =====
-- The greedy matching: one partner at most for each community, on either day.
use mapear_rn.Base.{
  ℕ, ◌≡◌, true, false, Option, none, some, List, [], ◌∷◌, arith, ◌==◌, Bool-cases, get_or, All, inl,
  inr, has, NatDict, find_key, put_key, find_key-put_key,
}
use mapear_rn.ClusterTracker.{CommunityStats, Scored, fill_one, fill_none}

-- Today's community is matched to yesterday's.
abbrev pub Matched : NatDict (Option ℕ) → ℕ → ℕ → Type 0
Matched assignment t y = find_key t assignment ≡ some (some y)

-- The sets of matched ids are those of the assignment, and no partner is shared.
pub record IsMatching (mt my : List ℕ) (assignment : NatDict (Option ℕ)) : Type 0 where
  pub from_today : (t : ℕ) → has t mt ≡ true → (y : ℕ) × Matched assignment t y
  pub from_yesterday : (y : ℕ) → has y my ≡ true → (t : ℕ) × Matched assignment t y
  pub in_today : (t y : ℕ) → Matched assignment t y → has t mt ≡ true
  pub in_yesterday : (t y : ℕ) → Matched assignment t y → has y my ≡ true
  pub apart : (t u y : ℕ) → Matched assignment t y → Matched assignment u y → t ≡ u

module _ {mt my : List ℕ} {a : NatDict (Option ℕ)} (i : IsMatching mt my a) (e : Scored)
    (new_t : has e.tid mt ≡ false) (new_y : has e.yid my ≡ false) where
  abbrev added : NatDict (Option ℕ)
  added = put_key e.tid (some e.yid) a

  -- A match that was there stays.
  pub kept : (t y : ℕ) → Matched a t y → Matched added t y
  kept t y m = ground (arith, find_key-put_key e.tid t (some e.yid) a, i.in_today t y m)

  new_match : Matched added e.tid e.yid
  new_match = ground (arith, find_key-put_key e.tid e.tid (some e.yid) a)

  pub IsMatching-step : IsMatching (e.tid ∷ mt) (e.yid ∷ my) added
  IsMatching-step = record {
    from_today = λ t h. elim (Bool-cases (e.tid == t)) [
      | inl same ↦ (e.yid, ground (arith, find_key-put_key e.tid t (some e.yid) a))
      | inr other ↦ let (y, m) = i.from_today t (ground arith) in (y, kept t y m)
    ];
    from_yesterday = λ y h. elim (Bool-cases (e.yid == y)) [
      | inl same ↦ (e.tid, ground (arith, find_key-put_key e.tid e.tid (some e.yid) a))
      | inr other ↦ let (t, m) = i.from_yesterday y (ground arith) in (t, kept t y m)
    ];
    in_today = λ t y m. ground (arith, find_key-put_key e.tid t (some e.yid) a, i.in_today t y);
    in_yesterday =
        λ t y m. ground (arith, find_key-put_key e.tid t (some e.yid) a, i.in_yesterday t y);
    apart = λ t u y m n. ground (
      arith,
      find_key-put_key e.tid t (some e.yid) a,
      find_key-put_key e.tid u (some e.yid) a,
      i.in_yesterday t y,
      i.in_yesterday u y,
      i.apart t u y,
    );
  }

pub IsMatching-empty : IsMatching [] [] []
unfolding find_key
IsMatching-empty = record {
  from_today = λ t h. cc;
  from_yesterday = λ y h. cc;
  in_today = λ t y m. cc;
  in_yesterday = λ t y m. cc;
  apart = λ t u y m n. cc;
}

Matched-fill_one :
    (c : CommunityStats) (a : NatDict (Option ℕ)) (t y : ℕ)
    → (Matched (fill_one c a) t y → Matched a t y) × (Matched a t y → Matched (fill_one c a) t y)
unfolding fill_one
Matched-fill_one c a t y = (
  λ m. ground (arith, find_key-put_key c.community_id t none a),
  λ m. ground (arith, find_key-put_key c.community_id t none a),
)

-- Filling in the communities without a partner changes no match.
pub Matched-fill_none :
    (cs : List CommunityStats) (a : NatDict (Option ℕ)) (t y : ℕ)
    → (Matched (fill_none cs a) t y → Matched a t y)
      × (Matched a t y → Matched (fill_none cs a) t y)
unfolding fill_none
Matched-fill_none [] a t y = (λ m. m, λ m. m)
Matched-fill_none (c ∷ cs) a t y =
    let one = Matched-fill_one c a t y in
    let ih = Matched-fill_none cs (fill_one c a) t y in (λ m. one.0 (ih.0 m), λ m. ih.1 (one.1 m))

abbrev pub HasEntry : NatDict (Option ℕ) → ℕ → Type 0
HasEntry a t = (v : Option ℕ) × (find_key t a ≡ some v)

fill_one-HasEntry :
    (c : CommunityStats) (a : NatDict (Option ℕ)) (t : ℕ) → HasEntry a t → HasEntry (fill_one c a) t
unfolding fill_one
fill_one-HasEntry c a t (v, h) = (v, ground (arith, find_key-put_key c.community_id t none a))

fill_one_self :
    (c : CommunityStats) (a : NatDict (Option ℕ)) → HasEntry (fill_one c a) c.community_id
unfolding fill_one
fill_one_self c a = (
  get_or (find_key c.community_id a) none,
  ground (arith, find_key-put_key c.community_id c.community_id none a),
)

fill_none-HasEntry :
    (cs : List CommunityStats) (a : NatDict (Option ℕ)) (t : ℕ)
    → HasEntry a t
    → HasEntry (fill_none cs a) t
unfolding fill_none
fill_none-HasEntry [] a t h = h
fill_none-HasEntry (c ∷ cs) a t h =
    fill_none-HasEntry cs (fill_one c a) t (fill_one-HasEntry c a t h)

-- Every community of the list has an entry, with a partner or with none.
pub fill_none-All :
    (cs : List CommunityStats) (a : NatDict (Option ℕ))
    → All (λ c. HasEntry (fill_none cs a) c.community_id) cs
unfolding fill_none
fill_none-All [] a = tt
fill_none-All (c ∷ cs) a = (
  fill_none-HasEntry cs (fill_one c a) c.community_id (fill_one_self c a),
  fill_none-All cs (fill_one c a),
)
