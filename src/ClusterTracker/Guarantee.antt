-- ===== src/ClusterTracker/Guarantee.antt =====
-- What `match_communities` guarantees of its assignment.
use mapear_rn.Base.{
  ℕ, ◌≡◌, refl, true, ◌||◌, inl, inr, Option, some, List, [], ◌∷◌, arith, All, All-mono, All-both,
  subst, sym, Bool-cases, has, NatDict, find_key, find_key-put_key,
}
use mapear_rn.ClusterTracker.{
  CommunityStats, Fraction, Scored, sets_by_id, score_all, sort_scored, greedy, fill_none,
  match_both,
}
use mapear_rn.ClusterTracker.Order.{
  Below, Descending, Reaches, All-sort_scored, All-unsort_scored, Descending-sort_scored,
  score_all-Reaches,
}
use mapear_rn.ClusterTracker.Matching.{
  Matched, IsMatching, IsMatching-empty, IsMatching-step, Matched-fill_none, fill_none-All,
  HasEntry,
}
use mapear_rn.ClusterTracker.Stability.{
  IsAmong, IsAmong-self, Pair, IsSettled, greedy-apart, greedy-Pair, greedy-keeps, greedy-cases,
  greedy-skip, greedy-take, taken, taken-Pair, le_fraction_refl,
}

IsSettled-passed :
    (Q : Scored → Type 0) (e : Scored) (es : List Scored) (mt my : List ℕ)
    (a final : NatDict (Option ℕ))
    → IsMatching mt my a
    → (has e.tid mt || has e.yid my) ≡ true
    → ((t y : ℕ) → Matched a t y → Pair (λ m. Q m × All (Below m) (e ∷ es)) t y)
    → ((t y : ℕ) → Matched a t y → Matched final t y)
    → IsSettled final Q e
IsSettled-passed Q e es mt my a final i b from keep = elim (Bool-cases (has e.tid mt)) [
  | inl h ↦
      let (y, n) = i.from_today e.tid h in
      let (m, is_t, is_y, q) = from e.tid y n in
      let n' = keep e.tid y n in (m, q.0, cc, inl is_t, q.1.0)
  | inr h ↦
      let (t, n) = i.from_yesterday e.yid (ground arith) in
      let (m, is_t, is_y, q) = from t e.yid n in
      let n' = keep t e.yid n in (m, q.0, cc, inr is_y, q.1.0)
]

greedy-IsSettled :
    (Q : Scored → Type 0) (es : List Scored) (mt my : List ℕ) (a : NatDict (Option ℕ))
    → IsMatching mt my a
    → Descending es
    → All Q es
    → ((t y : ℕ) → Matched a t y → Pair (λ m. Q m × All (Below m) es) t y)
    → All (IsSettled (greedy es mt my a) Q) es
greedy-IsSettled Q [] mt my a i d q from = tt
greedy-IsSettled Q (e ∷ es) mt my a i d q from = elim (greedy-cases e mt my) [
  | inl b ↦
      subst (λ g. All (IsSettled g Q) (e ∷ es)) (sym (greedy-skip e es mt my a b))
        (
          IsSettled-passed Q e es mt my a (greedy es mt my a) i b from
              (λ t y n. greedy-keeps es mt my a t y i n),
          greedy-IsSettled Q es mt my a i d.1 q.1
              (λ t y n. let (m, is_t, is_y, p) = from t y n in (m, is_t, is_y, (p.0, p.1.1))),
        )
  | inr (h, k) ↦
      let i' = IsMatching-step i e h k in
      subst (λ g. All (IsSettled g Q) (e ∷ es)) (sym (greedy-take e es mt my a h k))
        (
          (
            e,
            q.0,
            greedy-keeps es (e.tid ∷ mt) (e.yid ∷ my) (taken e a) e.tid e.yid i'
                (ground (arith, find_key-put_key e.tid e.tid (some e.yid) a)),
            inl refl,
            le_fraction_refl e.score,
          ),
          greedy-IsSettled Q es (e.tid ∷ mt) (e.yid ∷ my) (taken e a) i' d.1 q.1 (λ t y n.
              taken-Pair (λ m. Q m × All (Below m) es) e a t y (q.0, d.0)
                (λ n'. let (m, is_t, is_y, p) = from t y n' in (m, is_t, is_y, (p.0, p.1.1))) n),
        )
]

none-Matched : (t y : ℕ) → ¬ (Matched [] t y)
unfolding find_key
none-Matched t y m = cc

IsSettled-fill_none :
    (Q : Scored → Type 0) (cs : List CommunityStats) (a : NatDict (Option ℕ)) (e : Scored)
    → IsSettled a Q e
    → IsSettled (fill_none cs a) Q e
IsSettled-fill_none Q cs a e (m, q, n, near, le) =
    (m, q, (Matched-fill_none cs a m.tid m.yid).1 n, near, le)

-- The scored pairs of two days.
abbrev pub scored_pairs : List CommunityStats → List CommunityStats → Fraction → List Scored
scored_pairs today yesterday threshold =
    score_all threshold (sets_by_id today []) (sets_by_id yesterday [])

module _ (today yesterday : List CommunityStats) (threshold : Fraction) where
  abbrev pairs : List Scored
  pairs = scored_pairs today yesterday threshold

  abbrev chosen : NatDict (Option ℕ)
  chosen = greedy (sort_scored pairs) [] [] []

  -- Every community of today has an entry, with a partner or with none; no two of them share a
  -- partner; a partner comes from one of the scored pairs, whose score reaches the threshold; and
  -- for each scored pair one of its two communities is matched in a scored pair that scores no
  -- lower.
  pub match_both_guarantee :
      let a = match_both today yesterday threshold in
      All (λ c. HasEntry a c.community_id) today
      × ((t u y : ℕ) → Matched a t y → Matched a u y → t ≡ u)
      × ((t y : ℕ) → Matched a t y → Pair (λ m. IsAmong pairs m × Reaches threshold m) t y)
      × All (IsSettled a (IsAmong pairs)) pairs
  unfolding match_both
  match_both_guarantee = (
    fill_none-All today chosen,
    λ t u y m n.
        greedy-apart (sort_scored pairs) [] [] [] t u y IsMatching-empty
          ((Matched-fill_none today chosen t y).0 m) ((Matched-fill_none today chosen u y).0 n),
    λ t y m.
        greedy-Pair (λ p. IsAmong pairs p × Reaches threshold p) (sort_scored pairs) [] [] []
          (All-sort_scored _ pairs (
            All-both _ _ pairs (IsAmong-self pairs)
              (score_all-Reaches threshold (sets_by_id today []) (sets_by_id yesterday []))))
          (λ u z n. absurd (none-Matched u z n)) t y ((Matched-fill_none today chosen t y).0 m),
    All-mono _ _ pairs (IsSettled-fill_none (IsAmong pairs) today chosen) (
        All-unsort_scored _ pairs (
          greedy-IsSettled (IsAmong pairs) (sort_scored pairs) [] [] [] IsMatching-empty
            (Descending-sort_scored pairs (
              All-mono _ _ pairs (λ e r. r.1)
                (score_all-Reaches threshold (sets_by_id today []) (sets_by_id yesterday []))))
            (All-sort_scored _ pairs (IsAmong-self pairs)) (λ u z n. absurd (none-Matched u z n)))),
  )
