-- ===== src/ClusterTracker/Tests.antt =====
-- The matching of two small days.
use mapear_rn.Base.{ℕ, zero, suc, ◌≡◌, refl, some, List, [], ◌∷◌, All, put_key, find_key}
use mapear_rn.ClusterTracker.{
  AuthorKey, CommunityStats, Fraction, frozenset, jaccard_members, le_fraction, sets_by_id,
  score_all, sort_scored, greedy, fill_one, fill_none, match_both, match_communities,
}
use mapear_rn.ClusterTracker.Order.{Reaches}
use mapear_rn.ClusterTracker.Matching.{Matched, HasEntry}
use mapear_rn.ClusterTracker.Stability.{IsAmong, Pair, IsSettled}
use mapear_rn.ClusterTracker.Guarantee.{scored_pairs, match_both_guarantee}

abbrev author : ℕ → AuthorKey
author zero = record { platform = "x"; author_id = "a" }
author (suc zero) = record { platform = "x"; author_id = "b" }
author n = record { platform = "facebook"; author_id = "a" }

abbrev today : List CommunityStats
today =
    record { community_id = 0; members = author 0 ∷ author 1 ∷ [] }
    ∷ record { community_id = 1; members = author 2 ∷ [] }
    ∷ []

abbrev yesterday : List CommunityStats
yesterday =
    record { community_id = 5; members = author 2 ∷ [] }
    ∷ record { community_id = 6; members = author 0 ∷ author 1 ∷ author 2 ∷ [] }
    ∷ []

abbrev half : Fraction
half = record { num = 1; den = 2 }

match-two : match_communities today yesterday half ≡ (1, some 5) ∷ (0, some 6) ∷ []
unfolding match_communities sort_scored score_all sets_by_id frozenset jaccard_members le_fraction
    greedy fill_one fill_none put_key find_key
match-two = refl

match_both_guarantee_example :
    let a = match_both today yesterday half in
    let pairs = scored_pairs today yesterday half in
    All (λ c. HasEntry a c.community_id) today
    × ((t u y : ℕ) → Matched a t y → Matched a u y → t ≡ u)
    × ((t y : ℕ) → Matched a t y → Pair (λ m. IsAmong pairs m × Reaches half m) t y)
    × All (IsSettled a (IsAmong pairs)) pairs
match_both_guarantee_example = match_both_guarantee today yesterday half
