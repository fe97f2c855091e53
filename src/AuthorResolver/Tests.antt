-- ===== src/AuthorResolver/Tests.antt =====
-- The theorem of the union-find at three accounts, two of one platform, and runs of it.
use mapear_rn.Base.{ℕ, ◌≤◌, ◌≡◌, refl, ◌↔◌, true, some, List, [], ◌∷◌, find_key, put_key}
use mapear_rn.AuthorResolver.{
  ambiguous, Thresholds, score_pair, find, find_from, union, unite, gather, connected_components,
}
use mapear_rn.AuthorResolver.Closure.{inner, Connected, unite-Connected}

-- Accounts 0 and 1 are of one platform and each matches account 2 of another; 7 is not of the batch.
abbrev matches : List (ℕ × ℕ)
matches = (0, 2) ∷ (1, 2) ∷ (3, 7) ∷ []

unite-Connected_example :
    let p = unite 4 matches (λ z. z) in
    (((find 0 p).0 ≡ (find 1 p).0) ↔ Connected (inner 4 matches) 0 1) × ((find 0 p).0 ≤ 0)
unite-Connected_example = unite-Connected 4 matches 0 1

one_platform_merged : connected_components 4 matches ≡ (0, 0 ∷ 1 ∷ 2 ∷ []) ∷ (3, 3 ∷ []) ∷ []
unfolding connected_components gather unite union find find_from find_key put_key
one_platform_merged = refl

abbrev thresholds : Thresholds
thresholds = record {
  handle_similarity = 90;
  display_name_similarity = 90;
  min_shared_content = 1;
  use_content_hash_bridge = true;
  content_bridge_handle_floor = 60;
}

an_enumeration :
    score_pair thresholds
      (record { handle_sim = 97; display_sim = some 95; enumerated = true; overlap = 0 })
    ≡ (ambiguous, 97)
unfolding score_pair
an_enumeration = refl
