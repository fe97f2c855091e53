-- ===== src/DiversityScorer/Concentration.antt =====
-- How the concentration index, the dominant share and the counts of a batch relate.
use mapear_rn.Base.{ℕ, ◌+◌, ◌*◌, ◌≤◌, String, ◌≡◌, [], ◌∷◌, Dict, lookup, get_or, All}
use mapear_rn.DiversityScorer.{DiversityReport}

abbrev pub sum_counts : Dict ℕ → ℕ
sum_counts [] = 0
sum_counts ((k, c) ∷ counts) = c + sum_counts counts

-- No count is above this one.
abbrev Below : ℕ → Dict ℕ → Type 0
Below m counts = All (λ (e : String × ℕ). e.1 ≤ m) counts

-- The counts add up to the total, no source has more than the dominant one, and the index lies
-- between the square of the dominant share and that share.
abbrev IsConsistent : ℕ → Dict ℕ → DiversityReport → Type 0
IsConsistent total counts r =
    (sum_counts r.source_distribution ≡ total)
    × ((s : String) → get_or (lookup s counts) 0 ≤ r.dominant_source_share.num)
    × (r.dominant_source_share.num * r.dominant_source_share.num ≤ r.source_concentration_index.num)
    × (r.source_concentration_index.num ≤ r.dominant_source_share.num * total)

-- The share is out of the articles and the index out of their square.
abbrev AreOutOf : ℕ → DiversityReport → Type 0
AreOutOf total r =
    (r.dominant_source_share.den ≡ total) × (r.source_concentration_index.den ≡ total * total)
