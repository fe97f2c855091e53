-- ===== src/DiversityScorer.antt =====
-- pipelines/mapear-rss/src/mapear_rss/analysis/diversity_scorer.py: does one source dominate a batch
-- of articles. Shares, the index and the threshold are exact fractions, before the rounding to four
-- digits.
pub mod Concentration
mod Tests
use mapear_rn.Base.{
  ℕ, ◌+◌, ◌*◌, String, Bool, true, false, not, Option, none, some, List, [], ◌∷◌, ltb, leb,
  if◌then◌else◌, length, Dict, lookup, insert, get_or,
}
use mapear_rn.ClusterTracker.{Fraction, le_fraction}
use mapear_rn.Deduplicator.{RawArticle}

pub record DiversityReport : Type 0 where
  pub total_articles : ℕ
  pub unique_sources : ℕ
  pub source_distribution : Dict ℕ
  pub source_concentration_index : Fraction
  pub dominant_source : Option String
  pub dominant_source_share : Fraction
  pub concentration_alert : Bool
  pub threshold : Fraction

-- `counts[f] = counts.get(f, 0) + 1` for each article
unfoldable pub count_sources : List RawArticle → Dict ℕ → Dict ℕ
count_sources [] counts = counts
count_sources (a ∷ articles) counts =
    count_sources articles
      (insert a.source_feed (get_or (lookup a.source_feed counts) 0 + 1) counts)

-- `sum((c / total) ** 2 …)` is the sum of the squares over the square of the total.
abbrev pub squares : Dict ℕ → ℕ
squares [] = 0
squares ((k, c) ∷ counts) = c * c + squares counts

-- `max(counts, key=…)`: the first of the greatest, from the best so far on
unfoldable pub dominant_from : String × ℕ → Dict ℕ → String × ℕ
dominant_from best [] = best
dominant_from best (e ∷ counts) = dominant_from (if ltb best.1 e.1 then e else best) counts

abbrev pub place_count : String × ℕ → Dict ℕ → Dict ℕ
place_count e [] = e ∷ []
place_count e (x ∷ counts) = if leb x.1 e.1 then e ∷ x ∷ counts else x ∷ place_count e counts

-- `sorted(counts.items(), key=lambda kv: -kv[1])`
unfoldable pub sort_counts : Dict ℕ → Dict ℕ
sort_counts [] = []
sort_counts (e ∷ counts) = place_count e (sort_counts counts)

abbrev pub zero_share : Fraction
zero_share = record { num = 0; den = 1 }

abbrev pub empty_report : Fraction → DiversityReport
empty_report threshold = record {
  total_articles = 0;
  unique_sources = 0;
  source_distribution = [];
  source_concentration_index = zero_share;
  dominant_source = none;
  dominant_source_share = zero_share;
  concentration_alert = false;
  threshold = threshold;
}

pub report_of : Fraction → ℕ → Dict ℕ → DiversityReport
report_of threshold total [] = empty_report threshold
report_of threshold total (e ∷ counts) =
    let dominant = dominant_from e counts in
    let share : Fraction = record { num = dominant.1; den = total } in
    record {
      total_articles = total;
      unique_sources = length (e ∷ counts);
      source_distribution = sort_counts (e ∷ counts);
      source_concentration_index = record { num = squares (e ∷ counts); den = total * total };
      dominant_source = some dominant.0;
      dominant_source_share = share;
      concentration_alert = not (le_fraction share threshold);
      threshold = threshold;
    }

-- No articles have no counts.
unfoldable pub compute : Fraction → List RawArticle → DiversityReport
unfolding report_of
compute threshold articles = report_of threshold (length articles) (count_sources articles [])
