-- ===== src/DiversityScorer/Tests.antt =====
-- A batch of four articles, three of them from one source.
use mapear_rn.Base.{String, ◌≡◌, refl, true, some, List, [], ◌∷◌, lookup, insert}
use mapear_rn.ClusterTracker.{Fraction, le_fraction}
use mapear_rn.Deduplicator.{RawArticle}
use mapear_rn.DiversityScorer.{count_sources, dominant_from, sort_counts, report_of, compute}

abbrev from_source : String → RawArticle
from_source s = record { url = "u"; content_hash = "h"; source_feed = s }

abbrev four_articles : List RawArticle
four_articles = from_source "b" ∷ from_source "a" ∷ from_source "a" ∷ from_source "a" ∷ []

abbrev seven_tenths : Fraction
seven_tenths = record { num = 7; den = 10 }

alert_of_four :
    let r = compute seven_tenths four_articles in
    (r.concentration_alert ≡ true)
    × (r.dominant_source ≡ some "a")
    × (r.source_concentration_index.num ≡ 10)
    × (r.source_distribution ≡ ("a", 3) ∷ ("b", 1) ∷ [])
unfolding compute report_of count_sources dominant_from sort_counts le_fraction lookup insert
alert_of_four = (refl, refl, refl, refl)
