-- ===== src/PoliticalSentiment.antt =====
-- libs/mapear-nlp/src/mapear_nlp/political_sentiment.py: the label of a mention, from its polarity and
-- how far it spreads. Scores are exact numbers of ten-thousandths; a polarity, which lies between
-- -1 and 1, is moved up by one. `_compute_confidence`, which takes exponentials and logarithms of
-- floating-point numbers, is an argument, and so is the `round` to four digits.
pub mod Labels
mod Tests
use mapear_rn.Base.{
  ℕ, ◌+◌, ◌*◌, min, String, Bool, true, false, ◌&&◌, ◌||◌, Option, List, [], ◌∷◌, ◌++◌, leb, ltb,
  ◌==◌, str_eq, if◌then◌else◌, Dict, lookup, get_or,
}
use mapear_rn.ClusterTracker.{Fraction}

pub data SentimentLabel : Type 0 where
  favorable warning alert : SentimentLabel

pub record ClassificationThresholds : Type 0 where
  pub polarity_negative : ℕ
  pub polarity_warning : ℕ
  pub polarity_positive : ℕ
  pub volume_spike : ℕ
  pub volume_warning : ℕ
  pub velocity_spike : ℕ
  pub velocity_warning : ℕ
  pub engagement_high : ℕ
  pub min_confidence_favorable : ℕ
  pub min_confidence_alert : ℕ

abbrev pub default_thresholds : ClassificationThresholds
default_thresholds = record {
  polarity_negative = 6500;
  polarity_warning = 9000;
  polarity_positive = 12000;
  volume_spike = 7;
  volume_warning = 4;
  velocity_spike = 4500;
  velocity_warning = 2000;
  engagement_high = 5000;
  min_confidence_favorable = 3000;
  min_confidence_alert = 4000;
}

pub record DecisionFactor : Type 0 where
  pub name : String
  pub value : ℕ
  pub weight : ℕ
  pub source : String

abbrev pub factor : String → ℕ → ℕ → String → DecisionFactor
factor name value weight source = record {
  name = name;
  value = value;
  weight = weight;
  source = source;
}

-- The arguments of `classify`
pub record Signals : Type 0 where
  pub polarity : ℕ
  pub volume_24h : ℕ
  pub velocity : ℕ
  pub engagement : ℕ
  pub recurrence : ℕ

pub record ClassificationResult : Type 0 where
  pub label : SentimentLabel
  pub confidence : ℕ
  pub factors : List DecisionFactor

-- A confidence before it is rounded, a fraction of any denominator, and `round(confidence, 4)`
pub record Confidences : Type 0 where
  pub compute_confidence : List DecisionFactor → Signals → Fraction
  pub round_4 : Fraction → ℕ

-- `confidence < minimum`
abbrev pub is_under : Fraction → ℕ → Bool
is_under c minimum = ltb (c.num * 10000) (minimum * c.den)

-- `if condition: factors.append(factor)`
abbrev pub factor_if : Bool → DecisionFactor → List DecisionFactor
factor_if b f = if b then f ∷ [] else []

module _ (confidences : Confidences) (t : ClassificationThresholds) where
  abbrev pub is_critical : Signals → Bool
  is_critical s =
      leb s.polarity t.polarity_negative
      && (leb t.velocity_spike s.velocity
          && (leb t.volume_spike s.volume_24h || leb t.engagement_high s.engagement))

  abbrev pub alert_factors : Signals → List DecisionFactor
  alert_factors s =
      let spiking = leb t.volume_spike s.volume_24h in
      factor "polarity_critical" s.polarity 4000 "gcp_nl_v2"
      ∷ factor "velocity_high" s.velocity 3000 "trend_scorer"
      ∷ factor "volume_or_engagement_spike" (if spiking then s.volume_24h else s.engagement) 3000
          (if spiking then "volume_24h" else "engagement")
      ∷ factor_if (leb 5000 s.recurrence)
          (factor "recurrence_sustained" s.recurrence 0 "stg_social__counts")

  abbrev pub is_deteriorating : Signals → Bool
  is_deteriorating s =
      leb s.polarity t.polarity_warning
      && (leb t.velocity_warning s.velocity || leb t.volume_warning s.volume_24h)

  abbrev pub warning_factors : Signals → List DecisionFactor
  warning_factors s =
      factor "polarity_negative" s.polarity 5000 "gcp_nl_v2"
      ∷ (factor_if (leb t.velocity_warning s.velocity)
            (factor "velocity_elevated" s.velocity 3000 "trend_scorer")
          ++ factor_if (leb t.volume_warning s.volume_24h)
              (factor "volume_elevated" s.volume_24h 2000 "volume_24h"))

  abbrev pub is_positive : Signals → Bool
  is_positive s =
      leb t.polarity_positive s.polarity
      || (leb t.polarity_warning s.polarity && leb t.engagement_high s.engagement)

  abbrev pub favorable_factors : Signals → List DecisionFactor
  favorable_factors s =
      factor "polarity_positive" s.polarity 6000 "gcp_nl_v2"
      ∷ factor_if (leb t.engagement_high s.engagement)
          (factor "engagement_high" s.engagement 4000 "engagement")

  -- A label below its minimum confidence becomes a warning.
  abbrev pub gated : SentimentLabel → Fraction → SentimentLabel
  gated favorable c = if is_under c t.min_confidence_favorable then warning else favorable
  gated alert c = if is_under c t.min_confidence_alert then warning else alert
  gated warning c = warning

  unfoldable pub result : SentimentLabel → List DecisionFactor → Signals → ClassificationResult
  result label factors s =
      let c = confidences.compute_confidence factors s in
      record { label = gated label c; confidence = confidences.round_4 c; factors = factors }

  unfoldable pub classify : Signals → ClassificationResult
  classify s =
      if is_critical s
      then result alert (alert_factors s) s
      else if is_deteriorating s
      then result warning (warning_factors s) s
      else if is_positive s
      then result favorable (favorable_factors s) s
      else result warning (factor "insufficient_signal" s.polarity 10000 "default" ∷ []) s
