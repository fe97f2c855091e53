-- ===== src/PoliticalSentiment/Labels.antt =====
-- When a mention is an alert, and what its factors weigh.
use mapear_rn.Base.{
  ℕ, ◌+◌, ◌*◌, ◌≤◌, Bool, true, false, ◌≡◌, refl, ◌&&◌, not, ◌↔◌, ◌⊎◌, inl, inr, List, [], ◌∷◌,
  arith, if◌then◌else◌, Bool-cases,
}
use mapear_rn.ClusterTracker.{Fraction}
use mapear_rn.PoliticalSentiment.{
  SentimentLabel, favorable, warning, alert, ClassificationThresholds, DecisionFactor, Signals,
  ClassificationResult, is_critical, alert_factors, is_deteriorating, is_positive,
  favorable_factors, gated, result, classify, Confidences, is_under,
}

-- `sum(f.weight for f in factors)`
abbrev pub weight_total : List DecisionFactor → ℕ
weight_total [] = 0
weight_total (f ∷ fs) = f.weight + weight_total fs

abbrev pub is_alert : SentimentLabel → Bool
is_alert alert = true
is_alert warning = false
is_alert favorable = false

module _ (confidences : Confidences) (t : ClassificationThresholds) where
  abbrev Weighs : ClassificationResult → Type 0
  Weighs r = (5000 ≤ weight_total r.factors) × (weight_total r.factors ≤ 10000)

  one_of :
      (P : ClassificationResult → Type 0) (b : Bool) (x y : ClassificationResult)
      → P x
      → P y
      → P (if b then x else y)
  one_of P true x y h k = h
  one_of P false x y h k = k

  -- The factors of a label weigh at least a half and at most one in all.
  pub classify-weight_total :
      (s : Signals)
      → let r = classify confidences t s in
        (5000 ≤ weight_total r.factors) × (weight_total r.factors ≤ 10000)
  unfolding classify result
  classify-weight_total s = one_of Weighs (is_critical confidences t s) _ _ (ground arith) (
      one_of Weighs (is_deteriorating confidences t s) _ _ (ground arith)
        (one_of Weighs (is_positive confidences t s) _ _ (ground arith) (ground arith)))

  is_alert-gated :
      (c : Fraction)
      → is_alert (gated confidences t alert c) ≡ not (is_under c t.min_confidence_alert)
  is_alert-gated c = ground arith

  abbrev IsMild : ClassificationResult → Type 0
  IsMild r = is_alert r.label ≡ false

  favorable-IsMild :
      (fs : List DecisionFactor) (s : Signals) → IsMild (result confidences t favorable fs s)
  unfolding result
  favorable-IsMild fs s = ground arith

  -- The label is an alert if the signals are critical and the confidence is high enough.
  abbrev Alerts : Signals → Bool → ClassificationResult → Type 0
  Alerts s b r =
      is_alert r.label
      ≡ (b && not (is_under (confidences.compute_confidence r.factors s) t.min_confidence_alert))

  classify-Alerts :
      (s : Signals) → Alerts s (is_critical confidences t s) (classify confidences t s)
  unfolding classify result
  classify-Alerts s = elim (Bool-cases (is_critical confidences t s)) [
    | inl e ↦
        rw e (is_alert-gated (confidences.compute_confidence (alert_factors confidences t s) s))
    | inr e ↦ rw e (
        one_of IsMild (is_deteriorating confidences t s) _ _ refl (
          one_of IsMild (is_positive confidences t s) _ _
            (favorable-IsMild (favorable_factors confidences t s) s) refl))
  ]

  -- The confidence of the result is that of its factors, rounded.
  abbrev IsRounded : Signals → ClassificationResult → Type 0
  IsRounded s r = r.confidence ≡ confidences.round_4 (confidences.compute_confidence r.factors s)

  classify-IsRounded : (s : Signals) → IsRounded s (classify confidences t s)
  unfolding classify result
  classify-IsRounded s = one_of (IsRounded s) (is_critical confidences t s) _ _ refl (
      one_of (IsRounded s) (is_deteriorating confidences t s) _ _ refl
        (one_of (IsRounded s) (is_positive confidences t s) _ _ refl refl))

  -- A mention is labelled an alert exactly if its polarity is as low as the negative threshold, its
  -- velocity at the spike, its volume or its engagement at theirs, and the confidence computed of the
  -- result's factors, before it is rounded, not below the minimum. The result carries the rounded
  -- one.
  pub classify-is_alert :
      (s : Signals)
      → let r = classify confidences t s in
        let c = confidences.compute_confidence r.factors s in
        ((is_alert r.label ≡ true) ↔ (
          (s.polarity ≤ t.polarity_negative)
          × (t.velocity_spike ≤ s.velocity)
          × ((t.volume_spike ≤ s.volume_24h) ⊎ (t.engagement_high ≤ s.engagement))
          × (t.min_confidence_alert * c.den ≤ c.num * 10000)))
        × (r.confidence ≡ confidences.round_4 c)
  classify-is_alert s = (ground (arith, classify-Alerts s), classify-IsRounded s)
