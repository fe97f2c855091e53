-- ===== src/PoliticalSentiment/Tests.antt =====
-- The theorems of the classifier with its default thresholds and a confidence of the signals.
use mapear_rn.Base.{◌-◌, ◌*◌, ◌/◌, ◌≤◌, true, ◌≡◌, ◌↔◌, ◌⊎◌, refl}
use mapear_rn.PoliticalSentiment.{
  favorable, alert, default_thresholds, Confidences, Signals, result, classify,
}
use mapear_rn.PoliticalSentiment.Labels.{
  weight_total, is_alert, classify-weight_total, classify-is_alert,
}

-- A confidence that grows with the distance from neutral
abbrev confidence : Confidences
confidence = record {
  compute_confidence = λ fs s. record { num = 40000 - s.polarity; den = 50000 };
  round_4 = λ c. c.num * 10000 / c.den;
}

abbrev crisis : Signals
crisis = record {
  polarity = 5000;
  volume_24h = 9;
  velocity = 6000;
  engagement = 10;
  recurrence = 6000;
}

classify-weight_total_example :
    let r = classify confidence default_thresholds crisis in
    (5000 ≤ weight_total r.factors) × (weight_total r.factors ≤ 10000)
classify-weight_total_example = classify-weight_total confidence default_thresholds crisis

classify-is_alert_example :
    let r = classify confidence default_thresholds crisis in
    ((is_alert r.label ≡ true)
      ↔ ((5000 ≤ 6500) × (4500 ≤ 6000) × ((7 ≤ 9) ⊎ (5000 ≤ 10)) × (200000000 ≤ 350000000)))
    × (r.confidence ≡ 7000)
classify-is_alert_example = classify-is_alert confidence default_thresholds crisis

a_crisis : (classify confidence default_thresholds crisis).label ≡ alert
unfolding classify result
a_crisis = refl

a_quiet_day :
    (classify confidence default_thresholds
      (record crisis { polarity = 13000; velocity = 100 })).label
    ≡ favorable
unfolding classify result
a_quiet_day = refl
