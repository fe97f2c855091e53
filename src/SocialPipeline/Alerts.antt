-- ===== src/SocialPipeline/Alerts.antt =====
-- When a post of a batch can be labelled an alert.
use mapear_rn.Base.{ℕ, ◌≤◌, String, true, ◌≡◌, Option, List, arith, count, get_or, Dict}
use mapear_rn.PoliticalSentiment.{Confidences, default_thresholds, classify}
use mapear_rn.PoliticalSentiment.Labels.{is_alert, classify-is_alert}
use mapear_rn.SocialPipeline.{volume_by_person}
use mapear_rn.SocialPipeline.Inputs.{SilverRow, volume_of, classifier_inputs}
use mapear_rn.SocialPipeline.Volumes.{is_of, volume_by_person-count}

velocity-volume :
    (row : SilverRow) (d : Dict ℕ)
    → 4500 ≤ (classifier_inputs row d).velocity
    → 5 ≤ volume_of row.person_id d
unfolding classifier_inputs
velocity-volume row d h = ground arith

volume_of-count :
    (row : SilverRow) (rows : List (Option String))
    → volume_of row.person_id (volume_by_person rows) ≤ count (is_of (get_or row.person_id "")) rows
volume_of-count row rows = ground (arith, volume_by_person-count (get_or row.person_id "") rows)

-- With the default thresholds, a row is labelled an alert only if at least five rows of its batch
-- are of its person: the velocity that the pipeline hands to the classifier is made of that volume.
pub classifier_inputs-is_alert :
    (confidences : Confidences) (row : SilverRow) (rows : List (Option String))
    → is_alert
        (classify confidences default_thresholds
          (classifier_inputs row (volume_by_person rows))).label
      ≡ true
    → 5 ≤ count (is_of (get_or row.person_id "")) rows
classifier_inputs-is_alert confidences row rows h =
    let d = volume_by_person rows in
    let critical =
      (classify-is_alert confidences default_thresholds (classifier_inputs row d)).0.0 h in
    omega (arith, velocity-volume row d critical.1, volume_of-count row rows)
