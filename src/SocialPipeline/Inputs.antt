-- ===== src/SocialPipeline/Inputs.antt =====
-- pipelines/mapear-social/src/mapear_social/pipeline.py, `_classifier_inputs`: what the political
-- classifier reads of a row and of the volumes of its batch.
use mapear_rn.Base.{
  ℕ, ◌+◌, ◌*◌, min, String, Option, str_eq, ◌==◌, if◌then◌else◌, Dict, lookup, get_or,
}
use mapear_rn.PoliticalSentiment.{Signals}

-- The fields of a silver row that are read; the polarity is moved up by one.
pub record SilverRow : Type 0 where
  pub person_id : Option String
  pub likes : Option ℕ
  pub comments : Option ℕ
  pub shares : Option ℕ
  pub sentiment_overall : Option ℕ

-- `volume_map.get(person_id, 0) if person_id else 0`
abbrev pub volume_of : Option String → Dict ℕ → ℕ
volume_of person_id volume_map =
    if str_eq (get_or person_id "") ""
    then 0
    else get_or (lookup (get_or person_id "") volume_map) 0

-- The velocity is a tenth of the volume, at most 1.
unfoldable pub classifier_inputs : SilverRow → Dict ℕ → Signals
classifier_inputs row volume_map =
    let volume_24h = volume_of row.person_id volume_map in
    record {
      polarity = get_or row.sentiment_overall 10000;
      volume_24h = volume_24h;
      velocity = if volume_24h == 0 then 0 else min (volume_24h * 1000) 10000;
      engagement = get_or row.likes 0 + get_or row.comments 0 + get_or row.shares 0;
      recurrence = 0;
    }
