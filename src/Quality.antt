-- ===== src/Quality.antt =====
-- libs/mapear-infra/src/mapear_infra/quality.py: the inline checks between the layers of the data lake.
-- `Pandas` is what the checks ask of a data frame; the validation by Great Expectations, which runs
-- if the inline checks pass, is an argument.
mod Gates
mod Tests
use mapear_rn.Base.{
  ℕ, String, Bool, true, false, ◌&&◌, not, List, [], ◌∷◌, ◌++◌, contains, select, ltb,
  if◌then◌else◌,
}

pub record Pandas : Type 1 where
  pub Frame : Type 0
  pub is_empty : Frame → Bool
  pub columns : Frame → List String
  -- `df[col].isna().sum()` and `df[col].duplicated().sum()`
  pub null_count : Frame → String → ℕ
  pub duplicate_count : Frame → String → ℕ

-- The message of a check, without the name of the layer
pub data Failure : Type 0 where
  frame_is_empty : Failure
  missing_columns : List String → Failure
  nulls duplicates : String → ℕ → Failure

abbrev pub raw_required_cols : List String
raw_required_cols = "url" ∷ "source_feed" ∷ "title" ∷ "content" ∷ "content_hash" ∷ []

abbrev pub silver_required_cols : List String
silver_required_cols = "url" ∷ "source_feed" ∷ "title" ∷ "content_clean" ∷ "content_hash" ∷ []

abbrev pub gold_required_cols : List String
gold_required_cols =
    "url" ∷ "source_feed" ∷ "title" ∷ "content_clean" ∷ "content_hash" ∷ "content_rn_relevant" ∷ []

module _ (pd : Pandas) where
  abbrev pub check_not_empty : pd.Frame → List Failure
  check_not_empty df = if pd.is_empty df then frame_is_empty ∷ [] else []

  -- `if missing`
  abbrev pub reported : List String → List Failure
  reported [] = []
  reported (c ∷ missing) = missing_columns (c ∷ missing) ∷ []

  abbrev pub check_required_columns : pd.Frame → List String → List Failure
  check_required_columns df required =
      reported (select (λ c. not (contains c (pd.columns df))) required)

  -- The columns that do not exist are passed over.
  unfoldable pub check_no_nulls : pd.Frame → List String → List Failure
  check_no_nulls df [] = []
  check_no_nulls df (col ∷ cols) =
      let rest = check_no_nulls df cols in
      if contains col (pd.columns df) && ltb 0 (pd.null_count df col)
      then nulls col (pd.null_count df col) ∷ rest
      else rest

  abbrev pub check_no_duplicates : pd.Frame → String → List Failure
  check_no_duplicates df column =
      if not (contains column (pd.columns df))
      then []
      else if ltb 0 (pd.duplicate_count df column)
      then duplicates column (pd.duplicate_count df column) ∷ []
      else []

  abbrev pub checked : pd.Frame → List String → String → List Failure → List Failure
  checked df required dedup_col [] =
      check_required_columns df required
      ++ check_no_nulls df required
      ++ check_no_duplicates df dedup_col
  checked df required dedup_col (f ∷ failures) = f ∷ failures

  unfoldable pub validate_inline : pd.Frame → List String → String → List Failure
  validate_inline df required dedup_col = checked df required dedup_col (check_not_empty df)

  abbrev pub gate : List Failure → Bool → Bool
  gate [] validated = validated
  gate (f ∷ failures) validated = false

  -- `_run_gate`, with what the suite of Great Expectations answers
  unfoldable pub run_gate : pd.Frame → List String → Bool → String → Bool
  run_gate df required validated dedup_col = gate (validate_inline df required dedup_col) validated

  unfoldable pub validate_raw : pd.Frame → Bool → Bool
  validate_raw df validated = run_gate df raw_required_cols validated "content_hash"

  unfoldable pub validate_silver : pd.Frame → Bool → Bool
  validate_silver df validated = run_gate df silver_required_cols validated "content_hash"

  unfoldable pub validate_gold : pd.Frame → Bool → Bool
  validate_gold df validated = run_gate df gold_required_cols validated "content_hash"
