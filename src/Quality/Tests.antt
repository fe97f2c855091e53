-- ===== src/Quality/Tests.antt =====
-- The gates at frames of a few columns.
use mapear_rn.Base.{String, true, false, ◌≡◌, refl, ◌&&◌, List, [], ◌∷◌, str_eq, if◌then◌else◌}
use mapear_rn.Quality.{
  Pandas, run_gate, validate_inline, check_no_nulls, nulls, missing_columns, silver_required_cols,
}
use mapear_rn.Quality.Gates.{is_clean, run_gate-is_clean}

-- Frames of two rows, given by their columns; the title of one row is null.
abbrev pd : Pandas
pd = record {
  Frame = List String;
  is_empty = λ df. false;
  columns = λ df. df;
  null_count = λ df col. if str_eq col "title" then 1 else 0;
  duplicate_count = λ df col. 0;
}

run_gate-is_clean_example :
    run_gate pd silver_required_cols silver_required_cols true "content_hash"
    ≡ (is_clean pd silver_required_cols silver_required_cols "content_hash" && true)
run_gate-is_clean_example =
    run_gate-is_clean pd silver_required_cols silver_required_cols true "content_hash"

a_null_and_a_missing_column :
    validate_inline pd ("url" ∷ "title" ∷ []) ("url" ∷ "title" ∷ "content" ∷ []) "content_hash"
    ≡ missing_columns ("content" ∷ []) ∷ nulls "title" 1 ∷ []
unfolding validate_inline check_no_nulls
a_null_and_a_missing_column = refl
