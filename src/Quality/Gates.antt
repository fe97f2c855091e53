-- ===== src/Quality/Gates.antt =====
-- Which data frames pass the gates.
use mapear_rn.Base.{
  String, Bool, true, false, ◌≡◌, refl, ◌&&◌, not, inl, inr, List, [], ◌∷◌, ◌++◌, arith, contains,
  select, ltb, if◌then◌else◌, Bool-cases,
}
use mapear_rn.Quality.{
  Pandas, Failure, nulls, silver_required_cols, gold_required_cols, check_required_columns,
  reported, check_no_nulls, check_no_duplicates, validate_inline, gate, run_gate, validate_silver,
  validate_gold,
}

abbrev is_nil : List Failure → Bool
is_nil [] = true
is_nil (f ∷ fs) = false

is_nil-append : (xs ys : List Failure) → is_nil (xs ++ ys) ≡ (is_nil xs && is_nil ys)
is_nil-append [] ys = refl
is_nil-append (x ∷ xs) ys = refl

module _ (pd : Pandas) where
  -- A required column exists and has no null.
  abbrev pub is_filled : pd.Frame → String → Bool
  is_filled df col = contains col (pd.columns df) && not (ltb 0 (pd.null_count df col))

  abbrev pub all_filled : pd.Frame → List String → Bool
  all_filled df [] = true
  all_filled df (col ∷ cols) = is_filled df col && all_filled df cols

  abbrev pub is_distinct : pd.Frame → String → Bool
  is_distinct df col = not (contains col (pd.columns df) && ltb 0 (pd.duplicate_count df col))

  is_nil-reported :
      (b : Bool) (c : String) (missing : List String)
      → is_nil (reported pd (if b then c ∷ missing else missing))
        ≡ (not b && is_nil (reported pd missing))
  is_nil-reported true c missing = refl
  is_nil-reported false c missing = refl

  is_nil-if :
      (b : Bool) (f : Failure) (rest : List Failure)
      → is_nil (if b then f ∷ rest else rest) ≡ (not b && is_nil rest)
  is_nil-if true f rest = refl
  is_nil-if false f rest = refl

  columns_and_nulls :
      (df : pd.Frame) (cols : List String)
      → (is_nil (check_required_columns pd df cols) && is_nil (check_no_nulls pd df cols))
        ≡ all_filled df cols
  unfolding check_no_nulls
  columns_and_nulls df [] = refl
  columns_and_nulls df (col ∷ cols) =
      let missing = select (λ c. not (contains c (pd.columns df))) cols in
      ground (
        arith,
        is_nil-reported (not (contains col (pd.columns df))) col missing,
        is_nil-if (contains col (pd.columns df) && ltb 0 (pd.null_count df col))
            (nulls col (pd.null_count df col)) (check_no_nulls pd df cols),
        columns_and_nulls df cols,
      )

  is_nil-check_no_duplicates :
      (df : pd.Frame) (col : String) → is_nil (check_no_duplicates pd df col) ≡ is_distinct df col
  is_nil-check_no_duplicates df col = ground arith

  -- What a clean frame is for a gate
  abbrev pub is_clean : pd.Frame → List String → String → Bool
  is_clean df required dedup_col =
      not (pd.is_empty df) && (all_filled df required && is_distinct df dedup_col)

  is_nil-validate_inline :
      (df : pd.Frame) (required : List String) (dedup_col : String)
      → is_nil (validate_inline pd df required dedup_col) ≡ is_clean df required dedup_col
  unfolding validate_inline
  is_nil-validate_inline df required dedup_col = elim (Bool-cases (pd.is_empty df)) [
    | inl e ↦ rw e refl
    | inr e ↦
        let columns = check_required_columns pd df required in
        let filled = check_no_nulls pd df required in
        let repeated = check_no_duplicates pd df dedup_col in
        rw
          (
            e,
            is_nil-append (columns ++ filled) repeated,
            is_nil-append columns filled,
            columns_and_nulls df required,
            is_nil-check_no_duplicates df dedup_col,
          )
          refl
  ]

  gate-is_nil :
      (fs : List Failure) (validated : Bool) → gate pd fs validated ≡ (is_nil fs && validated)
  gate-is_nil [] validated = refl
  gate-is_nil (f ∷ fs) validated = refl

  -- A gate passes exactly the frames that have a row, have every required column without a null, and
  -- repeat no value in the column of the key, if Great Expectations passes them too.
  pub run_gate-is_clean :
      (df : pd.Frame) (required : List String) (validated : Bool) (dedup_col : String)
      → run_gate pd df required validated dedup_col ≡ (is_clean df required dedup_col && validated)
  unfolding run_gate
  run_gate-is_clean df required validated dedup_col =
      rw
        (
          gate-is_nil (validate_inline pd df required dedup_col) validated,
          is_nil-validate_inline df required dedup_col,
        )
        refl

  -- A frame that passes the gold gate passes the silver gate.
  validate_gold-validate_silver :
      (df : pd.Frame) (validated : Bool)
      → validate_gold pd df validated ≡ true
      → validate_silver pd df validated ≡ true
  unfolding validate_gold validate_silver
  validate_gold-validate_silver df validated h = ground (
    arith,
    run_gate-is_clean df gold_required_cols validated "content_hash",
    run_gate-is_clean df silver_required_cols validated "content_hash",
  )
