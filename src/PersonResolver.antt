-- ===== src/PersonResolver.antt =====
-- libs/mapear-domain/src/mapear_domain/entity_resolution/person_resolver.py: which monitored person a
-- mention is of. Confidences are exact numbers of hundredths. `Lexicon` is the treatment of texts:
-- `_normalize`, `_tokens`, `_strip_handle`, `str.split`, and whether two scores are too close in
-- floating-point numbers; `score` is the total of the confidence
-- scorer for a target whose handle matched.
pub mod Scoring
mod Sources
mod Gating
mod Choosing
mod Tests
use mapear_rn.Base.{
  ℕ, ◌+◌, ◌-◌, min, String, Bool, true, false, ◌&&◌, ◌||◌, not, Option, none, some, List, [], ◌∷◌,
  map, leb, ltb, str_eq, contains, select, if◌then◌else◌, Dict, lookup, insert, get_or,
}
use mapear_rn.PersonResolver.Scoring.{Lexicon, Target, score_with_context, shares_token}

pub data ScopeStatus : Type 0 where
  in_scope out_of_scope ambiguous : ScopeStatus

-- `ResolutionResult`, without the name of its signal and the parts of its confidence
pub record ResolutionResult : Type 0 where
  pub person_id : Option String
  pub canonical_name : Option String
  pub role : Option String
  pub confidence : ℕ
  pub scope_status : ScopeStatus
  pub candidates : List String

abbrev pub resolved : Target → ℕ → ResolutionResult
resolved t confidence = record {
  person_id = some t.person_id;
  canonical_name = some t.name;
  role = some t.role;
  confidence = confidence;
  scope_status = in_scope;
  candidates = [];
}

abbrev pub unresolved : ScopeStatus → ℕ → List String → ResolutionResult
unresolved status confidence candidates = record {
  person_id = none;
  canonical_name = none;
  role = none;
  confidence = confidence;
  scope_status = status;
  candidates = candidates;
}

abbrev pub in_scope_threshold : ℕ
in_scope_threshold = 70

abbrev pub ambiguous_threshold : ℕ
ambiguous_threshold = 40

-- `_classify`
abbrev pub classify : ℕ → ScopeStatus
classify score =
    if leb in_scope_threshold score
    then in_scope
    else if leb ambiguous_threshold score
    then ambiguous
    else out_of_scope

-- `scored.sort(key=score, reverse=True)`, which is stable
abbrev pub insert_scored : Target × ℕ → List (Target × ℕ) → List (Target × ℕ)
insert_scored x [] = x ∷ []
insert_scored x (y ∷ ys) =
    let rest = insert_scored x ys in if leb y.1 x.1 then x ∷ y ∷ ys else y ∷ rest

abbrev pub sort_scored : List (Target × ℕ) → List (Target × ℕ)
sort_scored [] = []
sort_scored (x ∷ xs) = insert_scored x (sort_scored xs)

abbrev pub first_three : List (Target × ℕ) → List String
first_three [] = []
first_three (x ∷ []) = x.0.person_id ∷ []
first_three (x ∷ y ∷ []) = x.0.person_id ∷ y.0.person_id ∷ []
first_three (x ∷ y ∷ z ∷ xs) = x.0.person_id ∷ y.0.person_id ∷ z.0.person_id ∷ []

module _ (lex : Lexicon) (score : Target → ℕ) where
  -- The dictionaries of `_index_handles` and `_index_names`: a later target replaces an earlier one.
  abbrev pub index_handle : (Target → String) → List Target → Dict Target → Dict Target
  index_handle handle_of [] index = index
  index_handle handle_of (t ∷ targets) index =
      index_handle handle_of targets
        (if str_eq (handle_of t) "" then index else insert (lex.strip_handle (handle_of t)) t index)

  abbrev pub index_names : List Target → Dict Target → Dict Target
  index_names [] index = index
  index_names (t ∷ targets) index = index_names targets (insert (lex.normalize t.name) t index)

  abbrev pub index_all : Target → List String → Dict Target → Dict Target
  index_all t [] index = index
  index_all t (alias ∷ aliases) index = index_all t aliases (insert (lex.normalize alias) t index)

  abbrev pub index_aliases : List Target → Dict Target → Dict Target
  index_aliases [] index = index
  index_aliases (t ∷ targets) index = index_aliases targets (index_all t t.aliases index)

  abbrev pub handle_field : String → Option (Target → String)
  handle_field platform =
      if str_eq platform "facebook"
      then some (λ t. t.facebook_page)
      else if str_eq platform "instagram"
      then some (λ t. t.instagram_username)
      else if str_eq platform "x"
      then some (λ t. t.x_handle)
      else if str_eq platform "tiktok"
      then some (λ t. t.tiktok_handle)
      else none

  abbrev pub found_by : Option (Target → String) → List Target → String → Option Target
  found_by none targets handle = none
  found_by (some field) targets handle =
      lookup (lex.strip_handle handle) (index_handle field targets [])

  -- `_lookup_handle`
  unfoldable pub lookup_handle : List Target → String → String → Option Target
  lookup_handle targets handle platform = found_by (handle_field platform) targets handle

  -- `if handle and platform`
  abbrev pub by_handle : List Target → String → String → Option Target
  by_handle targets handle platform =
      if str_eq handle "" || str_eq platform "" then none else lookup_handle targets handle platform

  abbrev pub or_else : Option Target → Option Target → Option Target
  or_else none o = o
  or_else (some t) o = some t

  -- The exact match of a name or of an alias
  unfoldable pub by_name : List Target → String → Option Target
  by_name targets name =
      or_else (lookup name (index_names targets [])) (lookup name (index_aliases targets []))

  -- Tier 2
  unfoldable pub resolve_exact : Target → String → ResolutionResult
  resolve_exact t norm_context =
      let corrob = score_with_context lex t norm_context in
      if str_eq norm_context ""
      then resolved t 90
      else if leb 60 corrob
      then resolved t (min (corrob + 20) 97)
      else unresolved ambiguous 55 (t.person_id ∷ [])

  abbrev pub with_scores : String → List Target → List (Target × ℕ)
  with_scores norm_context hits =
      map (λ (t : Target). (t, score_with_context lex t norm_context)) hits

  abbrev pub resolve_one : Target → ℕ → ResolutionResult
  resolve_one best best_score = elim (classify best_score) [
    | in_scope ↦ resolved best best_score
    | ambiguous ↦ unresolved ambiguous best_score (best.person_id ∷ [])
    | out_of_scope ↦ unresolved out_of_scope best_score (best.person_id ∷ [])
  ]

  -- The best of the scored targets; with the next one too close it is ambiguous.
  abbrev pub resolve_scored : List (Target × ℕ) → ResolutionResult
  resolve_scored [] = unresolved out_of_scope 0 []
  resolve_scored (best ∷ []) = resolve_one best.0 best.1
  resolve_scored (best ∷ next ∷ rest) =
      if lex.is_close best.1 next.1
      then unresolved ambiguous best.1 (first_three (best ∷ next ∷ rest))
      else resolve_one best.0 best.1

  -- Tier 3
  unfoldable pub resolve_tokens : List Target → String → String → ResolutionResult
  resolve_tokens targets name norm_context =
      resolve_scored
        (sort_scored (with_scores norm_context (select (shares_token lex name) targets)))

  abbrev pub resolve_named : List Target → Option Target → String → String → ResolutionResult
  resolve_named targets none name norm_context = resolve_tokens targets name norm_context
  resolve_named targets (some t) name norm_context = resolve_exact t norm_context

  abbrev pub resolve_first : List Target → Option Target → String → String → ResolutionResult
  resolve_first targets (some t) name context = resolved t (score t)
  resolve_first targets none name context =
      let norm_name = lex.normalize name in
      if str_eq norm_name ""
      then unresolved out_of_scope 0 []
      else resolve_named targets (by_name targets norm_name) name (lex.normalize context)

  -- `resolve`; an empty text stands for a missing handle or platform.
  unfoldable pub resolve : List Target → String → String → String → String → ResolutionResult
  resolve targets name context platform handle =
      resolve_first targets (by_handle targets handle platform) name context

  abbrev pub status_eq : ScopeStatus → ScopeStatus → Bool
  status_eq in_scope in_scope = true
  status_eq out_of_scope out_of_scope = true
  status_eq ambiguous ambiguous = true
  status_eq _ _ = false

  -- `max(results, key=confidence)`: the first of the highest
  abbrev pub highest : ResolutionResult → List ResolutionResult → ResolutionResult
  highest r [] = r
  highest r (q ∷ qs) = highest (if ltb r.confidence q.confidence then q else r) qs

  abbrev pub highest_or : List ResolutionResult → ResolutionResult → ResolutionResult
  highest_or [] rest = rest
  highest_or (r ∷ rs) rest = highest r rs

  unfoldable pub best_of : List ResolutionResult → ResolutionResult
  best_of results =
      highest_or (select (λ (r : ResolutionResult). status_eq r.scope_status in_scope) results) (
        highest_or (select (λ (r : ResolutionResult). status_eq r.scope_status ambiguous) results)
          (highest_or results (unresolved out_of_scope 0 [])))

  -- `resolve_best`
  unfoldable pub resolve_best :
      List Target → List String → String → String → String → ResolutionResult
  resolve_best targets mentions context platform handle =
      let single = resolve targets handle context platform handle in
      let rest = best_of (map (λ m. resolve targets m context platform "") mentions) in
      if not (str_eq handle "" || str_eq platform "") && status_eq single.scope_status in_scope
      then single
      else rest
