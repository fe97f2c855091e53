-- ===== src/PersonResolver/Choosing.antt =====
-- Which of the mentions of a text is taken, and what a context adds to a target.
use mapear_rn.Base.{
  ℕ, ◌≤◌, ◌<◌, String, Bool, true, false, ◌≡◌, refl, List, [], ◌∷◌, All, map, length, select, arith,
  ltb, if◌then◌else◌, ◌⊎◌, inl, inr, ◌&&◌, ◌||◌, not, str_eq,
}
use mapear_rn.PersonResolver.Scoring.{Lexicon, Target, score_with_context}
use mapear_rn.PersonResolver.{
  ScopeStatus, in_scope, out_of_scope, ambiguous, ResolutionResult, unresolved, resolve, status_eq,
  highest, highest_or, best_of, resolve_best,
}
use mapear_rn.PersonResolver.Gating.{IsGated, resolve-IsGated}

-- The confidence of the first is at most the other's.
abbrev pub AtMost : ResolutionResult → ResolutionResult → Type 0
AtMost top r = r.confidence ≤ top.confidence

-- The result is in the list.
abbrev pub IsOneOf : ResolutionResult → List ResolutionResult → Type 0
IsOneOf top [] = ⊥
IsOneOf top (r ∷ rs) = (top ≡ r) ⊎ IsOneOf top rs

module _ (lex : Lexicon) (score : Target → ℕ) where
  one_of :
      (P : ResolutionResult → Type 0) (b : Bool) (x y : ResolutionResult)
      → P x
      → P y
      → P (if b then x else y)
  one_of P true x y h k = h
  one_of P false x y h k = k

  -- What holds of all of the results holds of the highest.
  highest-All :
      (P : ResolutionResult → Type 0) (qs : List ResolutionResult) (r : ResolutionResult)
      → P r
      → All P qs
      → P (highest lex score r qs)
  highest-All P [] r h a = h
  highest-All P (q ∷ qs) r h (b, a) =
      highest-All P qs _ (one_of P (ltb r.confidence q.confidence) q r b h) a

  highest_above :
      (qs : List ResolutionResult) (n : ℕ) (r : ResolutionResult)
      → n ≤ r.confidence
      → n ≤ (highest lex score r qs).confidence
  highest_above [] n r h = h
  highest_above (q ∷ qs) n r h = highest_above qs n _ (ground (arith, h))

  highest-AtMost :
      (qs : List ResolutionResult) (r : ResolutionResult)
      → All (AtMost (highest lex score r qs)) (r ∷ qs)
  highest-AtMost [] r = (omega arith, tt)
  highest-AtMost (q ∷ qs) r =
      let first = if ltb r.confidence q.confidence then q else r in
      let rest = highest-AtMost qs first in
      (
        highest_above qs r.confidence first (ground arith),
        (highest_above qs q.confidence first (ground arith), rest.1),
      )

  abbrev pub of_status : ScopeStatus → List ResolutionResult → List ResolutionResult
  of_status status results =
      select (λ (r : ResolutionResult). status_eq lex score r.scope_status status) results

  All-either :
      (P : ResolutionResult → Type 0) (b : Bool) (x : ResolutionResult) (xs : List ResolutionResult)
      → P x
      → All P xs
      → All P (if b then x ∷ xs else xs)
  All-either P true x xs h a = (h, a)
  All-either P false x xs h a = a

  of_status-All :
      (P : ResolutionResult → Type 0) (status : ScopeStatus) (results : List ResolutionResult)
      → All P results
      → All P (of_status status results)
  of_status-All P status [] a = tt
  of_status-All P status (r ∷ results) (b, a) =
      All-either P (status_eq lex score r.scope_status status) r (of_status status results) b
        (of_status-All P status results a)

  highest_or-All :
      (P : ResolutionResult → Type 0) (results : List ResolutionResult) (rest : ResolutionResult)
      → All P results
      → P rest
      → P (highest_or lex score results rest)
  highest_or-All P [] rest a h = h
  highest_or-All P (r ∷ results) rest (b, a) h = highest-All P results r b a

  best_of-All :
      (P : ResolutionResult → Type 0) (results : List ResolutionResult)
      → All P results
      → P (unresolved out_of_scope 0 [])
      → P (best_of lex score results)
  unfolding best_of
  best_of-All P results a h =
      highest_or-All P (of_status in_scope results) _ (of_status-All P in_scope results a) (
        highest_or-All P (of_status ambiguous results) _ (of_status-All P ambiguous results a)
          (highest_or-All P results _ a h))

  status_step :
      (r : ResolutionResult) (status : ScopeStatus)
      → r.scope_status ≡ status
      → (xs : List ResolutionResult) → All (λ (q : ResolutionResult). q.scope_status ≡ in_scope) xs
      → All
          (λ (q : ResolutionResult). q.scope_status ≡ in_scope)
          (if status_eq lex score status in_scope then r ∷ xs else xs)
  status_step r in_scope e xs a = (e, a)
  status_step r out_of_scope e xs a = a
  status_step r ambiguous e xs a = a

  status-All :
      (results : List ResolutionResult)
      → All (λ (r : ResolutionResult). r.scope_status ≡ in_scope) (of_status in_scope results)
  status-All [] = tt
  status-All (r ∷ results) =
      status_step r r.scope_status refl (of_status in_scope results) (status-All results)

  kept_or_next :
      (b : Bool) (top q r : ResolutionResult) (qs : List ResolutionResult)
      → IsOneOf top ((if b then q else r) ∷ qs)
      → IsOneOf top (r ∷ q ∷ qs)
  kept_or_next true top q r qs h = inr h
  kept_or_next false top q r qs (inl e) = inl e
  kept_or_next false top q r qs (inr h) = inr (inr h)

  highest-IsOneOf :
      (qs : List ResolutionResult) (r : ResolutionResult)
      → IsOneOf (highest lex score r qs) (r ∷ qs)
  highest-IsOneOf [] r = inl refl
  highest-IsOneOf (q ∷ qs) r =
      let b = ltb r.confidence q.confidence in
      kept_or_next b _ q r qs (highest-IsOneOf qs (if b then q else r))

  highest_or-chooses :
      (xs : List ResolutionResult) (rest : ResolutionResult)
      → 0 < length xs
      → All (λ (r : ResolutionResult). r.scope_status ≡ in_scope) xs
      → ((highest_or lex score xs rest).scope_status ≡ in_scope)
        × All (AtMost (highest_or lex score xs rest)) xs
        × IsOneOf (highest_or lex score xs rest) xs
  highest_or-chooses [] rest h a = absurd (omega (arith, h))
  highest_or-chooses (x ∷ xs) rest h (b, a) = (
    highest-All (λ (r : ResolutionResult). r.scope_status ≡ in_scope) xs x b a,
    highest-AtMost xs x,
    highest-IsOneOf xs x,
  )

  module _ (ts : List Target) where
    abbrev pub results_of : List String → String → String → List ResolutionResult
    results_of mentions context platform =
        map (λ m. resolve lex score ts m context platform "") mentions

    results-IsGated :
        (mentions : List String) (context platform : String)
        → All (IsGated ts) (results_of mentions context platform)
    results-IsGated [] context platform = tt
    results-IsGated (m ∷ mentions) context platform = (
      resolve-IsGated ts lex score m context platform "",
      results-IsGated mentions context platform,
    )

    -- A text is resolved to a person only in scope, and then to the person, the name and the role of one
    -- of the monitored targets; an ambiguous text, and one out of scope, has none of the three. This
    -- holds whatever its mentions, its handle, its platform and its context are.
    pub resolve_best-IsGated :
        (mentions : List String) (context platform handle : String)
        → IsGated ts (resolve_best lex score ts mentions context platform handle)
    unfolding resolve_best
    resolve_best-IsGated mentions context platform handle =
        one_of (IsGated ts) _ _ _ (resolve-IsGated ts lex score handle context platform handle) (
          best_of-All (IsGated ts) (results_of mentions context platform)
            (results-IsGated mentions context platform) (refl, refl, refl))

    -- The author's handle is there, as is the platform, and resolves in scope.
    abbrev pub is_by_handle : String → String → String → Bool
    is_by_handle context platform handle =
        not (str_eq handle "" || str_eq platform "")
        && status_eq lex score (resolve lex score ts handle context platform handle).scope_status
            in_scope

    one_of_both :
        (P Q : ResolutionResult → Type 0) (b : Bool) (x y : ResolutionResult)
        → P x
        → Q y
        → let r = if b then x else y in if b then P r else Q r
    one_of_both P Q true x y h k = h
    one_of_both P Q false x y h k = k

    -- If any mention of a text is resolved in scope, then the text is resolved as its handle is, where
    -- that one resolves in scope; and else it is resolved in scope, as one of the mentions in scope,
    -- with a confidence that none of them exceeds.
    pub resolve_best-AtMost :
        (mentions : List String) (context platform handle : String)
        → 0 < length (of_status in_scope (results_of mentions context platform))
        → let best = resolve_best lex score ts mentions context platform handle in
          let candidates = of_status in_scope (results_of mentions context platform) in
          if is_by_handle context platform handle
          then best ≡ resolve lex score ts handle context platform handle
          else (best.scope_status ≡ in_scope)
            × All (AtMost best) candidates
            × IsOneOf best candidates
    unfolding resolve_best best_of
    resolve_best-AtMost mentions context platform handle h =
        let single = resolve lex score ts handle context platform handle in
        let candidates = of_status in_scope (results_of mentions context platform) in
        one_of_both (λ r. r ≡ single)
          (λ r. (r.scope_status ≡ in_scope) × All (AtMost r) candidates × IsOneOf r candidates)
          (is_by_handle context platform handle) _ _ refl
          (highest_or-chooses candidates _ h (status-All (results_of mentions context platform)))

-- The points of a context
score_bounds :
    (lex : Lexicon) (t : Target) (norm_context : String)
    → (50 ≤ score_with_context lex t norm_context) × (score_with_context lex t norm_context ≤ 95)
unfolding score_with_context
score_bounds lex t norm_context = ground arith
