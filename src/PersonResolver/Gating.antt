-- ===== src/PersonResolver/Gating.antt =====
-- The gate of the scope: who can be resolved.
use mapear_rn.Base.{
  ℕ, ◌+◌, min, String, Bool, true, false, ◌≡◌, refl, Option, none, some, List, [], ◌∷◌, All, select,
  leb, str_eq, if◌then◌else◌,
}
use mapear_rn.PersonResolver.Scoring.{Lexicon, Target, score_with_context, shares_token}
use mapear_rn.PersonResolver.Sources.{IsOneOf, From, each-IsOneOf, by_handle-From, by_name-From}
use mapear_rn.PersonResolver.{
  ScopeStatus, in_scope, out_of_scope, ambiguous, ResolutionResult, resolved, unresolved, classify,
  insert_scored, sort_scored, by_handle, by_name, resolve_exact, with_scores, resolve_scored,
  resolve_tokens, resolve_named, resolve_first, resolve,
}

module _ (ts : List Target) where
  -- In scope: the person, the name and the role of one of the targets. Otherwise: none of the three.
  abbrev pub GatedAs : ScopeStatus → ResolutionResult → Type 0
  GatedAs in_scope r =
      (t : Target) × IsOneOf ts t
      × (r.person_id ≡ some t.person_id)
      × (r.canonical_name ≡ some t.name)
      × (r.role ≡ some t.role)
  GatedAs out_of_scope r = (r.person_id ≡ none) × (r.canonical_name ≡ none) × (r.role ≡ none)
  GatedAs ambiguous r = (r.person_id ≡ none) × (r.canonical_name ≡ none) × (r.role ≡ none)

  abbrev pub IsGated : ResolutionResult → Type 0
  IsGated r = GatedAs r.scope_status r

  resolved-IsGated : (t : Target) (n : ℕ) → IsOneOf ts t → IsGated (resolved t n)
  resolved-IsGated t n h = (t, h, refl, refl, refl)

  IsGated-either :
      (b : Bool) (x y : ResolutionResult) → IsGated x → IsGated y → IsGated (if b then x else y)
  IsGated-either true x y h k = h
  IsGated-either false x y h k = k

  abbrev AllScored : List (Target × ℕ) → Type 0
  AllScored xs = All (λ (e : Target × ℕ). IsOneOf ts e.0) xs

  AllScored-either :
      (b : Bool) (x y : List (Target × ℕ))
      → AllScored x
      → AllScored y
      → AllScored (if b then x else y)
  AllScored-either true x y h k = h
  AllScored-either false x y h k = k

  insert_scored-AllScored :
      (x : Target × ℕ) (xs : List (Target × ℕ))
      → IsOneOf ts x.0
      → AllScored xs
      → AllScored (insert_scored x xs)
  insert_scored-AllScored x [] h a = (h, tt)
  insert_scored-AllScored x (y ∷ ys) h (b, a) =
      AllScored-either (leb y.1 x.1) _ _ (h, (b, a)) (b, insert_scored-AllScored x ys h a)

  sort_scored-AllScored : (xs : List (Target × ℕ)) → AllScored xs → AllScored (sort_scored xs)
  sort_scored-AllScored [] a = tt
  sort_scored-AllScored (x ∷ xs) (b, a) =
      insert_scored-AllScored x (sort_scored xs) b (sort_scored-AllScored xs a)

  module _ (lex : Lexicon) (score : Target → ℕ) where
    scored-either :
        (b : Bool) (norm_context : String) (u : Target) (us : List Target)
        → IsOneOf ts u
        → AllScored (with_scores lex score norm_context us)
        → AllScored (with_scores lex score norm_context (if b then u ∷ us else us))
    scored-either true norm_context u us h a = (h, a)
    scored-either false norm_context u us h a = a

    hits-AllScored :
        (name norm_context : String) (us : List Target)
        → All (IsOneOf ts) us
        → AllScored (with_scores lex score norm_context (select (shares_token lex name) us))
    hits-AllScored name norm_context [] h = tt
    hits-AllScored name norm_context (u ∷ us) (b, h) =
        let rest = hits-AllScored name norm_context us h in
        scored-either (shares_token lex name u) norm_context u (select (shares_token lex name) us) b
          rest

    resolve_one-IsGated :
        (t : Target) (n : ℕ) (status : ScopeStatus)
        → IsOneOf ts t
        → IsGated (elim status [
          | in_scope ↦ resolved t n
          | ambiguous ↦ unresolved ambiguous n (t.person_id ∷ [])
          | out_of_scope ↦ unresolved out_of_scope n (t.person_id ∷ [])
        ])
    resolve_one-IsGated t n in_scope h = resolved-IsGated t n h
    resolve_one-IsGated t n out_of_scope h = (refl, refl, refl)
    resolve_one-IsGated t n ambiguous h = (refl, refl, refl)

    resolve_scored-IsGated :
        (xs : List (Target × ℕ)) → AllScored xs → IsGated (resolve_scored lex score xs)
    resolve_scored-IsGated [] a = (refl, refl, refl)
    resolve_scored-IsGated (x ∷ []) (b, a) = resolve_one-IsGated x.0 x.1 (classify x.1) b
    resolve_scored-IsGated (x ∷ y ∷ xs) (b, a) =
        IsGated-either (lex.is_close x.1 y.1) _ _ (refl, refl, refl)
          (resolve_one-IsGated x.0 x.1 (classify x.1) b)

    resolve_exact-IsGated :
        (t : Target) (norm_context : String)
        → IsOneOf ts t
        → IsGated (resolve_exact lex score t norm_context)
    unfolding resolve_exact
    resolve_exact-IsGated t norm_context h =
        let corrob = score_with_context lex t norm_context in
        IsGated-either (str_eq norm_context "") _ _ (resolved-IsGated t 90 h) (
          IsGated-either (leb 60 corrob) _ _ (resolved-IsGated t (min (corrob + 20) 97) h)
            (refl, refl, refl))

    resolve_named-IsGated :
        (o : Option Target) (name norm_context : String)
        → From ts o
        → IsGated (resolve_named lex score ts o name norm_context)
    unfolding resolve_tokens
    resolve_named-IsGated none name norm_context h =
        resolve_scored-IsGated _
          (sort_scored-AllScored _ (hits-AllScored name norm_context ts (each-IsOneOf ts)))
    resolve_named-IsGated (some t) name norm_context h = resolve_exact-IsGated t norm_context h

    resolve_first-IsGated :
        (o : Option Target) (name context : String)
        → From ts o
        → IsGated (resolve_first lex score ts o name context)
    resolve_first-IsGated (some t) name context h = resolved-IsGated t (score t) h
    resolve_first-IsGated none name context h =
        let norm_name = lex.normalize name in
        IsGated-either (str_eq norm_name "") _ _ (refl, refl, refl)
          (resolve_named-IsGated (by_name lex score ts norm_name) name (lex.normalize context)
            (by_name-From ts lex score norm_name))

    -- A mention is resolved to a person only in scope, and then to the person, the name and the role of
    -- one of the monitored targets; an ambiguous mention, and one out of scope, has none of the three.
    pub resolve-IsGated :
        (name context platform handle : String)
        → IsGated (resolve lex score ts name context platform handle)
    unfolding resolve
    resolve-IsGated name context platform handle =
        resolve_first-IsGated (by_handle lex score ts handle platform) name context
          (by_handle-From ts lex score handle platform)
