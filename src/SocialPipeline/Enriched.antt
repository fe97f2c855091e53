-- ===== src/SocialPipeline/Enriched.antt =====
-- What the enrichment of a post's mentions keeps and counts.
use mapear_rn.Base.{
  ℕ, ◌+◌, String, Bool, true, false, ◌≡◌, refl, ap, ◌∙◌, Option, none, some, List, [], ◌∷◌, ◌++◌,
  length, length-append, arith, str_eq, if◌then◌else◌, get_or,
}
use mapear_rn.SocialPipeline.Regions.{
  Mentions, Politician, added_to, merge_unique, mentions_count, with_matcher, with_city,
  with_author, author_of, enrich_with_region_matcher,
}

-- The second list is the first and something after it.
abbrev pub Extends : List String → List String → Type 0
Extends xs ys = (zs : List String) × (ys ≡ xs ++ zs)

append_assoc : (xs ys zs : List String) → (xs ++ ys) ++ zs ≡ xs ++ (ys ++ zs)
append_assoc [] ys zs = refl
append_assoc (x ∷ xs) ys zs = ap (λ l. x ∷ l) (append_assoc xs ys zs)

append_nil : (xs : List String) → xs ≡ xs ++ []
append_nil [] = refl
append_nil (x ∷ xs) = ap (λ l. x ∷ l) (append_nil xs)

Extends-trans : (xs ys zs : List String) → Extends xs ys → Extends ys zs → Extends xs zs
Extends-trans xs ys zs (as₁, e) (bs, f) =
    (as₁ ++ bs, f ∙ ap (λ l. l ++ bs) e ∙ append_assoc xs as₁ bs)

-- No list loses or moves a mention.
abbrev pub Keeps : Mentions → Mentions → Type 0
Keeps m m' =
    Extends m.cities m'.cities
    × Extends m.mayors m'.mayors
    × Extends m.governors m'.governors
    × Extends m.parties m'.parties
    × Extends m.candidates m'.candidates
    × Extends m.politicians m'.politicians

Keeps-trans : (a b c : Mentions) → Keeps a b → Keeps b c → Keeps a c
Keeps-trans a b c h k = (
  Extends-trans a.cities b.cities c.cities h.0 k.0,
  Extends-trans a.mayors b.mayors c.mayors h.1 k.1,
  Extends-trans a.governors b.governors c.governors h.2 k.2,
  Extends-trans a.parties b.parties c.parties h.3 k.3,
  Extends-trans a.candidates b.candidates c.candidates h.4 k.4,
  Extends-trans a.politicians b.politicians c.politicians h.5 k.5,
)

same : (xs : List String) → Extends xs xs
same xs = ([], append_nil xs)

Keeps-refl : (m : Mentions) → Keeps m m
Keeps-refl m = (
  same m.cities,
  same m.mayors,
  same m.governors,
  same m.parties,
  same m.candidates,
  same m.politicians,
)

module _ (lower : String → String) where
  merge_unique-Extends :
      (xs new : List String)
      → let (ys, n) = merge_unique lower xs new in Extends xs ys × (length ys ≡ length xs + n)
  unfolding merge_unique
  merge_unique-Extends xs new =
      ((added_to lower xs new, refl), length-append xs (added_to lower xs new))

  -- A step that keeps what was there and counts what it adds
  abbrev IsAdding : Mentions → Mentions × ℕ → Type 0
  IsAdding m (m', n) = Keeps m m' × (mentions_count lower m' ≡ mentions_count lower m + n)

  IsAdding-either :
      (m : Mentions) (b : Bool) (x y : Mentions × ℕ)
      → IsAdding m x
      → IsAdding m y
      → IsAdding m (if b then x else y)
  IsAdding-either m true x y h k = h
  IsAdding-either m false x y h k = k

  with_matcher-IsAdding : (ner found : Mentions) → IsAdding ner (with_matcher lower ner found)
  unfolding with_matcher
  with_matcher-IsAdding ner found =
      let c = merge_unique-Extends ner.cities found.cities in
      let m = merge_unique-Extends ner.mayors found.mayors in
      let g = merge_unique-Extends ner.governors found.governors in
      let p = merge_unique-Extends ner.parties found.parties in
      let cd = merge_unique-Extends ner.candidates found.candidates in
      let pl = merge_unique-Extends ner.politicians found.politicians in
      ((c.0, m.0, g.0, p.0, cd.0, pl.0), omega (arith, c.1, m.1, g.1, p.1, cd.1, pl.1))

  none-IsAdding : (m : Mentions) → IsAdding m (m, 0)
  none-IsAdding m = (Keeps-refl m, omega arith)

  with_city-IsAdding : (city : Option String) (m : Mentions) → IsAdding m (with_city lower city m)
  with_city-IsAdding city m =
      let c = merge_unique-Extends m.cities (get_or city "" ∷ []) in
      let k = Keeps-refl m in
      IsAdding-either m (str_eq (get_or city "") "") _ _ (none-IsAdding m)
        ((c.0, k.1, k.2, k.3, k.4, k.5), omega (arith, c.1))

  with_author-IsAdding : (p : Option Politician) (m : Mentions) → IsAdding m (with_author lower p m)
  unfolding with_author
  with_author-IsAdding none m = none-IsAdding m
  with_author-IsAdding (some p) m =
      let k = Keeps-refl m in
      let mayor = merge_unique-Extends m.mayors (p.name ∷ []) in
      let governor = merge_unique-Extends m.governors (p.name ∷ []) in
      let m' = record m { mayors = (merge_unique lower m.mayors (p.name ∷ [])).0 } in
      let city = with_city-IsAdding p.city m' in
      IsAdding-either m (str_eq p.role "mayor") _ _
        (
          Keeps-trans m m' (with_city lower p.city m').0 (k.0, mayor.0, k.2, k.3, k.4, k.5) city.0,
          omega (arith, mayor.1, city.1),
        )
        (IsAdding-either m (str_eq p.role "governor") _ _
          ((k.0, k.1, governor.0, k.3, k.4, k.5), omega (arith, governor.1)) (none-IsAdding m))

  -- The enrichment of a post's mentions neither drops nor moves a mention of the recogniser in any of
  -- its lists, and the mentions that it ends with are as many as the three sources are counted for.
  pub enrich_with_region_matcher-Keeps :
      (politician_by_handle : String → Option Politician) (handle : Option String)
      (ner found : Mentions)
      → let (enriched, counts) =
          enrich_with_region_matcher lower politician_by_handle handle ner found in
        Keeps ner enriched
        × (mentions_count lower enriched ≡ counts.ner + counts.matcher + counts.handle)
  unfolding enrich_with_region_matcher
  enrich_with_region_matcher-Keeps politician_by_handle handle ner found =
      let matched = with_matcher lower ner found in
      let politician = author_of lower politician_by_handle handle in
      let h = with_matcher-IsAdding ner found in
      let k = with_author-IsAdding politician matched.0 in
      (
        Keeps-trans ner matched.0 (with_author lower politician matched.0).0 h.0 k.0,
        omega (arith, h.1, k.1),
      )
