-- ===== src/PersonResolver/Sources.antt =====
-- Every target that an index gives is one of the monitored targets.
use mapear_rn.Base.{
  ℕ, String, Bool, true, false, ◌≡◌, refl, ◌||◌, ◌⊎◌, inl, inr, Option, none, some, List, [], ◌∷◌,
  All, All-mono, str_eq, if◌then◌else◌, Dict, lookup, insert,
}
use mapear_rn.PersonResolver.Scoring.{Lexicon, Target}
use mapear_rn.PersonResolver.{
  index_handle, index_names, index_all, index_aliases, handle_field, found_by, lookup_handle,
  by_handle, or_else, by_name,
}

abbrev pub IsOneOf : List Target → Target → Type 0
IsOneOf [] t = ⊥
IsOneOf (u ∷ us) t = (t ≡ u) ⊎ IsOneOf us t

-- A target that was found is one of the list.
abbrev pub From : List Target → Option Target → Type 0
From ts none = Unit
From ts (some t) = IsOneOf ts t

pub each-IsOneOf : (ts : List Target) → All (IsOneOf ts) ts
each-IsOneOf [] = tt
each-IsOneOf (t ∷ ts) =
    (inl refl, All-mono (IsOneOf ts) (IsOneOf (t ∷ ts)) ts (λ u h. inr h) (each-IsOneOf ts))

module _ (ts : List Target) where
  abbrev AreFrom : Dict Target → Type 0
  AreFrom d = All (λ (e : String × Target). IsOneOf ts e.1) d

  AreFrom-either :
      (b : Bool) (x y : Dict Target) → AreFrom x → AreFrom y → AreFrom (if b then x else y)
  AreFrom-either true x y h k = h
  AreFrom-either false x y h k = k

  insert-AreFrom :
      (k : String) (t : Target) (d : Dict Target)
      → IsOneOf ts t
      → AreFrom d
      → AreFrom (insert k t d)
  unfolding insert
  insert-AreFrom k t [] h a = (h, tt)
  insert-AreFrom k t ((j, u) ∷ d) h (b, a) =
      AreFrom-either (str_eq j k) _ _ (h, a) (b, insert-AreFrom k t d h a)

  From-either :
      (b : Bool) (x y : Option Target) → From ts x → From ts y → From ts (if b then x else y)
  From-either true x y h k = h
  From-either false x y h k = k

  lookup-From : (k : String) (d : Dict Target) → AreFrom d → From ts (lookup k d)
  unfolding lookup
  lookup-From k [] a = tt
  lookup-From k ((j, u) ∷ d) (b, a) =
      From-either (str_eq j k) (some u) (lookup k d) b (lookup-From k d a)

  module _ (lex : Lexicon) (score : Target → ℕ) where
    index_handle-AreFrom :
        (f : Target → String) (us : List Target) (d : Dict Target)
        → All (IsOneOf ts) us
        → AreFrom d
        → AreFrom (index_handle lex score f us d)
    index_handle-AreFrom f [] d h a = a
    index_handle-AreFrom f (u ∷ us) d (b, h) a =
        index_handle-AreFrom f us _ h
          (AreFrom-either (str_eq (f u) "") d _ a (insert-AreFrom (lex.strip_handle (f u)) u d b a))

    index_names-AreFrom :
        (us : List Target) (d : Dict Target)
        → All (IsOneOf ts) us
        → AreFrom d
        → AreFrom (index_names lex score us d)
    index_names-AreFrom [] d h a = a
    index_names-AreFrom (u ∷ us) d (b, h) a =
        index_names-AreFrom us _ h (insert-AreFrom (lex.normalize u.name) u d b a)

    index_all-AreFrom :
        (t : Target) (aliases : List String) (d : Dict Target)
        → IsOneOf ts t
        → AreFrom d
        → AreFrom (index_all lex score t aliases d)
    index_all-AreFrom t [] d h a = a
    index_all-AreFrom t (x ∷ aliases) d h a =
        index_all-AreFrom t aliases _ h (insert-AreFrom (lex.normalize x) t d h a)

    index_aliases-AreFrom :
        (us : List Target) (d : Dict Target)
        → All (IsOneOf ts) us
        → AreFrom d
        → AreFrom (index_aliases lex score us d)
    index_aliases-AreFrom [] d h a = a
    index_aliases-AreFrom (u ∷ us) d (b, h) a =
        index_aliases-AreFrom us _ h (index_all-AreFrom u u.aliases d b a)

    found_by-From :
        (o : Option (Target → String)) (handle : String) → From ts (found_by lex score o ts handle)
    found_by-From none handle = tt
    found_by-From (some f) handle =
        lookup-From (lex.strip_handle handle) _ (index_handle-AreFrom f ts [] (each-IsOneOf ts) tt)

    pub by_handle-From :
        (handle platform : String) → From ts (by_handle lex score ts handle platform)
    unfolding lookup_handle
    by_handle-From handle platform =
        From-either (str_eq handle "" || str_eq platform "") none _ tt
          (found_by-From (handle_field lex score platform) handle)

    or_else-From : (x y : Option Target) → From ts x → From ts y → From ts (or_else lex score x y)
    or_else-From none y h k = k
    or_else-From (some t) y h k = h

    pub by_name-From : (name : String) → From ts (by_name lex score ts name)
    unfolding by_name
    by_name-From name =
        or_else-From _ _ (lookup-From name _ (index_names-AreFrom ts [] (each-IsOneOf ts) tt))
          (lookup-From name _ (index_aliases-AreFrom ts [] (each-IsOneOf ts) tt))
