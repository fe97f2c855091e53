-- ===== src/SocialPipeline/Regions.antt =====
-- pipelines/mapear-social/src/mapear_social/pipeline.py, `_enrich_with_region_matcher`: what the entity
-- recogniser, the text matcher and the author's handle mention.
use mapear_rn.Base.{
  ℕ, ◌+◌, String, not, Option, none, some, List, [], ◌∷◌, ◌++◌, length, map, select, contains,
  str_eq, if◌then◌else◌, get_or,
}

-- The lists of a result, of which a missing one is empty
pub record Mentions : Type 0 where
  pub cities : List String
  pub mayors : List String
  pub governors : List String
  pub parties : List String
  pub candidates : List String
  pub politicians : List String

pub record Politician : Type 0 where
  pub name : String
  pub role : String
  pub city : Option String

pub record Counts : Type 0 where
  pub ner : ℕ
  pub matcher : ℕ
  pub handle : ℕ

-- `_build_entity_list`
abbrev pub typed : String → List String → List (String × String)
typed kind [] = []
typed kind (x ∷ xs) = (x, kind) ∷ typed kind xs

unfoldable pub build_entity_list : Mentions → List (String × String)
build_entity_list m =
    typed "city" m.cities
    ++ typed "mayor" m.mayors
    ++ typed "governor" m.governors
    ++ typed "party" m.parties

module _ (lower : String → String) where
  -- `[x for x in new if x.lower() not in seen]`
  abbrev pub added_to : List String → List String → List String
  added_to existing new = select (λ x. not (contains (lower x) (map lower existing))) new

  unfoldable pub merge_unique : List String → List String → List String × ℕ
  merge_unique existing new = let added = added_to existing new in (existing ++ added, length added)

  abbrev pub mentions_count : Mentions → ℕ
  mentions_count m =
      length m.cities
      + length m.mayors
      + length m.governors
      + length m.parties
      + length m.candidates
      + length m.politicians

  -- Path 2: the mentions of the text matcher
  unfoldable pub with_matcher : Mentions → Mentions → Mentions × ℕ
  with_matcher ner found =
      let (cities, c) = merge_unique ner.cities found.cities in
      let (mayors, m) = merge_unique ner.mayors found.mayors in
      let (governors, g) = merge_unique ner.governors found.governors in
      let (parties, p) = merge_unique ner.parties found.parties in
      let (candidates, cd) = merge_unique ner.candidates found.candidates in
      let (politicians, pl) = merge_unique ner.politicians found.politicians in
      (
        record {
          cities = cities;
          mayors = mayors;
          governors = governors;
          parties = parties;
          candidates = candidates;
          politicians = politicians;
        },
        c + m + g + p + cd + pl,
      )

  -- `if politician.city`
  abbrev pub with_city : Option String → Mentions → Mentions × ℕ
  with_city city m =
      let (cities, added) = merge_unique m.cities (get_or city "" ∷ []) in
      if str_eq (get_or city "") "" then (m, 0) else (record m { cities = cities }, added)

  -- Path 3: the politician whose handle is the author's
  unfoldable pub with_author : Option Politician → Mentions → Mentions × ℕ
  with_author none m = (m, 0)
  with_author (some politician) m =
      let (mayors, added_mayor) = merge_unique m.mayors (politician.name ∷ []) in
      let (placed, added_city) = with_city politician.city (record m { mayors = mayors }) in
      let (governors, added_governor) = merge_unique m.governors (politician.name ∷ []) in
      if str_eq politician.role "mayor"
      then (placed, added_mayor + added_city)
      else if str_eq politician.role "governor"
      then (record m { governors = governors }, added_governor)
      else (m, 0)

  -- `if author_handle`, and the look-up by platform and handle
  abbrev pub author_of : (String → Option Politician) → Option String → Option Politician
  author_of politician_by_handle handle =
      if str_eq (get_or handle "") "" then none else politician_by_handle (get_or handle "")

  unfoldable pub enrich_with_region_matcher :
      (String → Option Politician) → Option String → Mentions → Mentions → Mentions × Counts
  enrich_with_region_matcher politician_by_handle author_handle ner found =
      let (matched, matcher_count) = with_matcher ner found in
      let (enriched, handle_count) =
        with_author (author_of politician_by_handle author_handle) matched in
      (
        enriched,
        record { ner = mentions_count ner; matcher = matcher_count; handle = handle_count },
      )
