-- ===== src/PersonResolver/Scoring.antt =====
-- libs/mapear-domain/src/mapear_domain/entity_resolution/person_resolver.py: the targets, and how a context
-- corroborates one.
use mapear_rn.Base.{
  ℕ, ◌+◌, min, String, Bool, false, ◌&&◌, ◌||◌, not, List, [], ◌∷◌, ◌++◌, contains, is_in, str_eq,
  if◌then◌else◌,
}

pub record Lexicon : Type 0 where
  pub normalize : String → String
  pub tokens : String → List String
  pub strip_handle : String → String
  pub split : String → List String
  -- `best_score - second_score < 0.15` of two scores in hundredths, in floating-point numbers
  pub is_close : ℕ → ℕ → Bool

pub record Target : Type 0 where
  pub person_id : String
  pub name : String
  pub role : String
  pub party : String
  pub city : String
  pub aliases : List String
  pub facebook_page : String
  pub instagram_username : String
  pub x_handle : String
  pub tiktok_handle : String
  pub is_incumbent : Bool

abbrev pub role_keywords : String → List String
role_keywords role =
    if str_eq role "mayor"
    then "prefeito" ∷ "prefeita" ∷ "prefeitura" ∷ []
    else if str_eq role "governor"
    then "governador" ∷ "governadora" ∷ "governo do estado" ∷ []
    else if str_eq role "governor_candidate"
    then "candidato" ∷ "candidata" ∷ "campanha" ∷ []
    else []

-- `any(kw in text for kw in keywords)`
abbrev pub any_in : List String → String → Bool
any_in [] text = false
any_in (kw ∷ kws) text = is_in kw text || any_in kws text

abbrev pub points_if : Bool → ℕ → ℕ
points_if b n = if b then n else 0

abbrev pub tokens_of_all : Lexicon → List String → List String
tokens_of_all lex [] = []
tokens_of_all lex (alias ∷ aliases) = lex.tokens alias ++ tokens_of_all lex aliases

-- Some text is in both lists.
abbrev pub meets : List String → List String → Bool
meets [] ys = false
meets (x ∷ xs) ys = contains x ys || meets xs ys

-- `query_tokens & self._target_tokens[person_id]`
abbrev pub shares_token : Lexicon → String → Target → Bool
shares_token lex name t = meets (lex.tokens name) (lex.tokens t.name ++ tokens_of_all lex t.aliases)

-- The points of a context
abbrev pub context_points : Lexicon → Target → String → ℕ
context_points lex t norm_context =
    points_if (not (str_eq t.city "") && is_in (lex.normalize t.city) norm_context) 20
    + points_if (not (str_eq t.party "") && is_in (lex.normalize t.party) norm_context) 10
    + points_if (any_in (role_keywords t.role) norm_context) 10
    + points_if (t.is_incumbent && contains "rn" (lex.split norm_context)) 5

-- `_score_with_context`
unfoldable pub score_with_context : Lexicon → Target → String → ℕ
score_with_context lex t norm_context =
    if str_eq norm_context "" then 50 else min (50 + context_points lex t norm_context) 95
