-- ===== src/PersonResolver/Tests.antt =====
-- The theorems of the resolver at two mayors, and runs of it.
use mapear_rn.Base.{
  ℕ, ◌+◌, ltb, String, true, ◌≡◌, refl, some, List, [], ◌∷◌, All, arith, lookup, insert, str_eq,
  if◌then◌else◌,
}
use mapear_rn.PersonResolver.Scoring.{Lexicon, Target, score_with_context}
use mapear_rn.PersonResolver.{
  in_scope, resolve, resolve_best, by_name, resolve_exact, resolve_tokens,
}
use mapear_rn.PersonResolver.Gating.{IsGated}
use mapear_rn.PersonResolver.Choosing.{
  AtMost, IsOneOf, of_status, results_of, resolve_best-IsGated, resolve_best-AtMost,
}

-- Texts that need no treatment, with two names taken apart
abbrev plain : Lexicon
plain = record {
  normalize = λ text. text;
  tokens = λ text.
      if str_eq text "joao silva"
      then "joao" ∷ "silva" ∷ []
      else if str_eq text "maria silva"
      then "maria" ∷ "silva" ∷ []
      else text ∷ [];
  strip_handle = λ text. text;
  split = λ text. text ∷ [];
  is_close = λ best next. ltb best (next + 15);
}

abbrev joao : Target
joao = record {
  person_id = "p1";
  name = "joao silva";
  role = "mayor";
  party = "pt";
  city = "natal";
  aliases = "joaozinho" ∷ [];
  facebook_page = "";
  instagram_username = "joao.oficial";
  x_handle = "";
  tiktok_handle = "";
  is_incumbent = true;
}

abbrev maria : Target
maria = record joao {
  person_id = "p2";
  name = "maria silva";
  city = "mossoro";
  aliases = [];
  instagram_username = "";
}

abbrev targets : List Target
targets = joao ∷ maria ∷ []

abbrev context : String
context = "o prefeito de natal"

resolve_best-IsGated_example :
    IsGated targets
      (resolve_best plain (λ t. 80) targets ("silva" ∷ "joaozinho" ∷ []) context "rss" "")
resolve_best-IsGated_example =
    resolve_best-IsGated plain (λ t. 80) targets ("silva" ∷ "joaozinho" ∷ []) context "rss" ""

resolve_best-AtMost_example :
    let score : Target → ℕ = λ t. 80 in
    let best = resolve_best plain score targets ("silva" ∷ "joaozinho" ∷ []) context "rss" "" in
    let results = results_of plain score targets ("silva" ∷ "joaozinho" ∷ []) context "rss" in
    let candidates = of_status plain score in_scope results in
    (best.scope_status ≡ in_scope) × All (AtMost best) candidates × IsOneOf best candidates
unfolding resolve by_name lookup insert resolve_exact resolve_tokens score_with_context
resolve_best-AtMost_example =
    resolve_best-AtMost plain (λ t. 80) targets ("silva" ∷ "joaozinho" ∷ []) context "rss" ""
      (omega arith)

by_alias : (resolve plain (λ t. 80) targets "joaozinho" context "rss" "").person_id ≡ some "p1"
unfolding resolve by_name lookup insert resolve_exact score_with_context
by_alias = refl
