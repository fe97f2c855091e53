-- ===== src/ErrorClass.antt =====
-- pipelines/mapear-rss/src/mapear_rss/extraction/domain_cooldown.py: the error classes and the
-- retry budget. Error types are texts, as in the source.
use mapear_rn.Base.{
  ℕ, String, Bool, true, false, ◌||◌, Option, none, some, [], ◌∷◌, str_eq, Dict, lookup, get_or,
  if◌then◌else◌,
}

pub data ErrorClass : Type 0 where
  bot_block rate_limit parser_hard parser transient : ErrorClass

abbrev pub class_eq : ErrorClass → ErrorClass → Bool
class_eq bot_block bot_block = true
class_eq rate_limit rate_limit = true
class_eq parser_hard parser_hard = true
class_eq parser parser = true
class_eq transient transient = true
class_eq _ _ = false

class_of_text : String → ErrorClass
class_of_text e =
    if str_eq e "blocked_bot" || str_eq e "http_403"
    then bot_block
    else if str_eq e "http_429"
    then rate_limit
    else if str_eq e "selector_missing" || str_eq e "empty_content"
    then parser_hard
    else if str_eq e "parser_failure"
    then parser
    else transient

unfoldable pub error_class_for : Option String → ErrorClass
unfolding class_of_text
error_class_for none = transient
error_class_for (some e) = class_of_text e

abbrev pub retry_budget_defaults : Dict ℕ
retry_budget_defaults =
    ("timeout", 3)
    ∷ ("connection_reset", 3)
    ∷ ("http_5xx", 3)
    ∷ ("http_429", 2)
    ∷ ("http_403", 1)
    ∷ ("blocked_bot", 1)
    ∷ ("http_404", 1)
    ∷ ("empty_content", 1)
    ∷ ("selector_missing", 1)
    ∷ ("unknown", 2)
    ∷ []

-- `overrides and error_type in overrides`: an empty dictionary holds no key.
unfoldable pub retry_budget : String → Option (Dict ℕ) → ℕ
retry_budget e none = get_or (lookup e retry_budget_defaults) 2
retry_budget e (some o) = get_or (lookup e o) (get_or (lookup e retry_budget_defaults) 2)
