-- ===== src/Frontier/DeadLetters.antt =====
-- `add_to_dlq`: the dead letters, one for each URL and stage.
use mapear_rn.Base.{
  ℕ, ◌+◌, String, ◌≡◌, Bool, ◌&&◌, Option, none, some, List, [], ◌∷◌, arith, str_eq, eq_iff,
  if◌then◌else◌,
}
use mapear_rn.Frontier.Rows.{FailedArticle}
use mapear_rn.Frontier.{Frontier}

abbrev is_letter : String → String → FailedArticle → Bool
is_letter url stage a = str_eq a.url url && str_eq a.stage stage

-- `INSERT … ON CONFLICT (url, stage) DO UPDATE SET …`
upsert : ℕ → String → String → String → String → String → List FailedArticle → List FailedArticle
upsert now url feed error_type message stage [] =
    record {
      url = url;
      source_feed = feed;
      error_type = error_type;
      error_message = message;
      stage = stage;
      retry_count = 0;
      last_failure_at = now;
    }
    ∷ []
upsert now url feed error_type message stage (a ∷ rest) =
    if is_letter url stage a
    then record a {
      retry_count = a.retry_count + 1;
      error_message = message;
      last_failure_at = now;
    }
      ∷ rest
    else a ∷ upsert now url feed error_type message stage rest

unfoldable pub add_to_dlq : ℕ → String → String → String → String → String → Frontier → Frontier
unfolding upsert
add_to_dlq now url feed error_type message stage f = record f {
  failed_articles = upsert now url feed error_type message stage f.failed_articles;
}

unfoldable pub letter : String → String → List FailedArticle → Option FailedArticle
letter url stage [] = none
letter url stage (a ∷ rest) = if is_letter url stage a then some a else letter url stage rest

abbrev pub again :
    ℕ → String → String → String → String → String → Option FailedArticle → FailedArticle
again now url feed error_type message stage none = record {
  url = url;
  source_feed = feed;
  error_type = error_type;
  error_message = message;
  stage = stage;
  retry_count = 0;
  last_failure_at = now;
}
again now url feed error_type message stage (some a) = record a {
  retry_count = a.retry_count + 1;
  error_message = message;
  last_failure_at = now;
}

letter-upsert :
    (now : ℕ) (url feed error_type message stage u s : String) (l : List FailedArticle)
    → letter u s (upsert now url feed error_type message stage l) ≡ (
        if str_eq url u && str_eq stage s
        then some (again now url feed error_type message stage (letter url stage l))
        else letter u s l)
unfolding letter upsert
letter-upsert now url feed e m stage u s [] = ground arith
letter-upsert now url feed e m stage u s (a ∷ l) = ground (
  arith,
  letter-upsert now url feed e m stage u s l,
  eq_iff url u,
  eq_iff stage s,
  eq_iff a.url url,
  eq_iff a.url u,
  eq_iff a.stage stage,
  eq_iff a.stage s,
)

-- A failure of a URL in a stage is filed under that URL and stage, with retry count 0 and its
-- error type the first time, and with the count one higher, the new message and time and the old
-- error type after that; the letters of other URLs and stages stay as they are.
add_to_dlq_lem :
    (now : ℕ) (url feed error_type message stage u s : String) (f : Frontier)
    → letter u s (add_to_dlq now url feed error_type message stage f).failed_articles ≡ (
        if str_eq url u && str_eq stage s
        then some (again now url feed error_type message stage (letter url stage f.failed_articles))
        else letter u s f.failed_articles)
unfolding add_to_dlq
add_to_dlq_lem now url feed e m stage u s f =
    letter-upsert now url feed e m stage u s f.failed_articles
