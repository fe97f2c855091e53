-- ===== src/Deduplicator/Tests.antt =====
-- A small batch, a completed row, and two URLs that differ by a tracking parameter.
use mapear_rn.Base.{
  String, ◌≡◌, refl, true, false, none, some, List, [], ◌∷◌, inr, IsDistinct, All, str_eq,
  if◌then◌else◌,
}
use mapear_rn.Frontier.{Frontier, mark_completed}
use mapear_rn.Frontier.Rows.{Row, in_progress}
use mapear_rn.Deduplicator.{
  UrlLib, canonical_parts, canonicalize_url, RawArticle, new_deduplicator, is_known, deduplicate,
  load_existing_hashes, load_existing_canonical_urls,
}
use mapear_rn.Deduplicator.Batches.{hashes, canonical_urls, deduplicate_lem}
use mapear_rn.Deduplicator.Reloading.{deduplicate-completed}

abbrev small_lib : UrlLib
small_lib = record {
  urlparse_stripped = λ u. some record {
    scheme = "https";
    netloc = "g1.globo.com:443";
    path = "/rn/";
    query = if str_eq u "tagged" then "id=7&UTM_source=feed" else "id=7";
  };
  lower = λ s. if str_eq s "UTM_source" then "utm_source" else s;
  rsplit_colon = λ s. some ("g1.globo.com", "443");
  rstrip_slash = λ s. if str_eq s "/rn/" then "/rn" else s;
  parse_qs = λ q.
      if str_eq q "id=7"
      then ("id", "7" ∷ []) ∷ []
      else ("id", "7" ∷ []) ∷ ("UTM_source", "feed" ∷ []) ∷ [];
  sorted_items = λ items. items;
  urlencode = λ items. "id=7";
  urlunparse = λ scheme netloc path query. netloc;
}

canonical_host : canonicalize_url small_lib "tagged" ≡ "g1.globo.com"
unfolding canonicalize_url canonical_parts
canonical_host = refl

abbrev same_site : String → String
same_site u = if str_eq u "a?ref=x" then "a" else u

abbrev batch_of_three : List RawArticle
batch_of_three =
    record { url = "a"; content_hash = "1"; source_feed = "g1" }
    ∷ record { url = "b"; content_hash = "1"; source_feed = "g1" }
    ∷ record { url = "a?ref=x"; content_hash = "2"; source_feed = "g1" }
    ∷ []

kept_of_three :
    (deduplicate same_site batch_of_three (new_deduplicator none)).0
    ≡ record { url = "a"; content_hash = "1"; source_feed = "g1" } ∷ []
unfolding deduplicate
kept_of_three = refl

deduplicate_lem_example :
    let (unique, d') = deduplicate same_site batch_of_three (new_deduplicator none) in
    (IsDistinct (hashes same_site unique)
      × IsDistinct (canonical_urls same_site unique)
      × All (λ a. is_known same_site (new_deduplicator none) a ≡ false) unique)
    × All (λ a. is_known same_site d' a ≡ true) batch_of_three
    × (deduplicate same_site batch_of_three d' ≡ ([], d'))
deduplicate_lem_example = deduplicate_lem same_site batch_of_three (new_deduplicator none)

abbrev claimed_row : Row
claimed_row = record {
  id = 1;
  url = "a";
  source_feed = "g1";
  status = in_progress;
  title = none;
  published_at = none;
  discovered_at = 5;
  last_attempt_at = some 8;
  attempt_count = 1;
  content_hash = none;
  recirculated_at = none;
  updated_at = 8;
}

abbrev one_row : Frontier
one_row = record { rows = claimed_row ∷ []; next_id = 2; failed_articles = [] }

deduplicate-completed_example :
    let f' = mark_completed 9 "a" "1" one_row in
    let d' =
      load_existing_canonical_urls same_site
        (some f')
        (load_existing_hashes (some f') (new_deduplicator none)) in
    deduplicate same_site
      (record { url = "a?ref=x"; content_hash = "2"; source_feed = "g1" } ∷ [])
      d'
    ≡ ([], d')
deduplicate-completed_example =
    deduplicate-completed same_site 9 "a" "1" one_row (new_deduplicator none)
      record { url = "a?ref=x"; content_hash = "2"; source_feed = "g1" } refl (inr refl)
