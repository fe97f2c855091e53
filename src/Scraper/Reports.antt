-- ===== src/Scraper/Reports.antt =====
-- pipelines/mapear-rss/src/mapear_rss/extraction/diagnostics.py: the report of a run, made from the
-- records of its attempts and from its counters.
use text.Mathlib.Text.{starts_with}
use mapear_rn.Base.{
  ℕ, ◌+◌, ◌-◌, min, String, Bool, ◌&&◌, ◌||◌, List, [], ◌∷◌, ltb, ◌==◌, str_eq, if◌then◌else◌, Dict,
  lookup, insert, get_or,
}
use mapear_rn.Scraper.State.{DiagnosticRecord, bump}

pub record DomainStats : Type 0 where
  pub attempts : ℕ
  pub success : ℕ
  pub blocked : ℕ
  pub parser_failure : ℕ
  pub http_error : ℕ
  pub error_types : Dict ℕ

abbrev pub fresh_stats : DomainStats
fresh_stats = record {
  attempts = 0;
  success = 0;
  blocked = 0;
  parser_failure = 0;
  http_error = 0;
  error_types = [];
}

-- `by_domain[domain]` of the `defaultdict`
abbrev pub stats_of : String → Dict DomainStats → DomainStats
stats_of domain d = get_or (lookup domain d) fresh_stats

abbrev pub error_text : DiagnosticRecord → String
error_text r = get_or r.error_type ""

abbrev pub is_http_error : DiagnosticRecord → Bool
is_http_error r = starts_with (error_text r) "http_"

abbrev pub is_parser_failure : DiagnosticRecord → Bool
is_parser_failure r =
    str_eq (error_text r) "selector_missing" || str_eq (error_text r) "empty_content"

abbrev pub one_if : Bool → ℕ
one_if b = if b then 1 else 0

abbrev pub note_in : DiagnosticRecord → DomainStats → DomainStats
note_in r d = record {
  attempts = d.attempts + 1;
  success = d.success + one_if r.extraction_success;
  blocked = d.blocked + one_if r.is_blocked;
  parser_failure = d.parser_failure + one_if (is_parser_failure r);
  http_error = d.http_error + one_if (is_http_error r);
  error_types =
      if str_eq (error_text r) "" then d.error_types else bump (error_text r) d.error_types;
}

-- The loop of `_per_domain`
unfoldable pub tally : List DiagnosticRecord → Dict DomainStats → Dict DomainStats
tally [] by_domain = by_domain
tally (r ∷ records) by_domain =
    tally records (insert r.domain (note_in r (stats_of r.domain by_domain)) by_domain)

-- `_per_domain`, before the rates
unfoldable pub per_domain : List DiagnosticRecord → Dict DomainStats
per_domain records = tally records []

-- The domains that failed, before they are sorted and cut
unfoldable pub failed_domains : Dict DomainStats → List (String × ℕ)
failed_domains [] = []
failed_domains ((domain, d) ∷ by_domain) =
    let rest = failed_domains by_domain in
    if ltb d.success d.attempts then (domain, d.attempts - d.success) ∷ rest else rest

pub record FetchCounters : Type 0 where
  pub fetched_main : ℕ
  pub fetched_retry : ℕ
  pub extracted_main : ℕ
  pub extracted_retry : ℕ

abbrev pub fetched_total : FetchCounters → ℕ
fetched_total c = c.fetched_main + c.fetched_retry

abbrev pub extracted_total : FetchCounters → ℕ
extracted_total c = c.extracted_main + c.extracted_retry

-- The totals of the report; the rate is a quotient, before it is rounded.
pub record RunReport : Type 0 where
  pub fetched : ℕ
  pub extracted : ℕ
  pub extraction_rate : ℕ × ℕ
  pub integrity_warning : Bool

unfoldable pub build_report : FetchCounters → RunReport
build_report c = record {
  fetched = fetched_total c;
  extracted = if fetched_total c == 0 then 0 else min (extracted_total c) (fetched_total c);
  extraction_rate =
      if ltb 0 (fetched_total c)
      then (min (extracted_total c) (fetched_total c), fetched_total c)
      else (0, 1);
  integrity_warning = ltb 0 (fetched_total c) && ltb (fetched_total c) (extracted_total c);
}
