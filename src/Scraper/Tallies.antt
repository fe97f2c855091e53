-- ===== src/Scraper/Tallies.antt =====
-- What the report of a run counts.
use mapear_rn.Base.{
  ℕ, ◌+◌, ◌≤◌, ◌<◌, String, ◌≡◌, refl, Bool, true, false, ◌&&◌, List, [], ◌∷◌, arith, str_eq, count,
  if◌then◌else◌, Dict, lookup, insert, lookup-insert, eq_of_str_eq, ap, ◌↔◌,
}
use mapear_rn.Scraper.State.{DiagnosticRecord}
use mapear_rn.Scraper.Reports.{
  DomainStats, stats_of, is_http_error, is_parser_failure, note_in, tally, per_domain,
  FetchCounters, fetched_total, extracted_total, build_report,
}

-- The records of a domain that pass a test
abbrev pub count_of : String → (DiagnosticRecord → Bool) → List DiagnosticRecord → ℕ
count_of domain p records = count (λ (r : DiagnosticRecord). str_eq r.domain domain && p r) records

-- The numbers of a domain are those it had, and what the records add.
abbrev Adds : String → List DiagnosticRecord → DomainStats → DomainStats → Type 0
Adds domain records old new =
    (new.attempts ≡ old.attempts + count_of domain (λ r. true) records)
    × (new.success ≡ old.success + count_of domain (λ r. r.extraction_success) records)
    × (new.blocked ≡ old.blocked + count_of domain (λ r. r.is_blocked) records)
    × (new.parser_failure ≡ old.parser_failure + count_of domain is_parser_failure records)
    × (new.http_error ≡ old.http_error + count_of domain is_http_error records)

stats_of-insert :
    (k j : String) (v : DomainStats) (d : Dict DomainStats)
    → stats_of j (insert k v d) ≡ (if str_eq k j then v else stats_of j d)
stats_of-insert k j v d = ground (arith, lookup-insert k j v d)

-- One record is counted for its own domain, and for no other.
noted-Adds :
    (domain : String) (r : DiagnosticRecord) (d : Dict DomainStats) (b : Bool)
    → str_eq r.domain domain ≡ b
    → Adds domain
        (r ∷ [])
        (stats_of domain d)
        (if b then note_in r (stats_of r.domain d) else stats_of domain d)
noted-Adds domain r d true e =
    let here = ap (λ k. stats_of k d) (eq_of_str_eq r.domain domain e) in
    rw (e, here) (omega arith, omega arith, omega arith, omega arith, omega arith)
noted-Adds domain r d false e =
    rw e (omega arith, omega arith, omega arith, omega arith, omega arith)

Adds-trans :
    (domain : String) (r : DiagnosticRecord) (records : List DiagnosticRecord)
    (old mid new : DomainStats)
    → Adds domain (r ∷ []) old mid
    → Adds domain records mid new
    → Adds domain (r ∷ records) old new
Adds-trans domain r records old mid new h k = (
  omega (arith, h.0, k.0),
  omega (arith, h.1, k.1),
  omega (arith, h.2, k.2),
  omega (arith, h.3, k.3),
  omega (arith, h.4, k.4),
)

tally-Adds :
    (domain : String) (records : List DiagnosticRecord) (d : Dict DomainStats)
    → Adds domain records (stats_of domain d) (stats_of domain (tally records d))
unfolding tally
tally-Adds domain [] d = (omega arith, omega arith, omega arith, omega arith, omega arith)
tally-Adds domain (r ∷ records) d =
    let v = note_in r (stats_of r.domain d) in
    let d' = insert r.domain v d in
    let one : Adds domain (r ∷ []) (stats_of domain d) (stats_of domain d') =
      rw (stats_of-insert r.domain domain v d) (noted-Adds domain r d _ refl) in
    Adds-trans domain r records (stats_of domain d) (stats_of domain d')
      (stats_of domain (tally records d')) one (tally-Adds domain records d')

-- One pass over the records gives, for every domain, the number of its attempts, of its successes,
-- of its blocks, of its parser failures and of its HTTP errors.
pub per_domain-counts :
    (records : List DiagnosticRecord) (domain : String)
    → let d = stats_of domain (per_domain records) in
      (d.attempts ≡ count_of domain (λ r. true) records)
      × (d.success ≡ count_of domain (λ r. r.extraction_success) records)
      × (d.blocked ≡ count_of domain (λ r. r.is_blocked) records)
      × (d.parser_failure ≡ count_of domain is_parser_failure records)
      × (d.http_error ≡ count_of domain is_http_error records)
unfolding per_domain lookup
per_domain-counts records domain =
    let h = tally-Adds domain records [] in
    (
      omega (arith, h.0),
      omega (arith, h.1),
      omega (arith, h.2),
      omega (arith, h.3),
      omega (arith, h.4),
    )

-- The report never gives more extracted pages than fetched ones, nor a rate above one; and it warns
-- exactly if pages were fetched, but fewer than were extracted.
build_report-extracted :
    (c : FetchCounters)
    → let r = build_report c in
      (r.extracted ≤ r.fetched)
      × (r.extraction_rate.0 ≤ r.extraction_rate.1)
      × (0 < r.extraction_rate.1)
      × ((r.integrity_warning ≡ true)
          ↔ ((0 < fetched_total c) × (fetched_total c < extracted_total c)))
unfolding build_report
build_report-extracted c = ground arith
