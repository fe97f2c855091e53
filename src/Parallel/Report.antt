-- ===== src/Parallel/Report.antt =====
-- pipelines/mapear-social/src/mapear_social/parallel.py, `_emit_report`: the figures of the latency
-- report.
use mapear_rn.Base.{
  ℕ, zero, suc, ◌+◌, ◌-◌, ◌*◌, ◌/◌, not, Option, none, some, List, [], ◌∷◌, leb, ◌==◌,
  if◌then◌else◌, length, select, min, max,
}
use mapear_rn.Parallel.{PlatformRunResult}

abbrev pub insort : ℕ → List ℕ → List ℕ
insort x [] = x ∷ []
insort x (y ∷ ys) = if leb x y then x ∷ y ∷ ys else y ∷ insort x ys

-- `sorted(latencies)`
unfoldable pub sorted : List ℕ → List ℕ
sorted [] = []
sorted (x ∷ xs) = insort x (sorted xs)

abbrev pub sum : List ℕ → ℕ
sum [] = 0
sum (x ∷ xs) = x + sum xs

-- `xs[i]`, where past the end is an IndexError
unfoldable pub item : List ℕ → ℕ → Option ℕ
item [] i = none
item (x ∷ xs) zero = some x
item (x ∷ xs) (suc i) = item xs i

abbrev pub latencies : List PlatformRunResult → List ℕ
latencies [] = []
latencies (r ∷ rs) = r.latency_seconds ∷ latencies rs

pub record LatencyReport : Type 0 where
  pub sequential_estimate : ℕ
  pub p50 : ℕ
  pub p95 : ℕ
  pub succeeded : ℕ
  pub failed : ℕ

abbrev pub median : ℕ → List ℕ → Option ℕ
median n xs = if n == 0 then some 0 else item xs (max 0 (n / 2 - 1))

abbrev pub percentile_95 : ℕ → List ℕ → Option ℕ
percentile_95 n xs = if n == 0 then some 0 else item xs (min (n * 95 / 100) (n - 1))

-- The figures of `_emit_report`
unfoldable pub emit_report : List PlatformRunResult → Option LatencyReport
emit_report results =
    let lats = sorted (latencies results) in
    elim (median (length lats) lats) [
      | none ↦ none
      | some p50 ↦ elim (percentile_95 (length lats) lats) [
        | none ↦ none
        | some p95 ↦ some record {
          sequential_estimate = sum (latencies results);
          p50 = p50;
          p95 = p95;
          succeeded = length (select (λ r. r.success) results);
          failed = length (select (λ r. not r.success) results);
        }
      ]
    ]
