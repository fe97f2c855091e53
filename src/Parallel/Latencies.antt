-- ===== src/Parallel/Latencies.antt =====
-- The latency report of a parallel run.
use mapear_rn.Base.{
  ℕ, zero, suc, ◌+◌, ◌-◌, ◌*◌, ◌/◌, ◌≤◌, ◌<◌, min, max, ◌≡◌, refl, not, some, List, [], ◌∷◌, arith,
  length, select,
}
use mapear_rn.Parallel.{PlatformRunResult}
use mapear_rn.Parallel.Report.{
  insort, sorted, sum, item, latencies, LatencyReport, median, percentile_95, emit_report,
}

insort-sums :
    (x : ℕ) (xs : List ℕ)
    → (length (insort x xs) ≡ suc (length xs)) × (sum (insort x xs) ≡ x + sum xs)
insort-sums x [] = ground arith
insort-sums x (y ∷ ys) = ground (arith, insort-sums x ys)

sorted-sums : (xs : List ℕ) → (length (sorted xs) ≡ length xs) × (sum (sorted xs) ≡ sum xs)
unfolding sorted
sorted-sums [] = ground arith
sorted-sums (x ∷ xs) = ground (arith, sorted-sums xs, insort-sums x (sorted xs))

abbrev AtLeast : ℕ → List ℕ → Type 0
AtLeast x [] = Unit
AtLeast x (y ∷ ys) = (x ≤ y) × AtLeast x ys

abbrev Ascending : List ℕ → Type 0
Ascending [] = Unit
Ascending (x ∷ xs) = AtLeast x xs × Ascending xs

AtLeast-insort : (a x : ℕ) (xs : List ℕ) → a ≤ x → AtLeast a xs → AtLeast a (insort x xs)
AtLeast-insort a x [] h k = (h, tt)
AtLeast-insort a x (y ∷ ys) h k = ground (arith, AtLeast-insort a x ys h)

AtLeast-below : (a b : ℕ) (xs : List ℕ) → a ≤ b → AtLeast b xs → AtLeast a xs
AtLeast-below a b [] h k = tt
AtLeast-below a b (x ∷ xs) h k = (omega (arith, h, k.0), AtLeast-below a b xs h k.1)

Ascending-insort : (x : ℕ) (xs : List ℕ) → Ascending xs → Ascending (insort x xs)
Ascending-insort x [] k = (tt, tt)
Ascending-insort x (y ∷ ys) k =
    ground (arith, AtLeast-below x y ys, AtLeast-insort y x ys, Ascending-insort x ys)

Ascending-sorted : (xs : List ℕ) → Ascending (sorted xs)
unfolding sorted
Ascending-sorted [] = tt
Ascending-sorted (x ∷ xs) = Ascending-insort x (sorted xs) (Ascending-sorted xs)

item-some : (xs : List ℕ) (i : ℕ) → i < length xs → (v : ℕ) × (item xs i ≡ some v)
unfolding item
item-some [] i h = absurd (omega arith)
item-some (x ∷ xs) zero h = (x, refl)
item-some (x ∷ xs) (suc i) h = item-some xs i (omega (arith, h))

item-le-sum : (xs : List ℕ) (i v : ℕ) → item xs i ≡ some v → v ≤ sum xs
unfolding item
item-le-sum [] i v h = absurd (ground arith)
item-le-sum (x ∷ xs) zero v h = ground arith
item-le-sum (x ∷ xs) (suc i) v h = omega (arith, item-le-sum xs i v h)

AtLeast-item : (a : ℕ) (xs : List ℕ) (i v : ℕ) → AtLeast a xs → item xs i ≡ some v → a ≤ v
unfolding item
AtLeast-item a [] i v k h = absurd (ground arith)
AtLeast-item a (x ∷ xs) zero v k h = ground arith
AtLeast-item a (x ∷ xs) (suc i) v k h = AtLeast-item a xs i v k.1 h

item_mono :
    (xs : List ℕ) (i j v w : ℕ)
    → Ascending xs
    → i ≤ j
    → item xs i ≡ some v
    → item xs j ≡ some w
    → v ≤ w
unfolding item
item_mono [] i j v w k l p q = absurd (ground arith)
item_mono (x ∷ xs) zero zero v w k l p q = ground arith
item_mono (x ∷ xs) zero (suc j) v w k l p q = ground (arith, AtLeast-item x xs j w k.0 q)
item_mono (x ∷ xs) (suc i) zero v w k l p q = absurd (omega arith)
item_mono (x ∷ xs) (suc i) (suc j) v w k l p q = item_mono xs i j v w k.1 (omega (arith, l)) p q

length-select-not :
    (rs : List PlatformRunResult)
    → length (select (λ r. r.success) rs) + length (select (λ r. not r.success) rs) ≡ length rs
length-select-not [] = refl
length-select-not (r ∷ rs) = ground (arith, length-select-not rs)

percentiles :
    (xs : List ℕ)
    → Ascending xs
    → (v w : ℕ) × (median (length xs) xs ≡ some v)
      × (percentile_95 (length xs) xs ≡ some w)
      × (v ≤ w)
      × (w ≤ sum xs)
percentiles [] k = (0, 0, refl, refl, omega arith, omega arith)
percentiles (x ∷ xs) k =
    let n = length (x ∷ xs) in
    let (v, p) = item-some (x ∷ xs) (max 0 (n / 2 - 1)) (omega arith) in
    let (w, q) = item-some (x ∷ xs) (min (n * 95 / 100) (n - 1)) (omega arith) in
    (
      v,
      w,
      ground (arith, p),
      ground (arith, q),
      item_mono (x ∷ xs) _ _ v w k (omega arith) p q,
      item-le-sum (x ∷ xs) _ w q,
    )

emit_report-at :
    (results : List PlatformRunResult) (v w : ℕ)
    → let lats = sorted (latencies results) in
      median (length lats) lats ≡ some v
      → percentile_95 (length lats) lats ≡ some w
      → emit_report results
        ≡ some record {
          sequential_estimate = sum (latencies results);
          p50 = v;
          p95 = w;
          succeeded = length (select (λ r. r.success) results);
          failed = length (select (λ r. not r.success) results);
        }
unfolding emit_report
emit_report-at results v w p q = ground (arith, p, q)

-- The latency report indexes no latency out of range, whatever the results: its median is at most
-- its 95th percentile, that is at most the sum of the latencies, and the successes and the
-- failures are together as many as the results.
emit_report_lem :
    (results : List PlatformRunResult)
    → (report : LatencyReport) × (emit_report results ≡ some report)
      × (report.p50 ≤ report.p95)
      × (report.p95 ≤ report.sequential_estimate)
      × (report.succeeded + report.failed ≡ length results)
emit_report_lem results =
    let lats = sorted (latencies results) in
    let (v, w, p, q, l, m) = percentiles lats (Ascending-sorted (latencies results)) in
    (
      _,
      emit_report-at results v w p q,
      l,
      omega (arith, m, sorted-sums (latencies results)),
      length-select-not results,
    )
