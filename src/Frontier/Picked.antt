-- ===== src/Frontier/Picked.antt =====
-- How many rows an `id IN (SELECT … LIMIT …)` meets, and that each of them meets the condition.
use mapear_rn.Base.{
  ℕ, zero, suc, ◌+◌, ◌≤◌, min, ◌≡◌, refl, ◌∙◌, Bool, true, false, List, [], ◌∷◌, arith, All,
  All-mono, count, select, length,
}
use mapear_rn.Frontier.Rows.{Row, OrderBy, has_id, limit_to}
use mapear_rn.Frontier.Picking.{
  same_id, DistinctIds, has_id-eq-count, has_id-limit_to, selected_self,
}

count_of_distinct : (k : ℕ) (rows : List Row) → DistinctIds rows → count (same_id k) rows ≤ 1
count_of_distinct k [] d = omega arith
count_of_distinct k (r ∷ rows) d =
    ground (arith, count_of_distinct k rows d.1, has_id-eq-count r.id rows)

distinct_of_count : (rows : List Row) → ((k : ℕ) → count (same_id k) rows ≤ 1) → DistinctIds rows
distinct_of_count [] h = tt
distinct_of_count (r ∷ rows) h = (
  ground (arith, h r.id, has_id-eq-count r.id rows),
  distinct_of_count rows (λ k. ground (arith, h k)),
)

count_one :
    (k : ℕ) (rows : List Row) → DistinctIds rows → has_id k rows ≡ true → count (same_id k) rows ≡ 1
count_one k rows d h = ground (arith, count_of_distinct k rows d, has_id-eq-count k rows)

count-select-le : (p q : Row → Bool) (rows : List Row) → count q (select p rows) ≤ count q rows
count-select-le p q [] = omega arith
count-select-le p q (r ∷ rows) = ground (arith, count-select-le p q rows)

count-limit_to-le :
    (n : ℕ) (q : Row → Bool) (rows : List Row) → count q (limit_to n rows) ≤ count q rows
count-limit_to-le zero q rows = omega arith
count-limit_to-le (suc n) q [] = omega arith
count-limit_to-le (suc n) q (r ∷ rows) = ground (arith, count-limit_to-le n q rows)

length-limit_to : (n : ℕ) (rows : List Row) → length (limit_to n rows) ≡ min n (length rows)
length-limit_to zero rows = omega arith
length-limit_to (suc n) [] = omega arith
length-limit_to (suc n) (r ∷ rows) = omega (arith, length-limit_to n rows)

pub length-select : (p : Row → Bool) (rows : List Row) → length (select p rows) ≡ count p rows
length-select p [] = refl
length-select p (r ∷ rows) = ground (arith, length-select p rows)

count_all : (rows : List Row) → count (λ r. true) rows ≡ length rows
count_all [] = refl
count_all (r ∷ rows) = omega (arith, count_all rows)

All-of_has_id :
    (rows : List Row) (P : ℕ → Type 0)
    → ((k : ℕ) → has_id k rows ≡ true → P k)
    → All (λ r. P r.id) rows
All-of_has_id [] P f = tt
All-of_has_id (r ∷ rows) P f =
    (f r.id (ground arith), All-of_has_id rows P (λ k h. f k (ground arith)))

count_apart :
    (l : Row) (ls rows : List Row)
    → has_id l.id ls ≡ false
    → count (λ r. has_id r.id (l ∷ ls)) rows
      ≡ count (same_id l.id) rows + count (λ r. has_id r.id ls) rows
count_apart l ls [] h = refl
count_apart l ls (r ∷ rows) h = ground (arith, count_apart l ls rows h)

count_listed :
    (ls rows : List Row)
    → DistinctIds rows
    → DistinctIds ls
    → All (λ l. has_id l.id rows ≡ true) ls
    → count (λ r. has_id r.id ls) rows ≡ length ls
count_listed [] rows d e m = count_none rows
  where
    count_none : (rs : List Row) → count (λ (r : Row). false) rs ≡ 0
    count_none [] = refl
    count_none (r ∷ rs) = omega (arith, count_none rs)
count_listed (l ∷ ls) rows d e m =
    count_apart l ls rows e.0
    ∙ omega (arith, count_one l.id rows d m.0, count_listed ls rows d e.1 m.1)

module _ (db : OrderBy) (cond : Row → Bool) (before : Row → Row → Bool) (limit : ℕ) where
  abbrev chosen : List Row → List Row
  chosen rows = limit_to limit (db.sort before (select cond rows))

  has_id-chosen :
      (k : ℕ) (rows : List Row) → has_id k (chosen rows) ≡ true → has_id k (select cond rows) ≡ true
  has_id-chosen k rows h =
      let sorted = db.sort before (select cond rows) in
      ground (
        arith,
        has_id-limit_to k limit sorted h,
        has_id-eq-count k sorted,
        has_id-eq-count k (select cond rows),
        db.sort_count before (same_id k) (select cond rows),
      )

  -- Each row that is met satisfies the inner condition.
  pub chosen_meet :
      (rows : List Row)
      → DistinctIds rows
      → All (λ r. has_id r.id (chosen rows) ≡ true → cond r ≡ true) rows
  chosen_meet rows d =
      All-mono _ _ rows (λ r h e. h (has_id-chosen r.id rows e)) (selected_self cond rows d)

  DistinctIds-chosen : (rows : List Row) → DistinctIds rows → DistinctIds (chosen rows)
  DistinctIds-chosen rows d = distinct_of_count (chosen rows) λ k. omega (
    arith,
    count-limit_to-le limit (same_id k) (db.sort before (select cond rows)),
    db.sort_count before (same_id k) (select cond rows),
    count-select-le cond (same_id k) rows,
    count_of_distinct k rows d,
  )

  length-chosen : (rows : List Row) → length (chosen rows) ≡ min limit (count cond rows)
  length-chosen rows =
      let sorted = db.sort before (select cond rows) in
      omega (
        arith,
        length-limit_to limit sorted,
        count_all sorted,
        count_all (select cond rows),
        db.sort_count before (λ r. true) (select cond rows),
        length-select cond rows,
      )

  has_id-select_of :
      (k : ℕ) (rows : List Row) → has_id k (select cond rows) ≡ true → has_id k rows ≡ true
  has_id-select_of k rows h = ground (
    arith,
    has_id-eq-count k rows,
    has_id-eq-count k (select cond rows),
    count-select-le cond (same_id k) rows,
  )

  -- As many rows are met as satisfy the condition, up to the limit.
  pub count-chosen :
      (rows : List Row)
      → DistinctIds rows
      → count (λ r. has_id r.id (chosen rows)) rows ≡ min limit (count cond rows)
  count-chosen rows d =
      count_listed (chosen rows) rows d (DistinctIds-chosen rows d) (
        All-of_has_id (chosen rows) (λ k. has_id k rows ≡ true)
          (λ k h. has_id-select_of k rows (has_id-chosen k rows h)))
      ∙ length-chosen rows
