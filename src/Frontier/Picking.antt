-- ===== src/Frontier/Picking.antt =====
-- Which rows an `id IN (SELECT …)` meets: those that satisfy the inner condition, and as many of
-- them as the limit lets through.
use mapear_rn.Base.{
  ℕ, zero, suc, ◌≡◌, refl, Bool, true, false, List, [], ◌∷◌, arith, ltb, ◌==◌, All, All-mono,
  All-both, count, select,
}
use mapear_rn.Frontier.Rows.{Row, has_id, limit_to}

abbrev pub same_id : ℕ → Row → Bool
same_id k r = r.id == k

-- The primary key: no id stands twice.
abbrev pub DistinctIds : List Row → Type 0
DistinctIds [] = Unit
DistinctIds (r ∷ rows) = (has_id r.id rows ≡ false) × DistinctIds rows

pub has_id-eq-count : (k : ℕ) (rows : List Row) → has_id k rows ≡ ltb 0 (count (same_id k) rows)
has_id-eq-count k [] = refl
has_id-eq-count k (r ∷ rows) = ground (arith, has_id-eq-count k rows)

pub has_id-limit_to :
    (k n : ℕ) (rows : List Row) → has_id k (limit_to n rows) ≡ true → has_id k rows ≡ true
has_id-limit_to k zero rows h = ground arith
has_id-limit_to k (suc n) [] h = h
has_id-limit_to k (suc n) (r ∷ rows) h = ground (arith, has_id-limit_to k n rows)

has_id-select :
    (k : ℕ) (p : Row → Bool) (rows : List Row)
    → has_id k rows ≡ false
    → has_id k (select p rows) ≡ false
has_id-select k p [] h = h
has_id-select k p (r ∷ rows) h = ground (arith, has_id-select k p rows)

ne_of_not-has_id :
    (k : ℕ) (rows : List Row) → has_id k rows ≡ false → All (λ r. (r.id == k) ≡ false) rows
ne_of_not-has_id k [] h = tt
ne_of_not-has_id k (r ∷ rows) h = (ground arith, ne_of_not-has_id k rows (ground arith))

-- A row of the table whose id is among the selected ones is itself selected.
pub selected_self :
    (p : Row → Bool) (rows : List Row)
    → DistinctIds rows
    → All (λ r. has_id r.id (select p rows) ≡ true → p r ≡ true) rows
selected_self p [] d = tt
selected_self p (r ∷ rows) d = (
  λ h. ground (arith, has_id-select r.id p rows),
  All-mono _ _ rows (λ x h e. ground (arith, h.1, h.0))
      (All-both _ _ rows (ne_of_not-has_id r.id rows d.0) (selected_self p rows d.1)),
)
