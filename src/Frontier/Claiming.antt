-- ===== src/Frontier/Claiming.antt =====
-- `get_pending` and `get_retryable`: who is claimed, how many, and that none is claimed twice.
use mapear_rn.Base.{
  ℕ, suc, ◌+◌, ◌≤◌, min, ◌≡◌, ◌⊎◌, inl, inr, refl, sym, ap, ◌∙◌, Bool, true, false, ◌&&◌, not, List,
  [], ◌∷◌, map, arith, All, Each, count, select, length, subst,
}
use mapear_rn.Frontier.Rows.{
  Row, OrderBy, has_id, update_where, in_progress, status_eq, newest_first, fewest_attempts,
}
use mapear_rn.Frontier.{
  Frontier, pick, start_attempt, is_pending, is_retryable, get_pending, get_retryable,
}
use mapear_rn.Frontier.Picking.{DistinctIds}
use mapear_rn.Frontier.Picked.{chosen_meet, count-chosen, length-select}

-- A row stays as it is, or it met the condition and an attempt was started on it.
abbrev pub Claims : ℕ → (Row → Bool) → Row → Row → Type 0
Claims now cond r r' = (r' ≡ r) ⊎ ((cond r ≡ true) × (r' ≡ start_attempt now r))

update-Claims :
    (now : ℕ) (p cond : Row → Bool) (rows : List Row)
    → All (λ r. p r ≡ true → cond r ≡ true) rows
    → Each (Claims now cond) rows (update_where p (start_attempt now) rows)
update-Claims now p cond [] h = tt
update-Claims now p cond (r ∷ rows) h = (ground arith, update-Claims now p cond rows h.1)

length-map : (f : Row → Row) (rows : List Row) → length (map f rows) ≡ length rows
length-map f [] = refl
length-map f (r ∷ rows) = ap suc (length-map f rows)

abbrev pub in_flight : List Row → ℕ
in_flight rows = count (λ (r : Row). status_eq r.status in_progress) rows

update-in_flight :
    (now : ℕ) (p cond : Row → Bool) (rows : List Row)
    → All (λ r. p r ≡ true → cond r ≡ true) rows
    → ((r : Row) → cond r ≡ true → status_eq r.status in_progress ≡ false)
    → in_flight (update_where p (start_attempt now) rows) ≡ in_flight rows + count p rows
update-in_flight now p cond [] h idle = refl
update-in_flight now p cond (r ∷ rows) h idle =
    ground (arith, h.0, idle r, update-in_flight now p cond rows h.1 idle)

has_id-update :
    (k now : ℕ) (p : Row → Bool) (rows : List Row)
    → has_id k (update_where p (start_attempt now) rows) ≡ has_id k rows
has_id-update k now p [] = refl
has_id-update k now p (r ∷ rows) = ground (arith, has_id-update k now p rows)

DistinctIds-update :
    (now : ℕ) (p : Row → Bool) (rows : List Row)
    → DistinctIds rows
    → DistinctIds (update_where p (start_attempt now) rows)
DistinctIds-update now p [] d = tt
DistinctIds-update now p (r ∷ rows) d =
    ground (arith, has_id-update r.id now p rows, DistinctIds-update now p rows d.1)

module _ (db : OrderBy) (locked : Row → Bool) (now : ℕ) where
  -- `get_pending` returns as many URLs as are pending and not locked, up to the limit; it starts
  -- an attempt on rows that are pending and not locked and changes no other row; the number of
  -- rows in progress grows by the number returned.
  pub get_pending-Claims :
      (limit : ℕ) (f : Frontier)
      → DistinctIds f.rows
      → let (claimed, f') = get_pending db locked now limit f in
        let free = λ (r : Row). is_pending r && not (locked r) in
        (length claimed ≡ min limit (count free f.rows))
        × Each (Claims now free) f.rows f'.rows
        × (in_flight f'.rows ≡ in_flight f.rows + length claimed)
  unfolding get_pending
  get_pending-Claims limit f d =
      let free = λ (r : Row). is_pending r && not (locked r) in
      let p = λ (r : Row). has_id r.id (pick db locked is_pending newest_first limit f.rows) in
      let meet = chosen_meet db free newest_first limit f.rows d in
      let size : length (map (start_attempt now) (select p f.rows)) ≡ count p f.rows =
        length-map (start_attempt now) (select p f.rows) ∙ length-select p f.rows in
      (
        size ∙ count-chosen db free newest_first limit f.rows d,
        update-Claims now p free f.rows meet,
        update-in_flight now p free f.rows meet (λ r h. ground arith)
            ∙ ap (λ n. in_flight f.rows + n) (sym size),
      )

  -- The same of `get_retryable`: it claims failed rows with fewer attempts than the maximum,
  -- whatever the time of their last attempt.
  get_retryable-Claims :
      (max_retries limit : ℕ) (f : Frontier)
      → DistinctIds f.rows
      → let (claimed, f') = get_retryable db locked now max_retries limit f in
        let free = λ (r : Row). is_retryable max_retries r && not (locked r) in
        (length claimed ≡ min limit (count free f.rows))
        × Each (Claims now free) f.rows f'.rows
        × (in_flight f'.rows ≡ in_flight f.rows + length claimed)
  unfolding get_retryable
  get_retryable-Claims max_retries limit f d =
      let free = λ (r : Row). is_retryable max_retries r && not (locked r) in
      let p = λ (r : Row).
        has_id r.id (pick db locked (is_retryable max_retries) fewest_attempts limit f.rows) in
      let meet = chosen_meet db free fewest_attempts limit f.rows d in
      let size : length (map (start_attempt now) (select p f.rows)) ≡ count p f.rows =
        length-map (start_attempt now) (select p f.rows) ∙ length-select p f.rows in
      (
        size ∙ count-chosen db free fewest_attempts limit f.rows d,
        update-Claims now p free f.rows meet,
        update-in_flight now p free f.rows meet (λ r h. ground arith)
            ∙ ap (λ n. in_flight f.rows + n) (sym size),
      )

  DistinctIds-get_pending :
      (limit : ℕ) (f : Frontier)
      → DistinctIds f.rows
      → DistinctIds (get_pending db locked now limit f).1.rows
  unfolding get_pending
  DistinctIds-get_pending limit f d = DistinctIds-update now _ f.rows d

Each-trans :
    (R S T : Row → Row → Type 0)
    → ((r s t : Row) → R r s → S s t → T r t)
    → (xs ys zs : List Row) → Each R xs ys
    → Each S ys zs
    → Each T xs zs
Each-trans R S T f [] [] [] h k = tt
Each-trans R S T f [] [] (z ∷ zs) h k = k
Each-trans R S T f [] (y ∷ ys) zs h k = absurd h
Each-trans R S T f (x ∷ xs) [] zs h k = absurd h
Each-trans R S T f (x ∷ xs) (y ∷ ys) [] h k = absurd k
Each-trans R S T f (x ∷ xs) (y ∷ ys) (z ∷ zs) h k =
    (f x y z h.0 k.0, Each-trans R S T f xs ys zs h.1 k.1)

claimed_once :
    (locked₁ locked₂ : Row → Bool) (now later : ℕ) (r s t : Row)
    → Claims now (λ r. is_pending r && not (locked₁ r)) r s
    → Claims later (λ r. is_pending r && not (locked₂ r)) s t
    → t.attempt_count ≤ r.attempt_count + 1
claimed_once locked₁ locked₂ now later r s t (inl a) (inl b) = ground arith
claimed_once locked₁ locked₂ now later r s t (inl a) (inr b) = ground arith
claimed_once locked₁ locked₂ now later r s t (inr a) (inl b) = ground arith
claimed_once locked₁ locked₂ now later r s t (inr a) (inr b) =
    let still : is_pending (start_attempt now r) && not (locked₂ (start_attempt now r)) ≡ true =
      subst (λ x. is_pending x && not (locked₂ x) ≡ true) a.1 b.0 in
    absurd (ground arith)

-- Two runs of `get_pending` with no other operation between them, whatever rows are locked, start
-- at most one attempt on each URL.
pub get_pending_twice :
    (db : OrderBy) (locked₁ locked₂ : Row → Bool) (now later limit₁ limit₂ : ℕ) (f : Frontier)
    → DistinctIds f.rows
    → let f' = (get_pending db locked₁ now limit₁ f).1 in
      let f'' = (get_pending db locked₂ later limit₂ f').1 in
      Each (λ r t. t.attempt_count ≤ r.attempt_count + 1) f.rows f''.rows
get_pending_twice db locked₁ locked₂ now later limit₁ limit₂ f d =
    let f' = (get_pending db locked₁ now limit₁ f).1 in
    Each-trans _ _ _ (claimed_once locked₁ locked₂ now later) f.rows f'.rows _
      (get_pending-Claims db locked₁ now limit₁ f d).1
      (get_pending-Claims db locked₂ later limit₂ f'
        (DistinctIds-get_pending db locked₁ now limit₁ f d)).1
