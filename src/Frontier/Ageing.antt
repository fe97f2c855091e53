-- ===== src/Frontier/Ageing.antt =====
-- Stale, aged and purged rows.
use mapear_rn.Base.{
  ℕ, ◌+◌, ◌*◌, ◌≤◌, min, ◌≡◌, ◌⊎◌, refl, Bool, true, false, ◌||◌, not, some, List, [], ◌∷◌, arith,
  get_or, All, Each, count, select, length,
}
use mapear_rn.Frontier.Rows.{
  Row, OrderBy, update_where, pending, in_progress, completed, failed, status_eq, oldest_first,
}
use mapear_rn.Frontier.{
  Frontier, is_stale, reset_stale_in_progress, is_recyclable, recirculate_stale, is_purged,
  purge_old_pending, get_stats,
}
use mapear_rn.Frontier.Picking.{DistinctIds}
use mapear_rn.Frontier.Picked.{chosen_meet, count-chosen}

-- A row stays as it is, or it met the condition and was changed so.
abbrev pub Changed : (Row → Bool) → (Row → Row) → Row → Row → Type 0
Changed cond f r r' = (r' ≡ r) ⊎ ((cond r ≡ true) × (r' ≡ f r))

update-Changed :
    (p cond : Row → Bool) (f : Row → Row) (rows : List Row)
    → All (λ r. p r ≡ true → cond r ≡ true) rows
    → Each (Changed cond f) rows (update_where p f rows)
update-Changed p cond f [] h = tt
update-Changed p cond f (r ∷ rows) h = (ground arith, update-Changed p cond f rows h.1)

abbrev pub recirculated : ℕ → Row → Row
recirculated now r = record r { status = pending; recirculated_at = some now; updated_at = now }

update_guarded :
    (p cond : Row → Bool) (now age : ℕ) (rows : List Row)
    → All (λ r. p r ≡ true → cond r ≡ true) rows
    → ((r : Row) (t : ℕ) → r.recirculated_at ≡ some t → now ≤ t + age → cond r ≡ false)
    → Each
        (λ r r'. (t : ℕ) → r.recirculated_at ≡ some t → now ≤ t + age → r' ≡ r)
        rows
        (update_where p (recirculated now) rows)
update_guarded p cond now age [] h g = tt
update_guarded p cond now age (r ∷ rows) h g =
    (λ t e l. ground (arith, h.0, g r t e l), update_guarded p cond now age rows h.1 g)

recyclable_guard :
    (now ttl : ℕ) (b : Bool) (r : Row) (t : ℕ)
    → r.recirculated_at ≡ some t
    → now ≤ t + ttl * 3600
    → is_recyclable now ttl b r ≡ false
recyclable_guard now ttl b r t e l = ground arith

-- `recirculate_stale` returns the number of recyclable rows, up to the limit; it sends recyclable
-- rows back to pending, stamped with its time, and changes no other row; and a row that was
-- recirculated at most the time to live ago is left as it is.
recirculate_stale_lem :
    (db : OrderBy) (now ttl limit : ℕ) (include_failed : Bool) (f : Frontier)
    → DistinctIds f.rows
    → let (n, f') = recirculate_stale db now ttl limit include_failed f in
      (n ≡ min limit (count (is_recyclable now ttl include_failed) f.rows))
      × Each (Changed (is_recyclable now ttl include_failed) (recirculated now)) f.rows f'.rows
      × Each
          (λ r r'. (t : ℕ) → r.recirculated_at ≡ some t → now ≤ t + ttl * 3600 → r' ≡ r)
          f.rows
          f'.rows
unfolding recirculate_stale
recirculate_stale_lem db now ttl limit b f d =
    let meet = chosen_meet db (is_recyclable now ttl b) oldest_first limit f.rows d in
    (
      count-chosen db (is_recyclable now ttl b) oldest_first limit f.rows d,
      update-Changed _ (is_recyclable now ttl b) (recirculated now) f.rows meet,
      update_guarded _ (is_recyclable now ttl b) now (ttl * 3600) f.rows meet
          (recyclable_guard now ttl b),
    )

self_meets : (p : Row → Bool) (rows : List Row) → All (λ r. p r ≡ true → p r ≡ true) rows
self_meets p [] = tt
self_meets p (r ∷ rows) = (λ h. h, self_meets p rows)

abbrev pub woken : ℕ → Row → Row
woken now r = record r { status = pending; updated_at = now }

none_stale :
    (now minutes : ℕ) (rows : List Row)
    → count (is_stale now minutes) (update_where (is_stale now minutes) (woken now) rows) ≡ 0
none_stale now minutes [] = refl
none_stale now minutes (r ∷ rows) = ground (arith, none_stale now minutes rows)

-- `reset_stale_in_progress` sends back to pending exactly rows in progress whose last attempt is
-- older than the timeout, changes no other row, and leaves none of them: a second run at the same
-- time resets nothing.
reset_stale_lem :
    (now minutes : ℕ) (f : Frontier)
    → let f' = (reset_stale_in_progress now minutes f).1 in
      Each (Changed (is_stale now minutes) (woken now)) f.rows f'.rows
      × ((reset_stale_in_progress now minutes f').0 ≡ 0)
unfolding reset_stale_in_progress
reset_stale_lem now minutes f = (
  update-Changed (is_stale now minutes) _ (woken now) f.rows (self_meets _ f.rows),
  none_stale now minutes f.rows,
)

purge_counts :
    (now days : ℕ) (p : Row → Bool) (rows : List Row)
    → ((r : Row) → is_purged now days r ≡ true → p r ≡ false)
    → (count (is_purged now days) rows + length (select (λ r. not (is_purged now days r)) rows)
        ≡ length rows)
      × (count (is_purged now days) (select (λ r. not (is_purged now days r)) rows) ≡ 0)
      × (count p (select (λ r. not (is_purged now days r)) rows) ≡ count p rows)
purge_counts now days p [] g = (refl, refl, refl)
purge_counts now days p (r ∷ rows) g = ground (arith, g r, purge_counts now days p rows g)

abbrev pub is_kept : Row → Bool
is_kept r = status_eq r.status completed || status_eq r.status in_progress

-- `purge_old_pending` returns how many rows it deletes, leaves none that it would delete at the
-- same time, and deletes no row that is completed or in progress.
purge_lem :
    (now days : ℕ) (f : Frontier)
    → let (n, f') = purge_old_pending now days f in
      (n + length f'.rows ≡ length f.rows)
      × ((purge_old_pending now days f').0 ≡ 0)
      × (count is_kept f'.rows ≡ count is_kept f.rows)
unfolding purge_old_pending
purge_lem now days f = purge_counts now days is_kept f.rows (λ r h. ground arith)

stats_total :
    (rows : List Row)
    → count (λ (r : Row). status_eq r.status pending) rows
        + count (λ (r : Row). status_eq r.status in_progress) rows
        + count (λ (r : Row). status_eq r.status completed) rows
        + count (λ (r : Row). status_eq r.status failed) rows
      ≡ length rows
stats_total [] = refl
stats_total (r ∷ rows) = ground (arith, stats_total rows)

-- The counts that `get_stats` reports, with no entry read as zero, add up to the rows of the table.
get_stats_total :
    (f : Frontier)
    → get_or (get_stats f pending) 0
        + get_or (get_stats f in_progress) 0
        + get_or (get_stats f completed) 0
        + get_or (get_stats f failed) 0
      ≡ length f.rows
unfolding get_stats
get_stats_total f = ground (arith, stats_total f.rows)
