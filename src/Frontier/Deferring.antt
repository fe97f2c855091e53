-- ===== src/Frontier/Deferring.antt =====
-- A URL that the cooldown deferred gets its attempt back.
use mapear_rn.Base.{
  ℕ, ◌-◌, String, ◌≡◌, refl, ◌∙◌, Bool, true, false, ◌&&◌, not, List, [], ◌∷◌, map, arith, str_eq,
  eq_iff, All, All-mono, All-both, Each, contains, select, sym, ap,
}
use mapear_rn.Frontier.Rows.{
  Row, OrderBy, has_id, update_where, pending, in_progress, status_eq, newest_first,
}
use mapear_rn.Frontier.{
  Frontier, has_url, pick, start_attempt, is_pending, get_pending, mark_deferred_batch,
}
use mapear_rn.Frontier.Picking.{DistinctIds}
use mapear_rn.Frontier.Picked.{chosen_meet}

-- The unique column: no URL stands twice.
abbrev pub DistinctUrls : List Row → Type 0
DistinctUrls [] = Unit
DistinctUrls (r ∷ rows) = (has_url r.url rows ≡ false) × DistinctUrls rows

abbrev defer : ℕ → Row → Row
defer now r = record r { status = pending; attempt_count = r.attempt_count - 1; updated_at = now }

abbrev is_deferred : List String → Row → Bool
is_deferred us r = contains r.url us && status_eq r.status in_progress

abbrev urls : List Row → List String
urls rows = map (λ (r : Row). r.url) rows

defer_step :
    (now : ℕ) (u : String) (us : List String) (rows : List Row)
    → update_where
        (is_deferred us)
        (defer now)
        (update_where (λ r. str_eq r.url u && status_eq r.status in_progress) (defer now) rows)
      ≡ update_where (is_deferred (u ∷ us)) (defer now) rows
defer_step now u us [] = refl
defer_step now u us (r ∷ rows) = ground (arith, defer_step now u us rows)

defer_none : (now : ℕ) (rows : List Row) → update_where (is_deferred []) (defer now) rows ≡ rows
defer_none now [] = refl
defer_none now (r ∷ rows) = ap (λ rs. r ∷ rs) (defer_none now rows)

-- The batch as one pass over the table.
rows-mark_deferred_batch :
    (now : ℕ) (us : List String) (f : Frontier)
    → (mark_deferred_batch now us f).rows ≡ update_where (is_deferred us) (defer now) f.rows
unfolding mark_deferred_batch
rows-mark_deferred_batch now [] f = sym (defer_none now f.rows)
rows-mark_deferred_batch now (u ∷ us) f =
    rows-mark_deferred_batch now us (record f {
      rows =
          update_where (λ r. str_eq r.url u && status_eq r.status in_progress) (defer now) f.rows;
    })
    ∙ defer_step now u us f.rows

not_contains :
    (u : String) (p : Row → Bool) (rows : List Row)
    → has_url u rows ≡ false
    → contains u (urls (select p rows)) ≡ false
not_contains u p [] h = refl
not_contains u p (r ∷ rows) h =
    ground (arith, eq_iff r.url u, eq_iff u r.url, not_contains u p rows)

ne_of_not-has_url :
    (u : String) (rows : List Row) → has_url u rows ≡ false → All (λ r. str_eq r.url u ≡ false) rows
ne_of_not-has_url u [] h = tt
ne_of_not-has_url u (r ∷ rows) h = (ground arith, ne_of_not-has_url u rows (ground arith))

contains-select :
    (p : Row → Bool) (rows : List Row)
    → DistinctUrls rows
    → All (λ r. contains r.url (urls (select p rows)) ≡ p r) rows
contains-select p [] d = tt
contains-select p (r ∷ rows) d = (
  ground (arith, eq_iff r.url r.url, not_contains r.url p rows d.0),
  All-mono _ _ rows (λ x h. ground (arith, h.0, h.1))
      (All-both _ _ rows (ne_of_not-has_url r.url rows d.0) (contains-select p rows d.1)),
)

urls-start : (now : ℕ) (rows : List Row) → urls (map (start_attempt now) rows) ≡ urls rows
urls-start now [] = refl
urls-start now (r ∷ rows) = ap (λ us. r.url ∷ us) (urls-start now rows)

abbrev pub Restored : Row → Row → Type 0
Restored r t = (t.status ≡ r.status) × (t.attempt_count ≡ r.attempt_count)

restored :
    (now later : ℕ) (us : List String) (p cond : Row → Bool) (rows : List Row)
    → All (λ r. contains r.url us ≡ p r) rows
    → All (λ r. p r ≡ true → (is_pending r && cond r) ≡ true) rows
    → Each Restored rows
        (update_where (is_deferred us) (defer later) (update_where p (start_attempt now) rows))
restored now later us p cond [] h k = tt
restored now later us p cond (r ∷ rows) h k =
    (ground (arith, h.0, k.0), restored now later us p cond rows h.1 k.1)

-- Deferring the URLs that `get_pending` has just returned gives every row of the table, claimed
-- or not, the status and the attempt count that it had before; ids and URLs are distinct.
pub defer-get_pending :
    (db : OrderBy) (locked : Row → Bool) (now later limit : ℕ) (f : Frontier)
    → DistinctIds f.rows
    → DistinctUrls f.rows
    → let (claimed, f') = get_pending db locked now limit f in
      Each Restored f.rows (mark_deferred_batch later (urls claimed) f').rows
unfolding get_pending
defer-get_pending db locked now later limit f d e =
    let p = λ (r : Row). has_id r.id (pick db locked is_pending newest_first limit f.rows) in
    let rows' = update_where p (start_attempt now) f.rows in
    rw (rows-mark_deferred_batch, urls-start)
      (restored now later (urls (select p f.rows)) p (λ r. not (locked r)) f.rows
        (contains-select p f.rows e)
        (chosen_meet db (λ r. is_pending r && not (locked r)) newest_first limit f.rows d))
