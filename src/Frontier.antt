-- ===== src/Frontier.antt =====
-- pipelines/mapear-rss/src/mapear_rss/discovery/url_frontier.py: the extraction queue. Each
-- method is one transaction, so it is a function on the tables; the clock's reading is an
-- argument. `locked` says which rows another transaction holds (FOR UPDATE SKIP LOCKED).
pub mod Rows
pub mod Picking
pub mod Picked
pub mod Claiming
pub mod Deferring
pub mod Adding
pub mod Ageing
pub mod DeadLetters
mod Tests
use mapear_rn.Base.{
  ℕ, zero, suc, ◌+◌, ◌-◌, ◌*◌, String, Bool, true, false, ◌&&◌, ◌||◌, not, Option, none, some, List,
  [], ◌∷◌, ◌++◌, map, ltb, leb, ◌==◌, str_eq, if◌then◌else◌, count, select,
}
use Rows.{
  Status, pending, in_progress, completed, failed, status_eq, Row, FailedArticle, update_where,
  has_id, limit_to, older_than, OrderBy, newest_first, fewest_attempts, oldest_first,
}

-- `models/base.py`'s `DiscoveredURL`, as far as the frontier reads it
pub record DiscoveredUrl : Type 0 where
  pub url : String
  pub source_feed : String
  pub title : Option String
  pub published_at : Option ℕ

pub record Frontier : Type 0 where
  pub rows : List Row
  pub next_id : ℕ
  pub failed_articles : List FailedArticle

abbrev new_row : ℕ → ℕ → DiscoveredUrl → Row
new_row now id u = record {
  id = id;
  url = u.url;
  source_feed = u.source_feed;
  status = pending;
  title = u.title;
  published_at = u.published_at;
  discovered_at = now;
  last_attempt_at = none;
  attempt_count = 0;
  content_hash = none;
  recirculated_at = none;
  updated_at = now;
}

abbrev pub has_url : String → List Row → Bool
has_url u [] = false
has_url u (r ∷ rows) = str_eq r.url u || has_url u rows

-- `INSERT … ON CONFLICT (url) DO NOTHING`, with its row count; the serial number is used up in
-- either case.
insert_url : ℕ → DiscoveredUrl → Frontier → ℕ × Frontier
insert_url now u f =
    if has_url u.url f.rows
    then (0, record f { next_id = f.next_id + 1 })
    else (1, record f { rows = f.rows ++ new_row now f.next_id u ∷ []; next_id = f.next_id + 1 })

unfoldable pub add_urls : ℕ → List DiscoveredUrl → Frontier → ℕ × Frontier
unfolding insert_url
add_urls now [] f = (0, f)
add_urls now (u ∷ us) f =
    let (n, f') = insert_url now u f in let (m, f'') = add_urls now us f' in (n + m, f'')

abbrev start_attempt : ℕ → Row → Row
start_attempt now r = record r {
  status = in_progress;
  last_attempt_at = some now;
  attempt_count = r.attempt_count + 1;
  updated_at = now;
}

-- The rows of the inner `SELECT … ORDER BY … LIMIT … FOR UPDATE SKIP LOCKED`.
abbrev pub pick :
    OrderBy → (Row → Bool) → (Row → Bool) → (Row → Row → Bool) → ℕ → List Row → List Row
pick db locked cond before limit rows =
    limit_to limit (db.sort before (select (λ r. cond r && not (locked r)) rows))

-- The `UPDATE … WHERE id IN (SELECT …) RETURNING …` of `get_pending` and `get_retryable`. The
-- order of the returned rows is not specified; here it is that of the table.
claim : ℕ → List Row → Frontier → List Row × Frontier
claim now picked f =
    let chosen = λ (r : Row). has_id r.id picked in
    (
      map (start_attempt now) (select chosen f.rows),
      record f { rows = update_where chosen (start_attempt now) f.rows },
    )

abbrev pub is_pending : Row → Bool
is_pending r = status_eq r.status pending

abbrev pub is_retryable : ℕ → Row → Bool
is_retryable max_retries r = status_eq r.status failed && ltb r.attempt_count max_retries

unfoldable pub get_pending : OrderBy → (Row → Bool) → ℕ → ℕ → Frontier → List Row × Frontier
unfolding claim
get_pending db locked now limit f =
    claim now (pick db locked is_pending newest_first limit f.rows) f

unfoldable pub get_retryable : OrderBy → (Row → Bool) → ℕ → ℕ → ℕ → Frontier → List Row × Frontier
unfolding claim
get_retryable db locked now max_retries limit f =
    claim now (pick db locked (is_retryable max_retries) fewest_attempts limit f.rows) f

-- One statement of the batch for each item, in order; an empty batch does nothing.
unfoldable pub mark_completed_batch : ℕ → List (String × String) → Frontier → Frontier
mark_completed_batch now [] f = f
mark_completed_batch now ((u, h) ∷ items) f = mark_completed_batch now items (record f {
  rows =
      update_where (λ r. str_eq r.url u)
        (λ r. record r { status = completed; content_hash = some h; updated_at = now }) f.rows;
})

unfoldable pub mark_completed : ℕ → String → String → Frontier → Frontier
mark_completed now u h f = mark_completed_batch now ((u, h) ∷ []) f

unfoldable pub mark_failed_batch : ℕ → List String → Frontier → Frontier
mark_failed_batch now [] f = f
mark_failed_batch now (u ∷ us) f = mark_failed_batch now us (record f {
  rows =
      update_where (λ r. str_eq r.url u) (λ r. record r { status = failed; updated_at = now })
        f.rows;
})

unfoldable pub mark_failed : ℕ → String → Frontier → Frontier
mark_failed now u f = mark_failed_batch now (u ∷ []) f

-- `GREATEST(attempt_count - 1, 0)` is the subtraction that stops at 0.
unfoldable pub mark_deferred_batch : ℕ → List String → Frontier → Frontier
mark_deferred_batch now [] f = f
mark_deferred_batch now (u ∷ us) f = mark_deferred_batch now us (record f {
  rows =
      update_where (λ r. str_eq r.url u && status_eq r.status in_progress)
        (λ r. record r { status = pending; attempt_count = r.attempt_count - 1; updated_at = now })
        f.rows;
})

abbrev pub is_stale : ℕ → ℕ → Row → Bool
is_stale now timeout_minutes r =
    status_eq r.status in_progress && older_than r.last_attempt_at (timeout_minutes * 60) now

unfoldable pub reset_stale_in_progress : ℕ → ℕ → Frontier → ℕ × Frontier
reset_stale_in_progress now timeout_minutes f = (
  count (is_stale now timeout_minutes) f.rows,
  record f {
    rows =
        update_where (is_stale now timeout_minutes)
          (λ r. record r { status = pending; updated_at = now }) f.rows;
  },
)

abbrev never_or_older : Option ℕ → ℕ → ℕ → Bool
never_or_older none age now = true
never_or_older (some t) age now = ltb (t + age) now

abbrev pub is_recyclable : ℕ → ℕ → Bool → Row → Bool
is_recyclable now ttl_hours include_failed r =
    (status_eq r.status completed || (include_failed && status_eq r.status failed))
    && ltb (r.updated_at + ttl_hours * 3600) now
    && never_or_older r.recirculated_at (ttl_hours * 3600) now

unfoldable pub recirculate_stale : OrderBy → ℕ → ℕ → ℕ → Bool → Frontier → ℕ × Frontier
recirculate_stale db now ttl_hours limit include_failed f =
    let picked =
      limit_to limit
        (db.sort oldest_first (select (is_recyclable now ttl_hours include_failed) f.rows)) in
    let chosen = λ (r : Row). has_id r.id picked in
    (
      count chosen f.rows,
      record f {
        rows =
            update_where chosen
              (λ r. record r { status = pending; recirculated_at = some now; updated_at = now })
              f.rows;
      },
    )

abbrev pub is_purged : ℕ → ℕ → Row → Bool
is_purged now ttl_days r =
    (status_eq r.status pending || status_eq r.status failed)
    && older_than r.published_at (ttl_days * 86400) now

unfoldable pub purge_old_pending : ℕ → ℕ → Frontier → ℕ × Frontier
purge_old_pending now ttl_days f = (
  count (is_purged now ttl_days) f.rows,
  record f { rows = select (λ r. not (is_purged now ttl_days r)) f.rows },
)

-- The dictionary of `GROUP BY status`: a status with no row has no entry.
unfoldable pub get_stats : Frontier → Status → Option ℕ
get_stats f s =
    let n = count (λ (r : Row). status_eq r.status s) f.rows in if n == 0 then none else some n
