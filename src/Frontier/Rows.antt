-- ===== src/Frontier/Rows.antt =====
-- The rows of the tables `url_frontier` and `failed_articles` (pipelines/mapear-rss/scripts/
-- init_db.sql), and SQL's selecting, updating and ordering of rows. Times are whole seconds.
use mapear_rn.Base.{
  ℕ, zero, suc, ◌+◌, String, ◌≡◌, Bool, true, false, ◌&&◌, ◌||◌, Option, none, some, List, [], ◌∷◌,
  ltb, ◌==◌, if◌then◌else◌, count,
}

pub data Status : Type 0 where
  pending in_progress completed failed : Status

abbrev pub status_eq : Status → Status → Bool
status_eq pending pending = true
status_eq in_progress in_progress = true
status_eq completed completed = true
status_eq failed failed = true
status_eq _ _ = false

pub record Row : Type 0 where
  pub id : ℕ
  pub url : String
  pub source_feed : String
  pub status : Status
  pub title : Option String
  pub published_at : Option ℕ
  pub discovered_at : ℕ
  pub last_attempt_at : Option ℕ
  pub attempt_count : ℕ
  pub content_hash : Option String
  pub recirculated_at : Option ℕ
  pub updated_at : ℕ

pub record FailedArticle : Type 0 where
  pub url : String
  pub source_feed : String
  pub error_type : String
  pub error_message : String
  pub stage : String
  pub retry_count : ℕ
  pub last_failure_at : ℕ

-- `UPDATE … SET … WHERE …`: the rows that meet the condition are changed in place.
abbrev pub update_where : (Row → Bool) → (Row → Row) → List Row → List Row
update_where p f [] = []
update_where p f (r ∷ rows) = (if p r then f r else r) ∷ update_where p f rows

-- `id IN (…)`
abbrev pub has_id : ℕ → List Row → Bool
has_id k [] = false
has_id k (r ∷ rows) = (r.id == k) || has_id k rows

-- `LIMIT n`
abbrev pub limit_to : ℕ → List Row → List Row
limit_to zero rows = []
limit_to (suc n) [] = []
limit_to (suc n) (r ∷ rows) = r ∷ limit_to n rows

-- A time that may be NULL is before another one; a comparison with NULL is not true.
abbrev pub older_than : Option ℕ → ℕ → ℕ → Bool
older_than none age now = false
older_than (some t) age now = ltb (t + age) now

-- `ORDER BY` of the database. Of rows that compare equal the order is not specified, so it is a
-- parameter: it returns the same rows, each as often as it was there.
pub record OrderBy : Type 0 where
  pub sort : (Row → Row → Bool) → List Row → List Row
  pub sort_count :
      (before : Row → Row → Bool) (p : Row → Bool) (rows : List Row)
      → count p (sort before rows) ≡ count p rows

-- `published_at DESC NULLS LAST`
abbrev pub newest_first : Row → Row → Bool
newest_first r s = before r.published_at s.published_at
  where
    before : Option ℕ → Option ℕ → Bool
    before none o = false
    before (some a) none = true
    before (some a) (some b) = ltb b a

-- `attempt_count ASC, updated_at ASC`
abbrev pub fewest_attempts : Row → Row → Bool
fewest_attempts r s =
    ltb r.attempt_count s.attempt_count
    || ((r.attempt_count == s.attempt_count) && ltb r.updated_at s.updated_at)

-- `updated_at ASC`
abbrev pub oldest_first : Row → Row → Bool
oldest_first r s = ltb r.updated_at s.updated_at
