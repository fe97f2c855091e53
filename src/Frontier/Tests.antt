-- ===== src/Frontier/Tests.antt =====
-- The theorems of the frontier on a small table, with an insertion sort for the database's order.
use mapear_rn.Base.{
  ℕ, ◌+◌, ◌≤◌, String, ◌≡◌, ◌∙◌, refl, Bool, true, false, ◌&&◌, not, Option, none, some, List, [],
  ◌∷◌, map, arith, if◌then◌else◌, All, Each, count, length,
}
use mapear_rn.Frontier.Rows.{Row, OrderBy, Status, pending, completed, failed}
use mapear_rn.Frontier.{
  Frontier, DiscoveredUrl, has_url, add_urls, get_pending, is_pending, mark_deferred_batch,
}
use mapear_rn.Frontier.Picking.{DistinctIds}
use mapear_rn.Frontier.Claiming.{Claims, in_flight, get_pending-Claims, get_pending_twice}
use mapear_rn.Frontier.Deferring.{DistinctUrls, Restored, defer-get_pending}
use mapear_rn.Frontier.Adding.{IsWellFormed, add_urls_twice}

place : (Row → Row → Bool) → Row → List Row → List Row
place before r [] = r ∷ []
place before r (x ∷ xs) = if before r x then r ∷ x ∷ xs else x ∷ place before r xs

count-place :
    (before : Row → Row → Bool) (p : Row → Bool) (r : Row) (xs : List Row)
    → count p (place before r xs) ≡ count p (r ∷ xs)
unfolding place
count-place before p r [] = refl
count-place before p r (x ∷ xs) = ground (arith, count-place before p r xs)

insertion_sort : (Row → Row → Bool) → List Row → List Row
unfolding place
insertion_sort before [] = []
insertion_sort before (x ∷ xs) = place before x (insertion_sort before xs)

count-insertion_sort :
    (before : Row → Row → Bool) (p : Row → Bool) (xs : List Row)
    → count p (insertion_sort before xs) ≡ count p xs
unfolding insertion_sort
count-insertion_sort before p [] = refl
count-insertion_sort before p (x ∷ xs) =
    count-place before p x (insertion_sort before xs)
    ∙ omega (arith, count-insertion_sort before p xs)

abbrev db : OrderBy
unfolding insertion_sort
db = record { sort = insertion_sort; sort_count = count-insertion_sort }

abbrev row : ℕ → String → Status → Option ℕ → ℕ → Row
row id u s published attempts = record {
  id = id;
  url = u;
  source_feed = "feed";
  status = s;
  title = none;
  published_at = published;
  discovered_at = 0;
  last_attempt_at = none;
  attempt_count = attempts;
  content_hash = none;
  recirculated_at = none;
  updated_at = 0;
}

abbrev table : Frontier
table = record {
  rows =
      row 0 "a" pending (some 5) 0
      ∷ row 1 "b" failed (some 9) 2
      ∷ row 2 "c" pending (some 8) 1
      ∷ row 3 "d" pending none 0
      ∷ row 4 "e" completed (some 1) 1
      ∷ [];
  next_id = 5;
  failed_articles = [];
}

abbrev unlocked : Row → Bool
unlocked r = false

-- The newest publication comes first, and the row with none comes last.
get_pending-newest : map (λ (r : Row). r.url) (get_pending db unlocked 100 1 table).0 ≡ "c" ∷ []
unfolding get_pending insertion_sort
get_pending-newest = refl

table-DistinctIds : DistinctIds table.rows
table-DistinctIds = (refl, (refl, (refl, (refl, (refl, tt)))))

table-DistinctUrls : DistinctUrls table.rows
table-DistinctUrls = (refl, (refl, (refl, (refl, (refl, tt)))))

get_pending-Claims_example :
    let (claimed, f') = get_pending db unlocked 100 2 table in
    (length claimed ≡ 2)
    × Each (Claims 100 (λ r. is_pending r && not (unlocked r))) table.rows f'.rows
    × (in_flight f'.rows ≡ 0 + length claimed)
get_pending-Claims_example = get_pending-Claims db unlocked 100 2 table table-DistinctIds

get_pending_twice_example :
    let f' = (get_pending db unlocked 100 1 table).1 in
    Each
      (λ r t. t.attempt_count ≤ r.attempt_count + 1)
      table.rows
      (get_pending db unlocked 200 9 f').1.rows
get_pending_twice_example =
    get_pending_twice db unlocked unlocked 100 200 1 9 table table-DistinctIds

defer-get_pending_example :
    let (claimed, f') = get_pending db unlocked 100 2 table in
    Each Restored table.rows (mark_deferred_batch 200 (map (λ (r : Row). r.url) claimed) f').rows
defer-get_pending_example =
    defer-get_pending db unlocked 100 200 2 table table-DistinctIds table-DistinctUrls

abbrev found : List DiscoveredUrl
found =
    record { url = "a"; source_feed = "feed"; title = none; published_at = none }
    ∷ record { url = "z"; source_feed = "feed"; title = some "Z"; published_at = some 7 }
    ∷ []

table-IsWellFormed : IsWellFormed table
table-IsWellFormed = record {
  ids = table-DistinctIds;
  urls = table-DistinctUrls;
  serial = omega arith;
}

add_urls_twice_example :
    let (n, f') = add_urls 10 found table in
    IsWellFormed f'
    × (length f'.rows ≡ 5 + n)
    × All (λ u. has_url u.url f'.rows ≡ true) found
    × ((add_urls 20 found f').0 ≡ 0)
    × ((add_urls 20 found f').1.rows ≡ f'.rows)
add_urls_twice_example = add_urls_twice 10 20 found table table-IsWellFormed
