-- ===== src/Frontier/Adding.antt =====
-- `add_urls`: new URLs are appended once, and a URL that is known is left as it is.
use mapear_rn.Base.{
  ℕ, ◌+◌, ◌<◌, String, ◌≡◌, refl, true, false, ◌||◌, List, [], ◌∷◌, ◌++◌, arith, str_eq, eq_iff,
  All, All-append, length, length-append, Bool-cases, inl, inr, All-mono,
}
use mapear_rn.Frontier.Rows.{Row, has_id}
use mapear_rn.Frontier.{Frontier, DiscoveredUrl, has_url, new_row, insert_url, add_urls}
use mapear_rn.Frontier.Picking.{DistinctIds}
use mapear_rn.Frontier.Deferring.{DistinctUrls}

-- What the table's constraints give: a primary key from the serial, and a unique column.
pub record IsWellFormed (f : Frontier) : Type 0 where
  pub ids : DistinctIds f.rows
  pub urls : DistinctUrls f.rows
  pub serial : All (λ r. r.id < f.next_id) f.rows

has_url-append :
    (u : String) (xs ys : List Row) → has_url u (xs ++ ys) ≡ (has_url u xs || has_url u ys)
has_url-append u [] ys = refl
has_url-append u (x ∷ xs) ys = ground (arith, has_url-append u xs ys)

has_id-append : (k : ℕ) (xs ys : List Row) → has_id k (xs ++ ys) ≡ (has_id k xs || has_id k ys)
has_id-append k [] ys = refl
has_id-append k (x ∷ xs) ys = ground (arith, has_id-append k xs ys)

DistinctUrls-snoc :
    (rows : List Row) (r : Row)
    → DistinctUrls rows
    → has_url r.url rows ≡ false
    → DistinctUrls (rows ++ r ∷ [])
DistinctUrls-snoc [] r d h = (refl, tt)
DistinctUrls-snoc (x ∷ rows) r d h = ground (
  arith,
  has_url-append x.url rows (r ∷ []),
  eq_iff x.url r.url,
  eq_iff r.url x.url,
  DistinctUrls-snoc rows r d.1,
)

DistinctIds-snoc :
    (rows : List Row) (r : Row)
    → DistinctIds rows
    → All (λ x. x.id < r.id) rows
    → DistinctIds (rows ++ r ∷ [])
DistinctIds-snoc [] r d h = (refl, tt)
DistinctIds-snoc (x ∷ rows) r d h =
    ground (arith, has_id-append x.id rows (r ∷ []), DistinctIds-snoc rows r d.1 h.1)

insert_url-IsWellFormed :
    (now : ℕ) (u : DiscoveredUrl) (f : Frontier)
    → IsWellFormed f
    → IsWellFormed (insert_url now u f).1
unfolding insert_url
insert_url-IsWellFormed now u f w = elim (Bool-cases (has_url u.url f.rows)) [
  | inl known ↦ rw known (record {
    ids = w.ids;
    urls = w.urls;
    serial = All-mono _ _ f.rows (λ r h. omega arith) w.serial;
  })
  | inr new ↦ rw new (record {
    ids = DistinctIds-snoc f.rows (new_row now f.next_id u) w.ids w.serial;
    urls = DistinctUrls-snoc f.rows (new_row now f.next_id u) w.urls new;
    serial =
        All-append _ f.rows (new_row now f.next_id u ∷ [])
          (All-mono _ _ f.rows (λ r h. omega arith) w.serial) (omega arith, tt);
  })
]

add_urls-IsWellFormed :
    (now : ℕ) (us : List DiscoveredUrl) (f : Frontier)
    → IsWellFormed f
    → IsWellFormed (add_urls now us f).1
unfolding add_urls
add_urls-IsWellFormed now [] f w = w
add_urls-IsWellFormed now (u ∷ us) f w =
    add_urls-IsWellFormed now us (insert_url now u f).1 (insert_url-IsWellFormed now u f w)

insert_url_lem :
    (now : ℕ) (u : DiscoveredUrl) (f : Frontier) (j : String)
    → (length (insert_url now u f).1.rows ≡ length f.rows + (insert_url now u f).0)
      × (has_url j (insert_url now u f).1.rows ≡ (has_url j f.rows || str_eq u.url j))
unfolding insert_url
insert_url_lem now u f j = ground (
  arith,
  length-append f.rows (new_row now f.next_id u ∷ []),
  has_url-append j f.rows (new_row now f.next_id u ∷ []),
  eq_iff u.url j,
)

add_urls-has_url :
    (now : ℕ) (us : List DiscoveredUrl) (f : Frontier) (j : String)
    → has_url j f.rows ≡ true
    → has_url j (add_urls now us f).1.rows ≡ true
unfolding add_urls
add_urls-has_url now [] f j h = h
add_urls-has_url now (u ∷ us) f j h =
    add_urls-has_url now us (insert_url now u f).1 j (ground (arith, insert_url_lem now u f j))

add_urls_known :
    (now : ℕ) (us : List DiscoveredUrl) (f : Frontier)
    → All (λ u. has_url u.url f.rows ≡ true) us
    → ((add_urls now us f).0 ≡ 0) × ((add_urls now us f).1.rows ≡ f.rows)
unfolding add_urls
add_urls_known now [] f h = (refl, refl)
add_urls_known now (u ∷ us) f h =
    unfold insert_url in
    rw h.0 (grind (arith, add_urls_known now us (record f { next_id = f.next_id + 1 }) h.1))

add_urls-All :
    (now : ℕ) (us : List DiscoveredUrl) (f : Frontier)
    → All (λ u. has_url u.url (add_urls now us f).1.rows ≡ true) us
unfolding add_urls
add_urls-All now [] f = tt
add_urls-All now (u ∷ us) f =
    let f' = (insert_url now u f).1 in
    (
      add_urls-has_url now us f' u.url
          (ground (arith, insert_url_lem now u f u.url, eq_iff u.url u.url)),
      add_urls-All now us f',
    )

add_urls-length :
    (now : ℕ) (us : List DiscoveredUrl) (f : Frontier)
    → length (add_urls now us f).1.rows ≡ length f.rows + (add_urls now us f).0
unfolding add_urls
add_urls-length now [] f = omega arith
add_urls-length now (u ∷ us) f =
    omega (arith, add_urls-length now us (insert_url now u f).1, insert_url_lem now u f "")

-- Adding URLs to a well-formed frontier keeps it well-formed and returns by how many rows the
-- table has grown; every added URL is then in the table, so that adding the same URLs again at
-- any time inserts none and leaves every row as it is.
pub add_urls_twice :
    (now later : ℕ) (us : List DiscoveredUrl) (f : Frontier)
    → IsWellFormed f
    → let (n, f') = add_urls now us f in
      IsWellFormed f'
      × (length f'.rows ≡ length f.rows + n)
      × All (λ u. has_url u.url f'.rows ≡ true) us
      × ((add_urls later us f').0 ≡ 0)
      × ((add_urls later us f').1.rows ≡ f'.rows)
add_urls_twice now later us f w =
    let f' = (add_urls now us f).1 in
    let again = add_urls_known later us f' (add_urls-All now us f) in
    (
      add_urls-IsWellFormed now us f w,
      add_urls-length now us f,
      add_urls-All now us f,
      again.0,
      again.1,
    )
