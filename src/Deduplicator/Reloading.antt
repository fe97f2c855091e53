-- ===== src/Deduplicator/Reloading.antt =====
-- The deduplicator and the frontier: what an earlier run completed is not kept again. And the
-- canonicaliser: tracking parameters do not tell URLs apart.
use mapear_rn.Base.{
  ℕ, String, ◌≡◌, true, ◌⊎◌, inl, inr, some, List, [], ◌∷◌, ◌++◌, arith, str_eq, eq_of_str_eq,
  if◌then◌else◌, contains, select, Bool-cases, Option-cases,
}
use mapear_rn.Frontier.{Frontier, has_url, mark_completed, mark_completed_batch}
use mapear_rn.Frontier.Rows.{Row, completed, update_where}
use mapear_rn.Deduplicator.{
  UrlLib, ParseResult, tracking_params, is_clean, canonical_parts, canonicalize_url, RawArticle,
  Deduplicator, hashes_of, load_existing_hashes, canonical_urls_of, load_existing_canonical_urls,
  deduplicate,
}
use mapear_rn.Deduplicator.Batches.{contains-add, contains-add_self, deduplicate_known-All}

abbrev complete : ℕ → String → String → List Row → List Row
complete now u h rows =
    update_where (λ r. str_eq r.url u)
      (λ r. record r { status = completed; content_hash = some h; updated_at = now }) rows

-- A row of the table after the update
abbrev complete_row : ℕ → String → String → Row → Row
complete_row now u h r =
    if str_eq r.url u
    then record r { status = completed; content_hash = some h; updated_at = now }
    else r

complete_row_hit :
    (now : ℕ) (u h : String) (r : Row)
    → str_eq r.url u ≡ true
    → ((complete_row now u h r).status ≡ completed)
      × ((complete_row now u h r).content_hash ≡ some h)
      × ((complete_row now u h r).url ≡ u)
complete_row_hit now u h r e =
    (ground (arith, e), ground (arith, e), ground (arith, e, eq_of_str_eq r.url u e))

hashes_of-hit :
    (r : Row) (rows : List Row) (s : List String) (h : String)
    → r.status ≡ completed
    → r.content_hash ≡ some h
    → contains h (hashes_of (r ∷ rows) s) ≡ true
unfolding hashes_of
hashes_of-hit r rows s h c e = ground (arith, c, e, contains-add_self h (hashes_of rows s))

hashes_of-later :
    (r : Row) (rows : List Row) (s : List String) (k : String)
    → contains k (hashes_of rows s) ≡ true
    → contains k (hashes_of (r ∷ rows) s) ≡ true
unfolding hashes_of
hashes_of-later r rows s k e = elim (Option-cases r.content_hash) [
  | inl n ↦ ground (arith, n, e)
  | inr (h, n) ↦ ground (arith, n, e, contains-add h k (hashes_of rows s))
]

hashes_of-complete :
    (now : ℕ) (u h : String) (rows : List Row) (s : List String)
    → has_url u rows ≡ true
    → contains h (hashes_of (complete now u h rows) s) ≡ true
hashes_of-complete now u h [] s e = absurd (ground arith)
hashes_of-complete now u h (r ∷ rows) s e = elim (Bool-cases (str_eq r.url u)) [
  | inl x ↦
      let (c, k, _) = complete_row_hit now u h r x in
      hashes_of-hit (complete_row now u h r) (complete now u h rows) s h c k
  | inr n ↦
      hashes_of-later (complete_row now u h r) (complete now u h rows) s h
        (hashes_of-complete now u h rows s (ground (arith, n, e)))
]

canonical_urls_of-hit :
    (canonical : String → String) (r : Row) (rows : List Row) (s : List String) (u : String)
    → r.status ≡ completed
    → r.url ≡ u
    → contains (canonical u) (canonical_urls_of canonical (r ∷ rows) s) ≡ true
unfolding canonical_urls_of
canonical_urls_of-hit canonical r rows s u c e =
    ground (arith, c, e, contains-add_self (canonical u) (canonical_urls_of canonical rows s))

canonical_urls_of-later :
    (canonical : String → String) (r : Row) (rows : List Row) (s : List String) (k : String)
    → contains k (canonical_urls_of canonical rows s) ≡ true
    → contains k (canonical_urls_of canonical (r ∷ rows) s) ≡ true
unfolding canonical_urls_of
canonical_urls_of-later canonical r rows s k e =
    ground (arith, e, contains-add (canonical r.url) k (canonical_urls_of canonical rows s))

canonical_urls_of-complete :
    (canonical : String → String) (now : ℕ) (u h : String) (rows : List Row) (s : List String)
    → has_url u rows ≡ true
    → contains (canonical u) (canonical_urls_of canonical (complete now u h rows) s) ≡ true
canonical_urls_of-complete canonical now u h [] s e = absurd (ground arith)
canonical_urls_of-complete canonical now u h (r ∷ rows) s e = elim (Bool-cases (str_eq r.url u)) [
  | inl x ↦
      let (c, _, k) = complete_row_hit now u h r x in
      canonical_urls_of-hit canonical (complete_row now u h r) (complete now u h rows) s u c k
  | inr n ↦
      canonical_urls_of-later canonical (complete_row now u h r) (complete now u h rows) s
        (canonical u) (canonical_urls_of-complete canonical now u h rows s (ground (arith, n, e)))
]

-- An article whose text or canonical URL is that of a row that the frontier has marked completed
-- is not kept by a deduplicator that has loaded the frontier, whatever it knew before.
pub deduplicate-completed :
    (canonical : String → String) (now : ℕ) (u h : String) (f : Frontier) (d : Deduplicator)
    (a : RawArticle)
    → has_url u f.rows ≡ true
    → (a.content_hash ≡ h) ⊎ (canonical a.url ≡ canonical u)
    → let f' = mark_completed now u h f in
      let d' =
        load_existing_canonical_urls canonical (some f') (load_existing_hashes (some f') d) in
      deduplicate canonical (a ∷ []) d' ≡ ([], d')
unfolding mark_completed mark_completed_batch load_existing_canonical_urls load_existing_hashes
deduplicate-completed canonical now u h f d a e same =
    let f' = mark_completed now u h f in
    let d' = load_existing_canonical_urls canonical (some f') (load_existing_hashes (some f') d) in
    deduplicate_known-All canonical (a ∷ []) d' (
      elim same [
        | inl i ↦ ground (arith, i, hashes_of-complete now u h f.rows d.known_hashes e)
        | inr i ↦
            ground (
              arith,
              i,
              canonical_urls_of-complete canonical now u h f.rows d.known_canonical_urls e,
            )
      ],
      tt,
    )

select-tracking :
    (lib : UrlLib) (k : String) (vs : List String) (qs rest : List (String × List String))
    → contains (lib.lower k) tracking_params ≡ true
    → select (is_clean lib) (qs ++ (k, vs) ∷ rest) ≡ select (is_clean lib) (qs ++ rest)
select-tracking lib k vs [] rest h = ground (arith, h)
select-tracking lib k vs (q ∷ qs) rest h = ground (arith, select-tracking lib k vs qs rest h)

-- A query parameter that is a tracking parameter in any case of letters makes no difference: two
-- URLs that parse to the same scheme, host and path, and to queries that differ by that parameter
-- alone, have one canonical form.
canonicalize_url-tracking :
    (lib : UrlLib) (u v : String) (p : ParseResult) (query : String) (k : String) (vs : List String)
    (qs rest : List (String × List String))
    → lib.urlparse_stripped u ≡ some p
    → lib.urlparse_stripped v ≡ some (record p { query = query })
    → lib.parse_qs p.query ≡ qs ++ (k, vs) ∷ rest
    → lib.parse_qs query ≡ qs ++ rest
    → contains (lib.lower k) tracking_params ≡ true
    → canonicalize_url lib u ≡ canonicalize_url lib v
unfolding canonicalize_url canonical_parts
canonicalize_url-tracking lib u v p query k vs qs rest hu hv hp hq h =
    ground (arith, hu, hv, hp, hq, select-tracking lib k vs qs rest h)
