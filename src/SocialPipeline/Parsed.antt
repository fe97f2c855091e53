-- ===== src/SocialPipeline/Parsed.antt =====
-- What becomes of the items of a run.
use text.Mathlib.Text.{starts_with}
use mapear_rn.Base.{
  ℕ, ◌+◌, String, Bool, true, false, ◌≡◌, refl, ◌&&◌, not, List, [], ◌∷◌, length, map, All, arith,
  contains, IsDistinct, leb, str_eq, eq_refl, eq_of_str_eq, ap, if◌then◌else◌, Bool-cases, inl, inr,
}
use mapear_rn.SocialPipeline.{
  RawItem, SocialPost, ParsedItem, post, schema_drift, crashed, DlqEntry, Run, dlq_entry,
  drift_reason, sort_out, parse_social_posts, DlqRecord, dlq_entries_to_records, dedup_from,
  dedup_intra_batch,
}

abbrev pub error_types : List String
error_types = "non_post_item" ∷ "page_unavailable" ∷ "schema_drift" ∷ "parse_error" ∷ []

-- A record that names its run and one of the four kinds of failure
abbrev pub IsOfRun : Run → DlqRecord → Type 0
IsOfRun run r =
    (r.platform ≡ run.platform)
    × (r.actor_id ≡ run.actor_id)
    × (r.actor_run_id ≡ run.actor_run_id)
    × (r.ingestion_run_id ≡ run.ingestion_run_id)
    × (contains r.error_type error_types ≡ true)

-- The posts and the dead letters are together as many as the items.
abbrev IsSorted : Run → ℕ → List SocialPost × List DlqEntry → Type 0
IsSorted run n (posts, dlq) =
    let records = dlq_entries_to_records dlq run.actor_id in
    (length posts + length records ≡ n) × All (IsOfRun run) records

known-either :
    (b : Bool) (x y : String)
    → contains x error_types ≡ true
    → contains y error_types ≡ true
    → contains (if b then x else y) error_types ≡ true
known-either true x y h k = h
known-either false x y h k = k

drift_reason-IsKnown : (err : String) → contains (drift_reason err) error_types ≡ true
drift_reason-IsKnown err =
    known-either (starts_with err "page_unavailable:") _ _ refl
      (known-either (starts_with err "non_post_item:") "non_post_item" "schema_drift" refl refl)

entry-IsSorted :
    (run : Run) (reason : String) (raw : RawItem) (n : ℕ) (rest : List SocialPost × List DlqEntry)
    → contains reason error_types ≡ true
    → IsSorted run n rest
    → IsSorted run (n + 1) (rest.0, dlq_entry run reason raw ∷ rest.1)
unfolding dlq_entries_to_records
entry-IsSorted run reason raw n rest known h =
    (omega (arith, h.0), ((refl, refl, refl, refl, known), h.1))

sort_out-IsSorted :
    (run : Run) (raw : RawItem) (o : ParsedItem) (n : ℕ) (rest : List SocialPost × List DlqEntry)
    → IsSorted run n rest
    → IsSorted run (n + 1) (sort_out run raw o rest)
sort_out-IsSorted run raw (post p) n rest h = (omega (arith, h.0), h.1)
sort_out-IsSorted run raw (schema_drift err) n rest h =
    entry-IsSorted run (drift_reason err) raw n rest (drift_reason-IsKnown err) h
sort_out-IsSorted run raw crashed n rest h = entry-IsSorted run "parse_error" raw n rest refl h

IsSorted-either :
    (run : Run) (n : ℕ) (b : Bool) (x y : List SocialPost × List DlqEntry)
    → IsSorted run n x
    → IsSorted run n y
    → IsSorted run n (if b then x else y)
IsSorted-either run n true x y h k = h
IsSorted-either run n false x y h k = k

-- Whatever an adapter's parser does with an item, no item is lost and none kills the run: the posts
-- and the dead letters are together as many as the items, and every dead letter names its run and
-- one of the four kinds of failure.
pub parse_social_posts-IsOfRun :
    (parse_item : RawItem → ParsedItem) (run : Run) (items : List RawItem)
    → let (posts, dlq) = parse_social_posts parse_item run items in
      let records = dlq_entries_to_records dlq run.actor_id in
      (length posts + length records ≡ length items) × All (IsOfRun run) records
unfolding parse_social_posts dlq_entries_to_records
parse_social_posts-IsOfRun parse_item run [] = (refl, tt)
parse_social_posts-IsOfRun parse_item run (raw ∷ items) =
    let rest = parse_social_posts parse_item run items in
    let h = parse_social_posts-IsOfRun parse_item run items in
    let n = length items in
    let k =
      IsSorted-either run (n + 1) (leb (length raw.keys) 2) _ _
        (entry-IsSorted run "non_post_item" raw n rest refl h)
        (sort_out-IsSorted run raw (parse_item raw) n rest h) in
    (omega (arith, k.0), k.1)

abbrev pub ids : List SocialPost → List String
ids posts = map (λ (p : SocialPost). p.post_id) posts

IsDistinct-either :
    (b : Bool) (x y : List SocialPost)
    → IsDistinct (ids x)
    → IsDistinct (ids y)
    → IsDistinct (ids (if b then x else y))
IsDistinct-either true x y h k = h
IsDistinct-either false x y h k = k

dedup_from_ids :
    (id : String) (seen : List String) (posts : List SocialPost)
    → contains id (ids (dedup_from seen posts))
      ≡ (not (contains id seen) && contains id (ids posts))
unfolding dedup_from
dedup_from_ids id seen [] = ground arith
dedup_from_ids id seen (p ∷ posts) =
    let skipped = dedup_from_ids id seen posts in
    let kept = dedup_from_ids id (p.post_id ∷ seen) posts in
    elim (Bool-cases (str_eq id p.post_id)) [
      | inl e ↦
          ground (arith, e, skipped, kept, ap (λ i. contains i seen) (eq_of_str_eq id p.post_id e))
      | inr e ↦ ground (arith, e, skipped, kept)
    ]

dedup_from-IsDistinct :
    (seen : List String) (posts : List SocialPost) → IsDistinct (ids (dedup_from seen posts))
unfolding dedup_from
dedup_from-IsDistinct seen [] = tt
dedup_from-IsDistinct seen (p ∷ posts) =
    IsDistinct-either (contains p.post_id seen) _ _ (dedup_from-IsDistinct seen posts) (
      rw (dedup_from_ids p.post_id (p.post_id ∷ seen) posts, eq_refl p.post_id) refl,
      dedup_from-IsDistinct (p.post_id ∷ seen) posts,
    )

-- After the removal of repeated posts no post id stands twice, and a post id is in the batch exactly
-- if it was.
dedup_intra_batch-IsDistinct :
    (posts : List SocialPost) (id : String)
    → IsDistinct (ids (dedup_intra_batch posts))
      × (contains id (ids (dedup_intra_batch posts)) ≡ contains id (ids posts))
unfolding dedup_intra_batch
dedup_intra_batch-IsDistinct posts id = (dedup_from-IsDistinct [] posts, dedup_from_ids id [] posts)
