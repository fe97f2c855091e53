-- ===== src/SocialPipeline/Volumes.antt =====
-- How often each person is mentioned in a batch.
use mapear_rn.Base.{
  ℕ, ◌+◌, String, Bool, ◌≡◌, ◌&&◌, not, Option, List, [], ◌∷◌, count, arith, str_eq, Dict, lookup,
  insert, get_or, lookup-recounted, Bool-cases, inl, inr,
}
use mapear_rn.SocialPipeline.{count_persons, volume_by_person}

-- The row is of the person.
abbrev pub is_of : String → Option String → Bool
is_of pid row = not (str_eq (get_or row "") "") && str_eq (get_or row "") pid

count_persons_lem :
    (pid : String) (rows : List (Option String)) (counts : Dict ℕ)
    → get_or (lookup pid (count_persons rows counts)) 0
      ≡ get_or (lookup pid counts) 0 + count (is_of pid) rows
unfolding count_persons
count_persons_lem pid [] counts = omega arith
count_persons_lem pid (row ∷ rows) counts =
    let name = get_or row "" in
    let counted = insert name (get_or (lookup name counts) 0 + 1) counts in
    elim (Bool-cases (str_eq name "")) [
      | inl e ↦ rw e (omega (arith, count_persons_lem pid rows counts))
      | inr e ↦
          rw e (omega (arith, count_persons_lem pid rows counted, lookup-recounted pid name counts))
    ]

-- The volume of a person is the number of the rows of the batch that name that person; rows with
-- no person, or with an empty one, count for nobody.
pub volume_by_person-count :
    (pid : String) (rows : List (Option String))
    → get_or (lookup pid (volume_by_person rows)) 0 ≡ count (is_of pid) rows
unfolding volume_by_person lookup
volume_by_person-count pid rows = omega (arith, count_persons_lem pid rows [])
