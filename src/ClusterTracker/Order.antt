-- ===== src/ClusterTracker/Order.antt =====
-- Fractions in order, and the sort by descending score.
use native.Mathlib.Nat.{le_of_mul-le-mul_right, mul-le-mul_right}
use mapear_rn.Base.{
  ℕ, ◌*◌, ◌≤◌, ◌<◌, ◌≡◌, true, false, List, [], ◌∷◌, arith, leb→le, le→leb, All, All-mono,
  All-append, Bool-cases, inl, inr, NatDict,
}
use mapear_rn.ClusterTracker.{
  AuthorKey, Fraction, le_fraction, jaccard_members, Scored, place, sort_scored, score_row,
  score_all,
}

pub le_fraction_total : (a b : Fraction) → le_fraction a b ≡ false → le_fraction b a ≡ true
unfolding le_fraction
le_fraction_total a b h = ground arith

pub le_fraction_trans :
    (a b c : Fraction)
    → 0 < b.den
    → le_fraction a b ≡ true
    → le_fraction b c ≡ true
    → le_fraction a c ≡ true
unfolding le_fraction
le_fraction_trans a b c pos h k =
    let h' : a.num * b.den ≤ b.num * a.den = leb→le _ _ h in
    let k' : b.num * c.den ≤ c.num * b.den = leb→le _ _ k in
    le→leb _ _ (
      le_of_mul-le-mul_right {k = b.den}
        (omega (arith, mul-le-mul_right c.den h', mul-le-mul_right a.den k')) pos)

pub jaccard-den : (a b : List AuthorKey) → 0 < (jaccard_members a b).den
unfolding jaccard_members
jaccard-den a b = ground arith

pub All-place {κ} :
    (P : Scored → Type κ) (e : Scored) (xs : List Scored) → P e → All P xs → All P (place e xs)
unfolding sort_scored
All-place P e [] h hs = (h, tt)
All-place P e (x ∷ xs) h hs = elim (Bool-cases (le_fraction x.score e.score)) [
  | inl le ↦ rw le (h, hs)
  | inr gt ↦ rw gt (hs.0, All-place P e xs h hs.1)
]

pub All-sort_scored {κ} :
    (P : Scored → Type κ) (es : List Scored) → All P es → All P (sort_scored es)
unfolding sort_scored
All-sort_scored P [] h = tt
All-sort_scored P (e ∷ es) h = All-place P e (sort_scored es) h.0 (All-sort_scored P es h.1)

All-unplace {κ} :
    (P : Scored → Type κ) (e : Scored) (xs : List Scored) → All P (place e xs) → P e × All P xs
unfolding sort_scored
All-unplace P e [] h = (h.0, tt)
All-unplace P e (x ∷ xs) h = elim (Bool-cases (le_fraction x.score e.score)) [
  | inl le ↦ rw le at h
  | inr gt ↦
      let h' : All P (x ∷ place e xs) = rw gt at h in
      let (pe, pxs) = All-unplace P e xs h'.1 in (pe, (h'.0, pxs))
]

pub All-unsort_scored {κ} :
    (P : Scored → Type κ) (es : List Scored) → All P (sort_scored es) → All P es
unfolding sort_scored
All-unsort_scored P [] h = tt
All-unsort_scored P (e ∷ es) h =
    let (pe, pes) = All-unplace P e (sort_scored es) h in (pe, All-unsort_scored P es pes)

abbrev pub Below : Scored → Scored → Type 0
Below e x = le_fraction x.score e.score ≡ true

abbrev pub Descending : List Scored → Type 0
Descending [] = Unit
Descending (e ∷ es) = All (Below e) es × Descending es

abbrev pub Positive : Scored → Type 0
Positive e = 0 < e.score.den

Descending-place :
    (e : Scored) (xs : List Scored) → All Positive xs → Descending xs → Descending (place e xs)
unfolding sort_scored
Descending-place e [] pos d = (tt, tt)
Descending-place e (x ∷ xs) pos d = elim (Bool-cases (le_fraction x.score e.score)) [
  | inl le ↦ rw le (
    (
      le,
      All-mono (Below x) (Below e) xs (λ y h. le_fraction_trans y.score x.score e.score pos.0 h le)
          d.0,
    ),
    d,
  )
  | inr gt ↦ rw gt (
    All-place (Below x) e xs (le_fraction_total x.score e.score gt) d.0,
    Descending-place e xs pos.1 d.1,
  )
]

pub Descending-sort_scored : (es : List Scored) → All Positive es → Descending (sort_scored es)
unfolding sort_scored
Descending-sort_scored [] pos = tt
Descending-sort_scored (e ∷ es) pos =
    Descending-place e (sort_scored es) (All-sort_scored Positive es pos.1)
      (Descending-sort_scored es pos.1)

-- A pair of the scored list has the Jaccard index of its two sets, which reaches the threshold.
abbrev pub Reaches : Fraction → Scored → Type 0
Reaches threshold e = (le_fraction threshold e.score ≡ true) × (0 < e.score.den)

score_row-Reaches :
    (threshold : Fraction) (tid : ℕ) (t : List AuthorKey) (ys : NatDict (List AuthorKey))
    → All (Reaches threshold) (score_row threshold tid t ys)
unfolding score_all
score_row-Reaches threshold tid t [] = tt
score_row-Reaches threshold tid t ((yid, y) ∷ ys) =
    elim (Bool-cases (le_fraction threshold (jaccard_members t y))) [
      | inl le ↦ rw le ((le, jaccard-den t y), score_row-Reaches threshold tid t ys)
      | inr gt ↦ rw gt (score_row-Reaches threshold tid t ys)
    ]

pub score_all-Reaches :
    (threshold : Fraction) (ts ys : NatDict (List AuthorKey))
    → All (Reaches threshold) (score_all threshold ts ys)
unfolding score_all
score_all-Reaches threshold [] ys = tt
score_all-Reaches threshold ((tid, t) ∷ ts) ys =
    All-append _ (score_row threshold tid t ys) (score_all threshold ts ys)
      (score_row-Reaches threshold tid t ys) (score_all-Reaches threshold ts ys)
