-- ===== src/Deduplicator/Batches.antt =====
-- What deduplication keeps of a batch, and of the same batch again.
use mapear_rn.Base.{
  String, ◌≡◌, refl, true, false, ◌||◌, inl, inr, List, [], ◌∷◌, arith, str_eq, eq_refl,
  eq_of_str_eq, contains, All, All-mono, IsDistinct, Bool-cases, ap, subst, sym,
}
use mapear_rn.Deduplicator.{RawArticle, Deduplicator, add, is_known, learn, deduplicate}

pub contains-add :
    (k j : String) (s : List String) → contains j (add k s) ≡ (str_eq j k || contains j s)
contains-add k j s = elim (Bool-cases (str_eq j k)) [
  | inl e ↦ ground (arith, subst (λ i. contains i s ≡ contains k s) (sym (eq_of_str_eq j k e)) refl)
  | inr n ↦ ground arith
]

apart :
    (k j : String) (s : List String)
    → contains k s ≡ true
    → contains j s ≡ false
    → str_eq k j ≡ false
apart k j s h n = elim (Bool-cases (str_eq k j)) [
  | inl e ↦ absurd (ground (arith, h, n, ap (λ i. contains i s) (eq_of_str_eq k j e)))
  | inr e ↦ e
]

pub contains-add_self : (k : String) (s : List String) → contains k (add k s) ≡ true
contains-add_self k s = ground (arith, eq_refl k, contains-add k k s)

module _ (canonical : String → String) where
  -- Whatever the deduplicator knows before, it knows after.
  abbrev pub Grows : Deduplicator → Deduplicator → Type 0
  Grows d d' = (a : RawArticle) → is_known canonical d a ≡ true → is_known canonical d' a ≡ true

  Grows-learn : (a : RawArticle) (d : Deduplicator) → Grows d (learn canonical a d)
  Grows-learn a d b h = ground (
    arith,
    contains-add a.content_hash b.content_hash d.known_hashes,
    contains-add (canonical a.url) (canonical b.url) d.known_canonical_urls,
  )

  known-learn :
      (a : RawArticle) (d : Deduplicator) → is_known canonical (learn canonical a d) a ≡ true
  known-learn a d =
      ground
        (arith, eq_refl a.content_hash, contains-add a.content_hash a.content_hash d.known_hashes)

  -- No two articles of the batch share a hash or a canonical URL, and none is known.
  abbrev pub IsFresh : Deduplicator → List RawArticle → Type 0
  IsFresh d [] = Unit
  IsFresh d (a ∷ batch) = (is_known canonical d a ≡ false) × IsFresh (learn canonical a d) batch

  deduplicate-IsFresh :
      (batch : List RawArticle) (d : Deduplicator) → IsFresh d (deduplicate canonical batch d).0
  unfolding deduplicate
  deduplicate-IsFresh [] d = tt
  deduplicate-IsFresh (a ∷ batch) d =
      ground (arith, deduplicate-IsFresh batch d, deduplicate-IsFresh batch (learn canonical a d))

  abbrev pub hashes : List RawArticle → List String
  hashes [] = []
  hashes (a ∷ batch) = a.content_hash ∷ hashes batch

  abbrev pub canonical_urls : List RawArticle → List String
  canonical_urls [] = []
  canonical_urls (a ∷ batch) = canonical a.url ∷ canonical_urls batch

  IsFresh-avoids :
      (batch : List RawArticle) (d : Deduplicator) (k : String)
      → IsFresh d batch
      → ((contains k d.known_hashes ≡ true) → contains k (hashes batch) ≡ false)
        × ((contains k d.known_canonical_urls ≡ true) → contains k (canonical_urls batch) ≡ false)
  IsFresh-avoids [] d k h = (λ _. refl, λ _. refl)
  IsFresh-avoids (a ∷ batch) d k h =
      let later = IsFresh-avoids batch (learn canonical a d) k h.1 in
      (
        λ e. ground (
          arith,
          h.0,
          apart k a.content_hash d.known_hashes e,
          later.0 (ground (arith, e, contains-add a.content_hash k d.known_hashes)),
        ),
        λ e. ground (
          arith,
          h.0,
          apart k (canonical a.url) d.known_canonical_urls e,
          later.1 (ground (arith, e, contains-add (canonical a.url) k d.known_canonical_urls)),
        ),
      )

  unknown_before :
      (a b : RawArticle) (d : Deduplicator)
      → is_known canonical (learn canonical a d) b ≡ false
      → is_known canonical d b ≡ false
  unknown_before a b d n = elim (Bool-cases (is_known canonical d b)) [
    | inl h ↦ absurd (ground (arith, n, Grows-learn a d b h))
    | inr h ↦ h
  ]

  IsFresh-IsDistinct :
      (batch : List RawArticle) (d : Deduplicator)
      → IsFresh d batch
      → IsDistinct (hashes batch)
        × IsDistinct (canonical_urls batch)
        × All (λ a. is_known canonical d a ≡ false) batch
  IsFresh-IsDistinct [] d h = (tt, tt, tt)
  IsFresh-IsDistinct (a ∷ batch) d h =
      let next = learn canonical a d in
      let (hs, us, unknown) = IsFresh-IsDistinct batch next h.1 in
      (
        (
          (IsFresh-avoids batch next a.content_hash h.1).0
              (contains-add_self a.content_hash d.known_hashes),
          hs,
        ),
        (
          (IsFresh-avoids batch next (canonical a.url) h.1).1
              (contains-add_self (canonical a.url) d.known_canonical_urls),
          us,
        ),
        (h.0, All-mono _ _ batch (λ b n. unknown_before a b d n) unknown),
      )

  deduplicate-Grows :
      (batch : List RawArticle) (d : Deduplicator) → Grows d (deduplicate canonical batch d).1
  unfolding deduplicate
  deduplicate-Grows [] d a h = h
  deduplicate-Grows (b ∷ batch) d a h = ground (
    arith,
    deduplicate-Grows batch d a h,
    Grows-learn b d a h,
    deduplicate-Grows batch (learn canonical b d) a,
  )

  deduplicate_skip :
      (a : RawArticle) (batch : List RawArticle) (d : Deduplicator)
      → is_known canonical d a ≡ true
      → deduplicate canonical (a ∷ batch) d ≡ deduplicate canonical batch d
  unfolding deduplicate
  deduplicate_skip a batch d h = ground (arith, h)

  deduplicate_keep :
      (a : RawArticle) (batch : List RawArticle) (d : Deduplicator)
      → is_known canonical d a ≡ false
      → let (unique, d') = deduplicate canonical batch (learn canonical a d) in
        deduplicate canonical (a ∷ batch) d ≡ (a ∷ unique, d')
  unfolding deduplicate
  deduplicate_keep a batch d h = ground (arith, h)

  deduplicate-known :
      (batch : List RawArticle) (d : Deduplicator)
      → All (λ a. is_known canonical (deduplicate canonical batch d).1 a ≡ true) batch
  unfolding deduplicate
  deduplicate-known [] d = tt
  deduplicate-known (a ∷ batch) d = elim (Bool-cases (is_known canonical d a)) [
    | inl h ↦
        subst (λ r. All (λ b. is_known canonical r.1 b ≡ true) (a ∷ batch))
          (sym (deduplicate_skip a batch d h))
          (deduplicate-Grows batch d a h, deduplicate-known batch d)
    | inr h ↦
        let next = learn canonical a d in
        subst (λ r. All (λ b. is_known canonical r.1 b ≡ true) (a ∷ batch))
          (sym (deduplicate_keep a batch d h))
          (deduplicate-Grows batch next a (known-learn a d), deduplicate-known batch next)
  ]

  pub deduplicate_known-All :
      (batch : List RawArticle) (d : Deduplicator)
      → All (λ a. is_known canonical d a ≡ true) batch
      → deduplicate canonical batch d ≡ ([], d)
  unfolding deduplicate
  deduplicate_known-All [] d h = refl
  deduplicate_known-All (a ∷ batch) d h = ground (arith, h.0, deduplicate_known-All batch d h.1)

  -- The articles that deduplication keeps have distinct hashes and distinct canonical URLs, none of
  -- them known before; every article of the batch is known afterwards, and the same batch again
  -- yields nothing and changes nothing.
  pub deduplicate_lem :
      (batch : List RawArticle) (d : Deduplicator)
      → let (unique, d') = deduplicate canonical batch d in
        (IsDistinct (hashes unique)
          × IsDistinct (canonical_urls unique)
          × All (λ a. is_known canonical d a ≡ false) unique)
        × All (λ a. is_known canonical d' a ≡ true) batch
        × (deduplicate canonical batch d' ≡ ([], d'))
  deduplicate_lem batch d =
      let (unique, d') = deduplicate canonical batch d in
      let known = deduplicate-known batch d in
      (
        IsFresh-IsDistinct unique d (deduplicate-IsFresh batch d),
        known,
        deduplicate_known-All batch d' known,
      )
