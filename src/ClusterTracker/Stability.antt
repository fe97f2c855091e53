-- ===== src/ClusterTracker/Stability.antt =====
-- The greedy matching takes no pair over a better one.
use mapear_rn.Base.{
  ℕ, ◌≡◌, refl, true, false, ◌||◌, Option, some, List, [], ◌∷◌, arith, ◌==◌, ◌⊎◌, inl, inr,
  Bool-cases, All, All-mono, has, subst, sym, NatDict, put_key, find_key-put_key,
}
use mapear_rn.ClusterTracker.{Fraction, le_fraction, Scored, greedy}
use mapear_rn.ClusterTracker.Matching.{Matched, IsMatching, IsMatching-step, kept}

-- The pair is one of the list.
abbrev pub IsAmong : List Scored → Scored → Type 0
IsAmong [] m = ⊥
IsAmong (e ∷ es) m = (m ≡ e) ⊎ IsAmong es m

pub IsAmong-self : (es : List Scored) → All (IsAmong es) es
IsAmong-self [] = tt
IsAmong-self (e ∷ es) =
    (inl refl, All-mono (IsAmong es) (IsAmong (e ∷ es)) es (λ m h. inr h) (IsAmong-self es))

pub IsAmong-All {κ} :
    (P : Scored → Type κ) (es : List Scored) (m : Scored) → All P es → IsAmong es m → P m
IsAmong-All P [] m h among = absurd among
IsAmong-All P (e ∷ es) m h (inl same) = subst P (sym same) h.0
IsAmong-All P (e ∷ es) m h (inr among) = IsAmong-All P es m h.1 among

-- A scored pair with the property, of these two communities.
abbrev pub Pair : (Scored → Type 0) → ℕ → ℕ → Type 0
Pair Q t y = (m : Scored) × (m.tid ≡ t) × (m.yid ≡ y) × Q m

-- One of the pair's two communities is matched, by a scored pair that scores no lower.
abbrev pub IsSettled : NatDict (Option ℕ) → (Scored → Type 0) → Scored → Type 0
IsSettled a Q e =
    (m : Scored) × Q m
    × Matched a m.tid m.yid
    × ((m.tid ≡ e.tid) ⊎ (m.yid ≡ e.yid))
    × (le_fraction e.score m.score ≡ true)

pub le_fraction_refl : (f : Fraction) → le_fraction f f ≡ true
unfolding le_fraction
le_fraction_refl f = ground arith

-- The greedy loop takes the pair, or skips it.
pub greedy-cases :
    (e : Scored) (mt my : List ℕ)
    → ((has e.tid mt || has e.yid my) ≡ true) ⊎ ((has e.tid mt ≡ false) × (has e.yid my ≡ false))
greedy-cases e mt my = elim (Bool-cases (has e.tid mt || has e.yid my)) [
  | inl b ↦ inl b
  | inr b ↦ inr (ground arith, ground arith)
]

abbrev pub taken : Scored → NatDict (Option ℕ) → NatDict (Option ℕ)
taken e a = put_key e.tid (some e.yid) a

pub greedy-skip :
    (e : Scored) (es : List Scored) (mt my : List ℕ) (a : NatDict (Option ℕ))
    → (has e.tid mt || has e.yid my) ≡ true
    → greedy (e ∷ es) mt my a ≡ greedy es mt my a
unfolding greedy
greedy-skip e es mt my a h = rw h

pub greedy-take :
    (e : Scored) (es : List Scored) (mt my : List ℕ) (a : NatDict (Option ℕ))
    → has e.tid mt ≡ false
    → has e.yid my ≡ false
    → greedy (e ∷ es) mt my a ≡ greedy es (e.tid ∷ mt) (e.yid ∷ my) (taken e a)
unfolding greedy
greedy-take e es mt my a h k = rw (h, k)

pub greedy-keeps :
    (es : List Scored) (mt my : List ℕ) (a : NatDict (Option ℕ)) (t y : ℕ)
    → IsMatching mt my a
    → Matched a t y
    → Matched (greedy es mt my a) t y
greedy-keeps [] mt my a t y i m = unfold greedy in m
greedy-keeps (e ∷ es) mt my a t y i m = elim (greedy-cases e mt my) [
  | inl b ↦ rw (greedy-skip e es mt my a b) (greedy-keeps es mt my a t y i m)
  | inr (h, k) ↦ rw (greedy-take e es mt my a h k) (
      greedy-keeps es (e.tid ∷ mt) (e.yid ∷ my) (taken e a) t y (IsMatching-step i e h k)
        (kept i e h k t y m))
]

pub greedy-apart :
    (es : List Scored) (mt my : List ℕ) (a : NatDict (Option ℕ)) (t u y : ℕ)
    → IsMatching mt my a
    → Matched (greedy es mt my a) t y
    → Matched (greedy es mt my a) u y
    → t ≡ u
greedy-apart [] mt my a t u y i m n = unfold greedy in i.apart t u y m n
greedy-apart (e ∷ es) mt my a t u y i m n = elim (greedy-cases e mt my) [
  | inl b ↦
      greedy-apart es mt my a t u y i (rw (greedy-skip e es mt my a b) at m)
        (rw (greedy-skip e es mt my a b) at n)
  | inr (h, k) ↦
      greedy-apart es (e.tid ∷ mt) (e.yid ∷ my) (taken e a) t u y (IsMatching-step i e h k)
        (rw (greedy-take e es mt my a h k) at m) (rw (greedy-take e es mt my a h k) at n)
]

pub taken-Pair :
    (Q : Scored → Type 0) (e : Scored) (a : NatDict (Option ℕ)) (t y : ℕ)
    → Q e
    → (Matched a t y → Pair Q t y)
    → Matched (taken e a) t y
    → Pair Q t y
taken-Pair Q e a t y q from m = elim (Bool-cases (e.tid == t)) [
  | inl same ↦ (e, ground arith, ground (arith, find_key-put_key e.tid t (some e.yid) a), q)
  | inr other ↦ from (ground (arith, find_key-put_key e.tid t (some e.yid) a))
]

pub greedy-Pair :
    (Q : Scored → Type 0) (es : List Scored) (mt my : List ℕ) (a : NatDict (Option ℕ))
    → All Q es
    → ((t y : ℕ) → Matched a t y → Pair Q t y)
    → (t y : ℕ) → Matched (greedy es mt my a) t y
    → Pair Q t y
greedy-Pair Q [] mt my a q from t y m = unfold greedy in from t y m
greedy-Pair Q (e ∷ es) mt my a q from t y m = elim (greedy-cases e mt my) [
  | inl b ↦ greedy-Pair Q es mt my a q.1 from t y (rw (greedy-skip e es mt my a b) at m)
  | inr (h, k) ↦
      greedy-Pair Q es (e.tid ∷ mt) (e.yid ∷ my) (taken e a) q.1
        (λ u z n. taken-Pair Q e a u z q.0 (from u z) n) t y
        (rw (greedy-take e es mt my a h k) at m)
]
