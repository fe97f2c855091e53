-- ===== src/AuthorResolver/Closure.antt =====
-- The roots of the union-find are the classes of the accounts under the matched pairs.
use mapear_rn.Base.{
  ℕ, ◌≤◌, Bool, true, false, ◌≡◌, refl, sym, ap, ◌∙◌, subst, ◌&&◌, ◌↔◌, ◌⊎◌, inl, inr, List, [],
  ◌∷◌, arith, ltb, ◌==◌, if◌then◌else◌, select,
}
use mapear_rn.AuthorResolver.{find, unite}
use mapear_rn.AuthorResolver.Components.{
  IsLabelled, find_label, joined, labels, unite-IsLabelled, eq_of_test,
}

-- The edges whose two ends are among the first n accounts
abbrev pub inner : ℕ → List (ℕ × ℕ) → List (ℕ × ℕ)
inner n edges = select (λ (e : ℕ × ℕ). ltb e.0 n && ltb e.1 n) edges

abbrev pub IsEdge : List (ℕ × ℕ) → ℕ → ℕ → Type 0
IsEdge [] x y = ⊥
IsEdge ((a, b) ∷ edges) x y = ((x ≡ a) × (y ≡ b)) ⊎ IsEdge edges x y

-- The least equivalence that holds of the ends of every edge
pub data Connected (edges : List (ℕ × ℕ)) : ℕ → ℕ → Type 0 where
  by_edge : (x y : ℕ) → IsEdge edges x y → Connected edges x y
  by_same : (x y : ℕ) → x ≡ y → Connected edges x y
  turned : (x y : ℕ) → Connected edges x y → Connected edges y x
  chained : (x y z : ℕ) → Connected edges x y → Connected edges y z → Connected edges x z

-- What has one label still has one after an edge.
joined_kept :
    (x y u v : ℕ) (label : ℕ → ℕ) → label u ≡ label v → joined x y label u ≡ joined x y label v
joined_kept x y u v label e = ground (arith, e)

joined_ends : (x y : ℕ) (label : ℕ → ℕ) → joined x y label x ≡ joined x y label y
joined_ends x y label = ground arith

joined_if_kept :
    (b : Bool) (x y u v : ℕ) (label : ℕ → ℕ)
    → label u ≡ label v
    → (if b then joined x y label else label) u ≡ (if b then joined x y label else label) v
joined_if_kept true x y u v label e = joined_kept x y u v label e
joined_if_kept false x y u v label e = e

labels_kept :
    (n : ℕ) (edges : List (ℕ × ℕ)) (label : ℕ → ℕ) (u v : ℕ)
    → label u ≡ label v
    → labels n edges label u ≡ labels n edges label v
labels_kept n [] label u v e = e
labels_kept n ((a, b) ∷ edges) label u v e =
    labels_kept n edges _ u v (joined_if_kept (ltb a n && ltb b n) a b u v label e)

edge_step :
    (b : Bool) (n : ℕ) (edges : List (ℕ × ℕ)) (u v : ℕ) (label : ℕ → ℕ) (x y : ℕ)
    → ((l : ℕ → ℕ) → IsEdge (inner n edges) x y → labels n edges l x ≡ labels n edges l y)
    → IsEdge (if b then (u, v) ∷ inner n edges else inner n edges) x y
    → labels n edges (if b then joined u v label else label) x
      ≡ labels n edges (if b then joined u v label else label) y
edge_step true n edges u v label x y rest (inl (ex, ey)) =
    let l = joined u v label in
    labels_kept n edges l x y (ap l ex ∙ joined_ends u v label ∙ sym (ap l ey))
edge_step true n edges u v label x y rest (inr h) = rest (joined u v label) h
edge_step false n edges u v label x y rest h = rest label h

labels-IsEdge :
    (n : ℕ) (edges : List (ℕ × ℕ)) (label : ℕ → ℕ) (x y : ℕ)
    → IsEdge (inner n edges) x y
    → labels n edges label x ≡ labels n edges label y
labels-IsEdge n [] label x y h = elim h [ ]
labels-IsEdge n ((a, b) ∷ edges) label x y h =
    edge_step (ltb a n && ltb b n) n edges a b label x y (λ l. labels-IsEdge n edges l x y) h

-- Connected accounts have one label.
labels-Connected :
    (n : ℕ) (edges : List (ℕ × ℕ)) (label : ℕ → ℕ) (x y : ℕ)
    → Connected (inner n edges) x y
    → labels n edges label x ≡ labels n edges label y
labels-Connected n edges label x y (by_edge _ _ h) = labels-IsEdge n edges label x y h
labels-Connected n edges label x y (by_same _ _ e) = ap (labels n edges label) e
labels-Connected n edges label x y (turned _ _ h) = sym (labels-Connected n edges label y x h)
labels-Connected n edges label x z (chained _ y _ h k) =
    labels-Connected n edges label x y h ∙ labels-Connected n edges label y z k

-- Every account is connected with its label.
abbrev IsTied : List (ℕ × ℕ) → (ℕ → ℕ) → Type 0
IsTied all label = (x : ℕ) → Connected all x (label x)

merged-IsTied :
    (all : List (ℕ × ℕ)) (label : ℕ → ℕ) (lo hi z : ℕ) (b : Bool)
    → IsTied all label
    → Connected all hi lo
    → (label z == hi) ≡ b
    → Connected all z (if b then lo else label z)
merged-IsTied all label lo hi z true tied c e =
    chained z hi lo (subst (Connected all z) (eq_of_test (label z) hi e) (tied z)) c
merged-IsTied all label lo hi z false tied c e = tied z

-- The labels of the ends of an edge are connected.
label_ends :
    (all : List (ℕ × ℕ)) (label : ℕ → ℕ) (x y : ℕ)
    → IsTied all label
    → Connected all x y
    → Connected all (label x) (label y)
label_ends all label x y tied c =
    chained (label x) x (label y) (turned x (label x) (tied x)) (chained x y (label y) c (tied y))

IsTied-either :
    (all : List (ℕ × ℕ)) (b : Bool) (l m : ℕ → ℕ)
    → IsTied all l
    → IsTied all m
    → IsTied all (if b then l else m)
IsTied-either all true l m h k = h
IsTied-either all false l m h k = k

joined-IsTied :
    (all : List (ℕ × ℕ)) (label : ℕ → ℕ) (x y : ℕ)
    → IsTied all label
    → Connected all x y
    → IsTied all (joined x y label)
joined-IsTied all label x y tied c =
    let ends = label_ends all label x y tied c in
    IsTied-either all (label x == label y) _ _ tied (
      IsTied-either all (ltb (label x) (label y)) _ _
        (λ z.
          merged-IsTied all label (label x) (label y) z _ tied (turned (label x) (label y) ends)
            refl)
        (λ z. merged-IsTied all label (label y) (label x) z _ tied ends refl))

IsEdge-if :
    (b : Bool) (u v x y : ℕ) (edges : List (ℕ × ℕ))
    → IsEdge edges x y
    → IsEdge (if b then (u, v) ∷ edges else edges) x y
IsEdge-if true u v x y edges h = inr h
IsEdge-if false u v x y edges h = h

joined_if-IsTied :
    (all : List (ℕ × ℕ)) (b : Bool) (label : ℕ → ℕ) (u v : ℕ) (edges : List (ℕ × ℕ))
    → IsTied all label
    → ((x y : ℕ) → IsEdge (if b then (u, v) ∷ edges else edges) x y → Connected all x y)
    → IsTied all (if b then joined u v label else label)
joined_if-IsTied all true label u v edges tied within =
    joined-IsTied all label u v tied (within u v (inl (refl, refl)))
joined_if-IsTied all false label u v edges tied within = tied

labels-IsTied :
    (all edges : List (ℕ × ℕ)) (n : ℕ) (label : ℕ → ℕ)
    → ((x y : ℕ) → IsEdge (inner n edges) x y → Connected all x y)
    → IsTied all label
    → IsTied all (labels n edges label)
labels-IsTied all [] n label within tied = tied
labels-IsTied all ((a, c) ∷ edges) n label within tied =
    let b = ltb a n && ltb c n in
    labels-IsTied all edges n _ (λ x y h. within x y (IsEdge-if b a c x y (inner n edges) h))
      (joined_if-IsTied all b label a c (inner n edges) tied within)

joined_le : (x y z : ℕ) (label : ℕ → ℕ) → label z ≤ z → joined x y label z ≤ z
joined_le x y z label h = ground (arith, h)

joined_if_le :
    (b : Bool) (x y z : ℕ) (label : ℕ → ℕ)
    → label z ≤ z
    → (if b then joined x y label else label) z ≤ z
joined_if_le true x y z label h = joined_le x y z label h
joined_if_le false x y z label h = h

labels_le :
    (n : ℕ) (edges : List (ℕ × ℕ)) (label : ℕ → ℕ) (z : ℕ)
    → label z ≤ z
    → labels n edges label z ≤ z
labels_le n [] label z h = h
labels_le n ((a, b) ∷ edges) label z h =
    labels_le n edges _ z (joined_if_le (ltb a n && ltb b n) a b z label h)

own-IsLabelled : IsLabelled (λ z. z) (λ z. z)
own-IsLabelled = record {
  same = λ x. refl;
  below = λ x. omega arith;
  root = λ x e. refl;
  fixed = λ x. refl;
}

-- Two accounts have one root exactly if a chain of matched pairs connects them, and the root of an
-- account is no larger than the account. The pairs are those of the first n accounts.
pub unite-Connected :
    (n : ℕ) (edges : List (ℕ × ℕ)) (x y : ℕ)
    → let p = unite n edges (λ z. z) in
      (((find x p).0 ≡ (find y p).0) ↔ Connected (inner n edges) x y) × ((find x p).0 ≤ x)
unite-Connected n edges x y =
    let p = unite n edges (λ z. z) in
    let label = labels n edges (λ z. z) in
    let all = inner n edges in
    let h = unite-IsLabelled n edges (λ z. z) (λ z. z) own-IsLabelled in
    let root_x = (find_label x p label h).0 in
    let root_y = (find_label y p label h).0 in
    let tied =
      labels-IsTied all edges n (λ z. z) (λ u v e. by_edge u v e) (λ z. by_same z z refl) in
    (
      (
        (λ e.
            let met = sym root_x ∙ e ∙ root_y in
            chained x (label x) y (tied x) (
              chained (label x) (label y) y (by_same (label x) (label y) met)
                (turned y (label y) (tied y)))),
        (λ c. root_x ∙ labels-Connected n edges (λ z. z) x y c ∙ sym root_y),
      ),
      omega (arith, root_x, labels_le n edges (λ z. z) x (omega arith)),
    )
