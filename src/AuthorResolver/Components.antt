-- ===== src/AuthorResolver/Components.antt =====
-- What the union-find computes.
use mapear_rn.Base.{
  ℕ, zero, suc, ◌≤◌, ◌<◌, Bool, true, false, ◌≡◌, ◌≢◌, refl, sym, ◌∙◌, ◌&&◌, List, [], ◌∷◌, arith,
  ltb, ltb→lt, ltb→le, ◌==◌, if◌then◌else◌,
}
use mapear_rn.AuthorResolver.{Parents, update, find_from, find, link, union, unite}

-- The parents lead every account to its label, which is its own parent and no larger.
pub record IsLabelled (p label : ℕ → ℕ) : Type 0 where
  pub same : (x : ℕ) → label (p x) ≡ label x
  pub below : (x : ℕ) → p x ≤ x
  pub root : (x : ℕ) → p x ≡ x → label x ≡ x
  pub fixed : (x : ℕ) → p (label x) ≡ label x

halved-IsLabelled :
    (p label : ℕ → ℕ) (x : ℕ)
    → IsLabelled p label
    → p x ≢ x
    → IsLabelled (update x (p (p x)) p) label
halved-IsLabelled p label x h ne = record {
  same = λ z. grind (arith, h.same x, h.same (p x), h.same z);
  below = λ z. grind (arith, h.below z, h.below x, h.below (p x));
  root = λ z e. grind (arith, h.root z, e, h.below x, h.below (p x), ne);
  fixed = λ z. grind (arith, h.fixed z, ne);
}

abbrev pub Finds : (ℕ → ℕ) → ℕ → ℕ × Parents → Type 0
Finds label x (r, q) = (r ≡ label x) × IsLabelled q label

pub eq_of_test : (a b : ℕ) → (a == b) ≡ true → a ≡ b
eq_of_test a b e = ground arith

ne_of_test : (a b : ℕ) → (a == b) ≡ false → a ≢ b
ne_of_test a b e h = ground arith

find_step :
    (x : ℕ) (p label : ℕ → ℕ) (rest : ℕ × Parents) (b : Bool)
    → IsLabelled p label
    → (p x == x) ≡ b
    → (p x ≢ x → Finds label x rest)
    → Finds label x (if b then (x, p) else rest)
find_step x p label rest true h e more = (sym (h.root x (eq_of_test (p x) x e)), h)
find_step x p label rest false h e more = more (ne_of_test (p x) x e)

-- A walk of enough rounds ends at the label, and leaves the labels as they are.
find_from_label :
    (fuel x : ℕ) (p label : ℕ → ℕ)
    → x < fuel
    → IsLabelled p label
    → Finds label x (find_from fuel x p)
unfolding find_from
find_from_label zero x p label l h = absurd (omega (arith, l))
find_from_label (suc fuel) x p label l h =
    let next = p (p x) in
    let p' = update x next p in
    find_step x p label (find_from fuel next p') (p x == x) h refl (λ ne.
      let shorter : next < fuel = omega (arith, l, h.below x, h.below (p x), ne) in
      let (r, q) = find_from_label fuel next p' label shorter (halved-IsLabelled p label x h ne) in
      (r ∙ h.same (p x) ∙ h.same x, q))

pub find_label : (x : ℕ) (p label : ℕ → ℕ) → IsLabelled p label → Finds label x (find x p)
unfolding find
find_label x p label h = find_from_label (suc x) x p label (omega arith) h

-- The larger of two labels becomes the smaller.
abbrev pub merged : ℕ → ℕ → (ℕ → ℕ) → ℕ → ℕ
merged lo hi label z = if label z == hi then lo else label z

linked-IsLabelled :
    (p label : ℕ → ℕ) (lo hi : ℕ)
    → IsLabelled p label
    → lo < hi
    → label lo ≡ lo
    → label hi ≡ hi
    → IsLabelled (update hi lo p) (merged lo hi label)
linked-IsLabelled p label lo hi h l e f = record {
  same = λ z. grind (arith, h.same z, e, f, l);
  below = λ z. grind (arith, h.below z, l);
  root = λ z r. grind (arith, h.root z, r, l);
  fixed = λ z. grind (arith, h.fixed z, h.fixed lo, e, f, l);
}

-- The labels after an edge
abbrev pub joined : ℕ → ℕ → (ℕ → ℕ) → ℕ → ℕ
joined x y label =
    if label x == label y
    then label
    else if ltb (label x) (label y)
    then merged (label x) (label y) label
    else merged (label y) (label x) label

pub IsLabelled-either :
    (b : Bool) (p q l m : ℕ → ℕ)
    → (b ≡ true → IsLabelled p l)
    → (b ≡ false → IsLabelled q m)
    → IsLabelled (if b then p else q) (if b then l else m)
IsLabelled-either true p q l m h k = h refl
IsLabelled-either false p q l m h k = k refl

link-IsLabelled :
    (p label : ℕ → ℕ) (x y : ℕ)
    → IsLabelled p label
    → IsLabelled (link (label x) (label y) p) (joined x y label)
link-IsLabelled p label x y h =
    let own_x = h.root (label x) (h.fixed x) in
    let own_y = h.root (label y) (h.fixed y) in
    IsLabelled-either (label x == label y) p _ label _ (λ e. h)
      (λ ne.
        IsLabelled-either (ltb (label x) (label y)) _ _ _ _
          (λ l.
            linked-IsLabelled p label (label x) (label y) h (ltb→lt (label x) (label y) l) own_x
              own_y)
          (λ g.
            let less : label y < label x =
              omega (arith, ltb→le (label x) (label y) g, ne_of_test (label x) (label y) ne) in
            linked-IsLabelled p label (label y) (label x) h less own_y own_x))

union-IsLabelled :
    (x y : ℕ) (p label : ℕ → ℕ) → IsLabelled p label → IsLabelled (union x y p) (joined x y label)
unfolding union
union-IsLabelled x y p label h =
    let (rx, h₁) = find_label x p label h in
    let (ry, h₂) = find_label y (find x p).1 label h₁ in
    rw (rx, ry) (link-IsLabelled (find y (find x p).1).1 label x y h₂)

-- The labels after all edges
abbrev pub labels : ℕ → List (ℕ × ℕ) → (ℕ → ℕ) → ℕ → ℕ
labels n [] label = label
labels n ((a, b) ∷ edges) label =
    labels n edges (if ltb a n && ltb b n then joined a b label else label)

pub unite-IsLabelled :
    (n : ℕ) (edges : List (ℕ × ℕ)) (p label : ℕ → ℕ)
    → IsLabelled p label
    → IsLabelled (unite n edges p) (labels n edges label)
unfolding unite
unite-IsLabelled n [] p label h = h
unite-IsLabelled n ((a, b) ∷ edges) p label h = unite-IsLabelled n edges _ _ (
    IsLabelled-either (ltb a n && ltb b n) (union a b p) p (joined a b label) label
      (λ e. union-IsLabelled a b p label h) (λ e. h))
