-- ===== src/AuthorResolver.antt =====
-- libs/mapear-domain/src/mapear_domain/entity_resolution/author_resolver.py: the decision on a pair of
-- accounts, and the union-find that gathers matched accounts in personas. The accounts of a batch
-- are numbered in their order, so the number of an account stands for its key.
mod Components
mod Closure
mod Tests
use mapear_rn.Base.{
  ℕ, zero, suc, ◌+◌, ◌*◌, ◌/◌, min, Bool, true, false, ◌&&◌, ◌||◌, not, Option, none, some, List,
  [], ◌∷◌, ◌++◌, leb, ltb, ◌==◌, if◌then◌else◌, NatDict, find_key, put_key, get_or,
}

pub data Decision : Type 0 where
  matched no_match ambiguous : Decision

-- Similarities are numbers of hundredths.
pub record Thresholds : Type 0 where
  pub handle_similarity : ℕ
  pub display_name_similarity : ℕ
  pub min_shared_content : ℕ
  pub use_content_hash_bridge : Bool
  pub content_bridge_handle_floor : ℕ

-- What is compared of a pair: the similarities, whether the handles look enumerated, shared texts
pub record Comparison : Type 0 where
  pub handle_sim : ℕ
  pub display_sim : Option ℕ
  pub enumerated : Bool
  pub overlap : ℕ

abbrev pub at_least : Option ℕ → ℕ → Bool
at_least none n = false
at_least (some m) n = leb n m

-- The decision and the confidence of `score_pair`
unfoldable pub score_pair : Thresholds → Comparison → Decision × ℕ
score_pair t c =
    let name_match = at_least c.display_sim t.display_name_similarity in
    let handle_match = leb t.handle_similarity c.handle_sim in
    if handle_match && (name_match && not c.enumerated)
    then (matched, min 100 ((c.handle_sim + get_or c.display_sim 0) / 2))
    else if t.use_content_hash_bridge
        && (leb t.min_shared_content c.overlap && leb t.content_bridge_handle_floor c.handle_sim)
    then (matched, min 100 (c.handle_sim + min 30 (10 * c.overlap)))
    else if handle_match && (c.enumerated || not name_match)
    then (ambiguous, c.handle_sim)
    else (no_match, c.handle_sim)

-- The dictionary `parent`
abbrev pub Parents : Type 0
Parents = ℕ → ℕ

-- `parent[x] = y`
abbrev pub update : ℕ → ℕ → Parents → Parents
update x y p z = if z == x then y else p z

-- The loop of `find`, which halves the path
unfoldable pub find_from : ℕ → ℕ → Parents → ℕ × Parents
find_from zero x p = (x, p)
find_from (suc fuel) x p =
    let next = p (p x) in
    let rest = find_from fuel next (update x next p) in if p x == x then (x, p) else rest

-- A parent is smaller than its child, so there are at most as many rounds as the number of the
-- account, and one more.
unfoldable pub find : ℕ → Parents → ℕ × Parents
find x p = find_from (suc x) x p

-- The smaller root becomes the parent of the other.
abbrev pub link : ℕ → ℕ → Parents → Parents
link rx ry p = if rx == ry then p else if ltb rx ry then update ry rx p else update rx ry p

unfoldable pub union : ℕ → ℕ → Parents → Parents
union x y p = let (rx, p₁) = find x p in let (ry, p₂) = find y p₁ in link rx ry p₂

-- The edges whose two ends are among the first n accounts
unfoldable pub unite : ℕ → List (ℕ × ℕ) → Parents → Parents
unite n [] p = p
unite n ((a, b) ∷ edges) p = unite n edges (if ltb a n && ltb b n then union a b p else p)

-- `groups[find(node)].append(node)`
unfoldable pub gather : List ℕ → Parents → NatDict (List ℕ) → NatDict (List ℕ)
gather [] p groups = groups
gather (node ∷ nodes) p groups =
    let (root, p') = find node p in
    gather nodes p' (put_key root (get_or (find_key root groups) [] ++ node ∷ []) groups)

abbrev pub numbers_from : ℕ → ℕ → List ℕ
numbers_from zero start = []
numbers_from (suc n) start = start ∷ numbers_from n (suc start)

-- `_connected_components`, as the dictionary of the groups by their roots
unfoldable pub connected_components : ℕ → List (ℕ × ℕ) → NatDict (List ℕ)
connected_components n edges = gather (numbers_from n 0) (unite n edges (λ x. x)) []
