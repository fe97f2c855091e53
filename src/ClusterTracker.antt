-- ===== src/ClusterTracker.antt =====
-- libs/mapear-nlp/src/mapear_nlp/graph/cluster_tracker.py: the same squad on adjacent days.
-- A Jaccard index is the exact fraction of two counts, compared by cross-multiplication, and so
-- is the threshold; a date is a number of days.
pub mod Order
pub mod Matching
pub mod Stability
pub mod Guarantee
mod Tests
use mapear_rn.Base.{
  ℕ, zero, suc, ◌+◌, ◌*◌, String, Bool, true, false, ◌&&◌, ◌||◌, not, Option, none, some, List, [],
  ◌∷◌, ◌++◌, ltb, leb, ◌==◌, str_eq, if◌then◌else◌, length, count, has, NatDict, find_key, put_key,
  get_or,
}

pub record AuthorKey : Type 0 where
  pub platform : String
  pub author_id : String

abbrev key_eq : AuthorKey → AuthorKey → Bool
key_eq a b = str_eq a.platform b.platform && str_eq a.author_id b.author_id

abbrev pub has_member : AuthorKey → List AuthorKey → Bool
has_member k [] = false
has_member k (x ∷ xs) = key_eq x k || has_member k xs

-- `frozenset(members)`: each member once
unfoldable pub frozenset : List AuthorKey → List AuthorKey
frozenset [] = []
frozenset (k ∷ ks) = let rest = frozenset ks in if has_member k rest then rest else k ∷ rest

-- `models`: `CommunityStats`, as far as the tracker reads it
pub record CommunityStats : Type 0 where
  pub community_id : ℕ
  pub members : List AuthorKey

pub record Fraction : Type 0 where
  pub num : ℕ
  pub den : ℕ

unfoldable pub le_fraction : Fraction → Fraction → Bool
le_fraction a b = leb (a.num * b.den) (b.num * a.den)

unfoldable pub jaccard_members : List AuthorKey → List AuthorKey → Fraction
jaccard_members a b =
    let common = count (λ k. has_member k b) a in
    let union = length a + count (λ k. not (has_member k a)) b in
    if union == 0 then record { num = 0; den = 1 } else record { num = common; den = union }

pub record Scored : Type 0 where
  pub score : Fraction
  pub tid : ℕ
  pub yid : ℕ

-- `{c.community_id: frozenset(c.members) for c in communities}`
unfoldable pub sets_by_id :
    List CommunityStats → NatDict (List AuthorKey) → NatDict (List AuthorKey)
sets_by_id [] acc = acc
sets_by_id (c ∷ cs) acc = sets_by_id cs (put_key c.community_id (frozenset c.members) acc)

score_row : Fraction → ℕ → List AuthorKey → NatDict (List AuthorKey) → List Scored
score_row threshold tid t [] = []
score_row threshold tid t ((yid, y) ∷ ys) =
    let rest = score_row threshold tid t ys in
    if le_fraction threshold (jaccard_members t y)
    then record { score = jaccard_members t y; tid = tid; yid = yid } ∷ rest
    else rest

unfoldable pub score_all :
    Fraction → NatDict (List AuthorKey) → NatDict (List AuthorKey) → List Scored
unfolding score_row
score_all threshold [] ys = []
score_all threshold ((tid, t) ∷ ts) ys = score_row threshold tid t ys ++ score_all threshold ts ys

pub place : Scored → List Scored → List Scored
place e [] = e ∷ []
place e (x ∷ xs) = if le_fraction x.score e.score then e ∷ x ∷ xs else x ∷ place e xs

-- `scored.sort(key=lambda x: -x[0])`: Python's sort is stable.
unfoldable pub sort_scored : List Scored → List Scored
unfolding place
sort_scored [] = []
sort_scored (e ∷ es) = place e (sort_scored es)

-- The greedy loop over the scored pairs.
unfoldable pub greedy : List Scored → List ℕ → List ℕ → NatDict (Option ℕ) → NatDict (Option ℕ)
greedy [] matched_today matched_yesterday assignment = assignment
greedy (e ∷ es) matched_today matched_yesterday assignment =
    let next =
      greedy es (e.tid ∷ matched_today) (e.yid ∷ matched_yesterday)
        (put_key e.tid (some e.yid) assignment) in
    let skip = greedy es matched_today matched_yesterday assignment in
    if has e.tid matched_today || has e.yid matched_yesterday then skip else next

-- `if c.community_id not in assignment: assignment[c.community_id] = None`
unfoldable pub fill_one : CommunityStats → NatDict (Option ℕ) → NatDict (Option ℕ)
fill_one c assignment = elim (find_key c.community_id assignment) [
  | none ↦ put_key c.community_id none assignment
  | some _ ↦ assignment
]

unfoldable pub fill_none : List CommunityStats → NatDict (Option ℕ) → NatDict (Option ℕ)
fill_none [] assignment = assignment
fill_none (c ∷ cs) assignment = fill_none cs (fill_one c assignment)

all_none : List CommunityStats → NatDict (Option ℕ) → NatDict (Option ℕ)
all_none [] acc = acc
all_none (c ∷ cs) acc = all_none cs (put_key c.community_id none acc)

-- The greedy assignment, when there are communities on both days.
unfoldable pub match_both :
    List CommunityStats → List CommunityStats → Fraction → NatDict (Option ℕ)
match_both today yesterday threshold = fill_none today (
    greedy (sort_scored (score_all threshold (sets_by_id today []) (sets_by_id yesterday []))) [] []
      [])

unfoldable pub match_communities :
    List CommunityStats → List CommunityStats → Fraction → NatDict (Option ℕ)
unfolding all_none match_both
match_communities [] yesterday threshold = []
match_communities (c ∷ cs) [] threshold = all_none (c ∷ cs) []
match_communities (c ∷ cs) (y ∷ ys) threshold = match_both (c ∷ cs) (y ∷ ys) threshold
