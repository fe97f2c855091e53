-- ===== src/Base/Dicts.antt =====
-- Python's `dict` with text keys, in insertion order: `d.get(k)`, `d[k] = v`, `k in d`.
use Prim.Native.Nat.{ℕ, ◌+◌}
use Prim.Native.String.{String}
use mathlib.Core.Path.{◌≡◌, refl, ap}
use mathlib.Core.Logic.{inl, inr}
use mathlib.Core.Bool.{false}
use mathlib.Core.Option.{Option, none, some}
use mathlib.Core.List.{List, [], ◌∷◌}
use native.Mathlib.Omega.{arith}
use mapear_rn.Base.Tests.{if◌then◌else◌, str_eq, eq_iff, eq_refl, eq_of_str_eq, Bool-cases}

abbrev pub Dict {ℓ} : Type ℓ → Type ℓ
Dict V = List (String × V)

module _ {ℓ} {V : Type ℓ} where
  unfoldable pub lookup : String → Dict V → Option V
  lookup k [] = none
  lookup k ((j, v) ∷ d) = if str_eq j k then some v else lookup k d

  unfoldable pub insert : String → V → Dict V → Dict V
  insert k v [] = (k, v) ∷ []
  insert k v ((j, w) ∷ d) = if str_eq j k then (j, v) ∷ d else (j, w) ∷ insert k v d

  pub lookup-insert :
      (k j : String) (v : V) (d : Dict V)
      → lookup j (insert k v d) ≡ (if str_eq k j then some v else lookup j d)
  unfolding lookup insert
  lookup-insert k j v [] = refl
  lookup-insert k j v ((i, w) ∷ d) =
      ground (arith, eq_iff k j, eq_iff i k, eq_iff i j, lookup-insert k j v d)

  pub lookup-insert_self : (k : String) (v : V) (d : Dict V) → lookup k (insert k v d) ≡ some v
  lookup-insert_self k v d = simp (lookup-insert, eq_refl)

  pub lookup-insert_ne :
      (k j : String) (v : V) (d : Dict V)
      → str_eq k j ≡ false
      → lookup j (insert k v d) ≡ lookup j d
  lookup-insert_ne k j v d h = ground (arith, lookup-insert k j v d)

-- `d.get(k, default)`
abbrev pub get_or {ℓ} : {V : Type ℓ} → Option V → V → V
get_or none d = d
get_or (some v) d = v

-- A counter that goes up by one, `d[k] = d.get(k, 0) + 1`, as every key reads it
pub lookup-recounted :
    (s k : String) (counts : Dict ℕ)
    → get_or (lookup s (insert k (get_or (lookup k counts) 0 + 1) counts)) 0
      ≡ get_or (lookup s counts) 0 + (if str_eq k s then 1 else 0)
lookup-recounted s k counts = elim (Bool-cases (str_eq k s)) [
  | inl e ↦ ground (
    arith,
    e,
    lookup-insert k s (get_or (lookup k counts) 0 + 1) counts,
    ap (λ i. get_or (lookup i counts) 0) (eq_of_str_eq k s e),
  )
  | inr n ↦ ground (arith, n, lookup-insert k s (get_or (lookup k counts) 0 + 1) counts)
]
