-- ===== src/Base/Keyed.antt =====
-- Python's `dict` with number keys, in insertion order, and sets of numbers as lists.
use Prim.Native.Nat.{ℕ}
use mathlib.Core.Path.{◌≡◌, refl}
use mathlib.Core.Bool.{Bool, false, ◌||◌}
use mathlib.Core.Option.{Option, none, some}
use mathlib.Core.List.{List, [], ◌∷◌}
use native.Mathlib.Omega.{arith}
use mapear_rn.Base.Tests.{if◌then◌else◌, ◌==◌}

-- `k in s`
abbrev pub has : ℕ → List ℕ → Bool
has k [] = false
has k (x ∷ xs) = (x == k) || has k xs

abbrev pub NatDict {ℓ} : Type ℓ → Type ℓ
NatDict V = List (ℕ × V)

module _ {ℓ} {V : Type ℓ} where
  unfoldable pub find_key : ℕ → NatDict V → Option V
  find_key k [] = none
  find_key k ((j, v) ∷ d) = if j == k then some v else find_key k d

  unfoldable pub put_key : ℕ → V → NatDict V → NatDict V
  put_key k v [] = (k, v) ∷ []
  put_key k v ((j, w) ∷ d) = if j == k then (j, v) ∷ d else (j, w) ∷ put_key k v d

  pub find_key-put_key :
      (k j : ℕ) (v : V) (d : NatDict V)
      → find_key j (put_key k v d) ≡ (if k == j then some v else find_key j d)
  unfolding find_key put_key
  find_key-put_key k j v [] = refl
  find_key-put_key k j v ((i, w) ∷ d) = ground (arith, find_key-put_key k j v d)
