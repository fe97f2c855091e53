-- ===== src/Base/Text.antt =====
-- What the code uses of Python's texts: `a in b`, the number of UTF-8 bytes, joining, `str(n)`.
use Prim.Native.Nat.{ℕ, zero, suc, ◌/◌, ◌%◌}
use Prim.Native.String.{String, len, ◌++◌}
use mathlib.Core.Bool.{Bool, true, false}
use mathlib.Core.Option.{none, some}
use mathlib.Core.List.{List, [], ◌∷◌}
use text.Mathlib.Text.{find?}
use mapear_rn.Base.Tests.{ltb, if◌then◌else◌}

-- `needle in text`
abbrev pub is_in : String → String → Bool
is_in needle text = elim (find? text needle) [ none ↦ false | some _ ↦ true ]

abbrev pub byte_length : String → ℕ
byte_length = len

abbrev pub join : String → String → String
join = ◌++◌

nth : List String → ℕ → String
nth [] n = ""
nth (x ∷ xs) zero = x
nth (x ∷ xs) (suc n) = nth xs n

digit : ℕ → String
unfolding nth
digit = nth ("0" ∷ "1" ∷ "2" ∷ "3" ∷ "4" ∷ "5" ∷ "6" ∷ "7" ∷ "8" ∷ "9" ∷ [])

show_digits : ℕ → ℕ → String
unfolding digit
show_digits zero n = ""
show_digits (suc fuel) n =
    let rest = show_digits fuel (n / 10) in if ltb n 10 then digit n else join rest (digit (n % 10))

-- `str(n)`: a number has fewer digits than the fuel.
unfoldable pub show : ℕ → String
unfolding show_digits
show n = show_digits (suc n) n
