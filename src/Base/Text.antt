-- ===== src/Base/Text.antt =====
-- Rust's `String` and `&str` as the list of its code points.
use Prim.Native.Char.{code}
use Prim.Native.String.{String}
use Prim.Native.Nat.{ℕ, zero, suc, ◌+◌, ◌/◌, ◌%◌, compare, Ordering}
use mathlib.Core.List.{List, [], ◌∷◌, ◌++◌}

abbrev pub Text : Type 0
Text = List ℕ

-- A literal.
abbrev pub text : String → Text
text String.[] = []
text (String.◌∷◌ c s) = code c ∷ text s

-- The digits of `n`, on fuel; each round divides by ten.
digits : ℕ → ℕ → Text
digits zero n = []
digits (suc fuel) n = elim (compare n 10) [
  | Ordering.lt ↦ (48 + n) ∷ []
  | _ ↦ digits fuel (n / 10) ++ (48 + n % 10) ∷ []
]

-- `Display` of a number.
unfoldable pub decimal : ℕ → Text
unfolding digits
decimal n = digits (suc n) n
