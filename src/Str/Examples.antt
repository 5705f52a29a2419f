-- ===== src/Str/Examples.antt =====
-- `fixed_str` at a buffer of six characters.
use trctl.Base.{ℕ, refl, List, [], ◌∷◌, arith}
use trctl.Str.{Buffer}
use trctl.Str.Path.{Holds}

-- The text "a/".
abbrev text : List ℕ
text = 97 ∷ 47 ∷ []

abbrev six : Buffer
six = 97 ∷ 47 ∷ 0 ∷ 9 ∷ 9 ∷ 9 ∷ []

six-Holds : Holds six text 6
six-Holds = record {
  rest = 9 ∷ 9 ∷ 9 ∷ [];
  buffer_is = refl;
  text = (omega arith, (omega arith, tt));
  size_is = refl;
}

abbrev piece : List ℕ
piece = 98 ∷ 98 ∷ 98 ∷ 98 ∷ []
