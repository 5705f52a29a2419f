-- ===== src/Folder/Names.antt =====
-- How the names of folders are compared: as arrays by the map, as C strings by `find`.
pub mod Search
use trctl.Base.{
  ◌+◌, ◌%◌, ℕ, ◌≡◌, refl, ◌↔◌, Bool, true, false, Option, none, some, List, [], ◌∷◌, ◌==◌, ltb,
  if◌then◌else◌, arith,
}
use trctl.Str.{str}
use trctl.Async.Storage.Map.{Key}

unfoldable pub same_text : List ℕ → List ℕ → Bool
same_text [] [] = true
same_text [] (d ∷ ds) = false
same_text (c ∷ cs) [] = false
same_text (c ∷ cs) (d ∷ ds) = let rest = same_text cs ds in if c == d then rest else false

pub same_text_iff : (a b : List ℕ) → (same_text a b ≡ true) ↔ (a ≡ b)
unfolding same_text
same_text_iff [] [] = ((λ h. refl), (λ h. refl))
same_text_iff [] (d ∷ ds) = ((λ h. cc), (λ h. cc))
same_text_iff (c ∷ cs) [] = ((λ h. cc), (λ h. cc))
same_text_iff (c ∷ cs) (d ∷ ds) =
    ((λ h. ground (arith, same_text_iff cs ds)), (λ h. ground (arith, same_text_iff cs ds)))

-- `operator<=>` on the arrays: the first characters that differ decide, as those of a `char`, which has a sign.
unfoldable pub signed : ℕ → ℕ
signed c = (c + 128) % 256

pub less_text : List ℕ → List ℕ → Bool
unfolding signed
less_text [] [] = false
less_text [] (d ∷ ds) = true
less_text (c ∷ cs) [] = false
less_text (c ∷ cs) (d ∷ ds) =
    let rest = less_text cs ds in if c == d then rest else ltb (signed c) (signed d)

instance abbrev pub name_key : Key (List ℕ)
name_key = record { same = same_text; less = less_text; same_iff = same_text_iff }

-- `strcmp` on two texts: it takes characters to have no sign.
pub data Order : Type 0 where
  lesser equal greater : Order

unfoldable pub strcmp : List ℕ → List ℕ → Order
strcmp [] [] = equal
strcmp [] (d ∷ ds) = lesser
strcmp (c ∷ cs) [] = greater
strcmp (c ∷ cs) (d ∷ ds) =
    let rest = strcmp cs ds in if c == d then rest else if ltb c d then lesser else greater

-- The array has a 0, so that it is a C string.
unfoldable pub is_ended : List ℕ → Bool
is_ended [] = false
is_ended (c ∷ cs) = let rest = is_ended cs in if c == 0 then true else rest

-- What `find` of a C string gives. It searches the tree that `operator<=>` has built with another comparison,
-- `strcmp`. What it gives is only specified if the keys that are less than the name come first, then one that is equal, if
-- there is one, and then those that are greater; and `strcmp` of an array that has no 0 is undefined.
pub data Lookup : Type 0 where
  found : ℕ → Lookup
  missing unspecified : Lookup

unfoldable pub all_after : List ℕ → List (List ℕ × ℕ) → Bool
unfolding strcmp
all_after n [] = true
all_after n ((key, c) ∷ m) =
    let rest = all_after n m in
    elim (is_ended key) [
      | false ↦ false
      | true ↦ elim (strcmp (str key) n) [ lesser ↦ false | equal ↦ false | greater ↦ rest ]
    ]

unfoldable pub find_name : List ℕ → List (List ℕ × ℕ) → Lookup
unfolding strcmp all_after
find_name n [] = missing
find_name n ((key, c) ∷ m) =
    let rest = find_name n m in
    let after = all_after n m in
    elim (is_ended key) [
      | false ↦ unspecified
      | true ↦ elim (strcmp (str key) n) [
        | lesser ↦ rest
        | equal ↦ if after then found c else unspecified
        | greater ↦ if after then missing else unspecified
      ]
    ]

-- The key of the entry that it finds.
unfoldable pub find_key : List ℕ → List (List ℕ × ℕ) → Option (List ℕ)
find_key n [] = none
find_key n ((key, c) ∷ m) =
    let rest = find_key n m in if same_text (str key) n then some key else rest
