-- ===== src/Async/Storage/Map.antt =====
-- `std::map`: entries in the order of their keys.
use trctl.Base.{
  ℕ, suc, ◌+◌, ◌≡◌, refl, ◌↔◌, Bool, true, Option, none, some, List, [], ◌∷◌, ◌==◌, ltb,
  if◌then◌else◌, arith, length,
}

-- How keys are compared.
pub record Key (K : Type 0) : Type 0 where
  pub same : K → K → Bool
  pub less : K → K → Bool
  pub same_iff : (a b : K) → (same a b ≡ true) ↔ (a ≡ b)

pub nat_same_iff : (a b : ℕ) → ((a == b) ≡ true) ↔ (a ≡ b)
nat_same_iff a b = ((λ h. ground arith), (λ e. ground arith))

instance abbrev pub nat_key : Key ℕ
nat_key = record { same = λ a b. a == b; less = ltb; same_iff = nat_same_iff }

module _ {K V : Type 0} where
  -- The sum of `f` over the values.
  unfoldable pub tally : (V → ℕ) → List (K × V) → ℕ
  tally f [] = 0
  tally f ((k, v) ∷ m) = f v + tally f m

module _ {K V : Type 0} ⦃key : Key K⦄ where
  unfoldable pub find : K → List (K × V) → Option V
  find k [] = none
  find k ((j, v) ∷ m) = if key.same j k then some v else find k m

  -- `emplace_hint` of a key that is not there.
  unfoldable pub insert : K → V → List (K × V) → List (K × V)
  insert k v [] = (k, v) ∷ []
  insert k v ((j, w) ∷ m) = if key.less j k then (j, w) ∷ insert k v m else (k, v) ∷ (j, w) ∷ m

  -- `erase` of the entry that `find` finds.
  unfoldable pub remove : K → List (K × V) → List (K × V)
  remove k [] = []
  remove k ((j, v) ∷ m) = if key.same j k then m else (j, v) ∷ remove k m

  -- Lookup after the insertion of a key that was not there.
  pub find-insert :
      (k j : K) (v : V) (m : List (K × V))
      → find k m ≡ none
      → find j (insert k v m) ≡ (if key.same k j then some v else find j m)
  unfolding find insert
  find-insert k j v [] h = refl
  find-insert k j v ((i, w) ∷ m) h =
      ground (arith, key.same_iff k j, key.same_iff i k, key.same_iff i j, find-insert k j v m)

  pub tally-insert :
      (f : V → ℕ) (k : K) (v : V) (m : List (K × V)) → tally f (insert k v m) ≡ f v + tally f m
  unfolding tally insert
  tally-insert f k v [] = refl
  tally-insert f k v ((i, w) ∷ m) = ground (arith, tally-insert f k v m)

  pub tally-remove :
      (f : V → ℕ) (k : K) (v : V) (m : List (K × V))
      → find k m ≡ some v
      → tally f m ≡ f v + tally f (remove k m)
  unfolding tally find remove
  tally-remove f k v [] h = cc
  tally-remove f k v ((i, w) ∷ m) h = ground (arith, tally-remove f k v m)

  pub length-insert : (k : K) (v : V) (m : List (K × V)) → length (insert k v m) ≡ suc (length m)
  unfolding insert
  length-insert k v [] = refl
  length-insert k v ((i, w) ∷ m) = ground (arith, length-insert k v m)

  pub length-remove :
      (k : K) (v : V) (m : List (K × V)) → find k m ≡ some v → length m ≡ suc (length (remove k m))
  unfolding find remove
  length-remove k v [] h = cc
  length-remove k v ((i, w) ∷ m) h = ground (arith, length-remove k v m)

  -- A key that was not there, inserted and removed.
  pub remove-insert :
      (k : K) (v : V) (m : List (K × V)) → find k m ≡ none → remove k (insert k v m) ≡ m
  unfolding find insert remove
  remove-insert k v [] h = ground (arith, key.same_iff k k)
  remove-insert k v ((i, w) ∷ m) h =
      ground (arith, key.same_iff k k, key.same_iff i k, remove-insert k v m)
