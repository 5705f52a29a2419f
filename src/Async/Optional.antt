-- ===== src/Async/Optional.antt =====
-- `async_optional` of src/util/async_optional.hpp: a value that operations wait for.
pub mod Once
mod Examples
use trctl.Base.{ℕ, Option, none, some, List, [], ◌∷◌, ◌++◌, map}

pub record Optional {ℓ} (T : Type ℓ) : Type ℓ where
  pub opt : Option T
  pub waiters : List ℕ

module _ {ℓ} {T : Type ℓ} where
  abbrev pub empty : Optional T
  empty = record { opt = none; waiters = [] }

  unfoldable pub has_value : Optional T → Option T
  has_value o = o.opt

  -- The value is stored, then every waiter gets it, the first to wait first.
  unfoldable pub emplace : Optional T → T → Optional T × List (ℕ × T)
  emplace o value = (record o { opt = some value; waiters = [] }, map (λ w. (w, value)) o.waiters)

  -- `_op::start`
  unfoldable pub start : Optional T → ℕ → Optional T × List (ℕ × T)
  start o op = elim o.opt [
    | some value ↦ (o, (op, value) ∷ [])
    | none ↦ (record o { waiters = o.waiters ++ (op ∷ []) }, [])
  ]
