-- ===== src/Async/Fifo.antt =====
-- `async_sender_fifo` of src/util/async_sender_fifo.hpp: one operation runs at a time.
pub mod Order
pub mod Cases
pub mod Sender
mod Examples
use trctl.Base.{ℕ, Option, none, some, List, [], ◌∷◌, ◌++◌}

pub record Fifo : Type 0 where
  pub waiters : List ℕ
  pub current : Option ℕ

abbrev pub idle : Fifo
idle = record { waiters = []; current = none }

-- `on_start`: the state, and the operation that `do_start` is called for.
pub on_start : Fifo → ℕ → Fifo × Option ℕ
on_start f op = elim f.current [
  | none ↦ (record f { current = some op }, some op)
  | some c ↦ (record f { waiters = f.waiters ++ (op ∷ []) }, none)
]

-- `on_end`, which each of `set_value`, `set_error` and `set_stopped` calls.
pub on_end : Fifo → Fifo × Option ℕ
on_end f = elim f.waiters [
  | [] ↦ (record f { current = none }, none)
  | op ∷ ws ↦ (record { waiters = ws; current = some op }, some op)
]
