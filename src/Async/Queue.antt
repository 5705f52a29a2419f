-- ===== src/Async/Queue.antt =====
-- `async_queue` of src/util/async_queue.hpp. An operation that waits is a number; the effect of a step
-- is the list of operations that it completes, each with the item that it gets.
-- A completed operation does not come back to the queue before the step is over.
pub mod History
mod Examples
use trctl.Base.{ℕ, List, [], ◌∷◌, ◌++◌}

pub record Queue {ℓ} (T : Type ℓ) : Type ℓ where
  pub queue : List T
  pub deque_waiters : List ℕ

abbrev pub Done {ℓ} : Type ℓ → Type ℓ
Done T = List (ℕ × T)

module _ {ℓ} {T : Type ℓ} where
  abbrev pub empty : Queue T
  empty = record { queue = []; deque_waiters = [] }

  unfoldable pub enque : Queue T → T → Queue T × Done T
  enque q item = elim q.deque_waiters [
    | [] ↦ (record q { queue = q.queue ++ (item ∷ []) }, [])
    | w ∷ ws ↦ (record q { deque_waiters = ws }, (w, item) ∷ [])
  ]

  -- `do_start` moves the item into the receiver, so that the next waiter gets what a move leaves.
  hand_out : (T → T) → T → List ℕ → Done T
  hand_out moved item [] = []
  hand_out moved item (w ∷ ws) = (w, item) ∷ hand_out moved (moved item) ws

  unfoldable pub enque_all : (T → T) → Queue T → T → Queue T × Done T
  unfolding hand_out
  enque_all moved q item = elim q.deque_waiters [
    | [] ↦ (record q { queue = q.queue ++ (item ∷ []) }, [])
    | w ∷ ws ↦ (record q { deque_waiters = [] }, hand_out moved item (w ∷ ws))
  ]

  -- `_op::start`
  unfoldable pub deque_start : Queue T → ℕ → Queue T × Done T
  deque_start q op = elim q.queue [
    | [] ↦ (record q { deque_waiters = q.deque_waiters ++ (op ∷ []) }, [])
    | item ∷ rest ↦ (record q { queue = rest }, (op, item) ∷ [])
  ]
