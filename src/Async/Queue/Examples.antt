-- ===== src/Async/Queue/Examples.antt =====
-- An `async_queue` at a short run.
use trctl.Base.{ℕ, ◌≡◌, List, [], ◌∷◌, length, drop}
use trctl.Async.Queue.{empty}
use trctl.Async.Queue.History.{Call, deques, enques, run, ops, items, pairs, run-history}

abbrev calls : List (Call ℕ)
calls = deques 1 ∷ enques 5 ∷ enques 6 ∷ []

run-history_example :
    ((run empty calls).1 ≡ pairs (ops calls) (items calls))
    × ((run empty calls).0.queue ≡ drop (length (ops calls)) (items calls))
    × ((run empty calls).0.deque_waiters ≡ drop (length (items calls)) (ops calls))
run-history_example = run-history calls
