-- ===== src/Async/Fifo/Examples.antt =====
-- An `async_sender_fifo` at a short run.
use trctl.Base.{ℕ, ◌+◌, ◌≡◌, List, [], ◌∷◌, ◌++◌}
use trctl.Async.Fifo.Sender.{set_value, set_error}
use trctl.Async.Fifo.Sender.Serial.{
  submits, completed, ended, listed, one_by_one, reached, unused, run-one_by_one,
}
use trctl.Async.Fifo.Sender.Serial as Serial

-- The shared state is a log, and a receiver submits one more operation.
abbrev begins : ℕ → List ℕ → List ℕ
begins op log = log ++ (op ∷ [])

abbrev completes : ℕ → List ℕ → List ℕ
completes op log = log ++ ((op + 100) ∷ [])

abbrev wrapped : List Serial.Event
wrapped = submits 1 ∷ submits 2 ∷ completed set_value (3 ∷ []) ∷ completed set_error [] ∷ []

run-one_by_one_example :
    let r = Serial.run begins completes (unused begins completes []) wrapped in
    (ended r ++ (listed r.fifo.current ++ r.fifo.waiters) ≡ Serial.submitted wrapped)
    × (r.state ≡ reached begins completes (ended r) r.fifo.current [])
run-one_by_one_example = run-one_by_one begins completes [] wrapped
