-- ===== src/Async/Optional/Examples.antt =====
-- An `async_optional` at a short run.
use trctl.Base.{ℕ, ◌≡◌, ◌⊎◌, none, List, [], ◌∷◌, ◌++◌}
use trctl.Async.Optional.{empty}
use trctl.Async.Optional.Once.{Call, emplaces, starts, run, ops, latest, names, run-once}

abbrev calls : List (Call ℕ)
calls = starts 1 ∷ starts 2 ∷ emplaces 7 ∷ starts 3 ∷ []

run-once_example :
    (names (run empty calls).1 ++ (run empty calls).0.waiters ≡ ops calls)
    × ((run empty calls).0.opt ≡ latest none calls)
    × (((run empty calls).0.opt ≡ none) ⊎ ((run empty calls).0.waiters ≡ []))
run-once_example = run-once calls
