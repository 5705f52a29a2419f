-- ===== src/Async/Storage/Examples.antt =====
-- An `async_map` at short runs.
use trctl.Base.{ℕ, suc, ◌+◌, ◌<◌, ◌≡◌, refl, some, none, List, [], ◌∷◌, ◌++◌, arith, length}
use trctl.Async.Storage.{AsyncMap, shutdown, clear}
use trctl.Async.Storage.Map.{nat_key, tally}
use trctl.Async.Storage.Counts.{hit, count, among, alive, listed}
use trctl.Async.Storage.Lifetime.{
  Call, emplaces, erases, drops, ticks, destroy_ends, run, fresh, run-places,
}
use trctl.Async.Storage.Defects.{rounds, rounds-deletes, shutdown-never_woken, clear-never_ends}

abbrev calls : List (Call ℕ ℕ)
calls = emplaces 1 10 ∷ emplaces 2 20 ∷ drops 0 ∷ erases 1 ∷ ticks ∷ destroy_ends ∷ ticks ∷ []

abbrev items : ℕ → ℕ
items c = 0

run-places_example :
    ((run (fresh items) calls).s.cnt 0
      ≡ tally (hit 0) (run (fresh items) calls).s.m + count 0 (run (fresh items) calls).held)
    × (0 < (run (fresh items) calls).s.next
        → alive ((run (fresh items) calls).s.cnt 0)
            + (count 0 (run (fresh items) calls).s.to_del
                + (among 0 (run (fresh items) calls).s.destroy_task
                    + count 0 (run (fresh items) calls).s.deleted))
          ≡ 1)
run-places_example = run-places items calls 0 (omega arith)

-- Two entries in the map, and two cores queued.
abbrev queued : AsyncMap ℕ ℕ
queued = record {
  m = (1, 2) ∷ (2, 3) ∷ [];
  cnt = λ c. 1;
  item = items;
  next = 4;
  to_del = 0 ∷ 1 ∷ [];
  to_erase = none;
  destroy_task = none;
  deleted = [];
  woken = 0;
}

rounds-deletes_example :
    ((rounds (suc (length queued.to_del)) queued).deleted
      ≡ queued.deleted ++ (listed queued.destroy_task ++ queued.to_del))
    × ((rounds (suc (length queued.to_del)) queued).to_del ≡ [])
rounds-deletes_example = rounds-deletes queued refl

shutdown-never_woken_example : (rounds 9 (shutdown (λ es. es) queued).0).woken ≡ queued.woken
shutdown-never_woken_example = shutdown-never_woken (λ es. es) queued 9 refl

-- The last core is being destroyed.
abbrev busy : AsyncMap ℕ ℕ
busy = record queued { to_del = []; destroy_task = some 0 }

clear-never_ends_example : clear 1000 queued 3 ≡ none
clear-never_ends_example =
    clear-never_ends 1000 queued 1 2 3 ((2, 3) ∷ []) refl (λ e. absurd (omega arith))
