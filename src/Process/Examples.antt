-- ===== src/Process/Examples.antt =====
-- Processes at short runs.
use trctl.Base.{
  some, ℕ, ◌≡◌, none, true, true, false, Bool, List, [], ◌∷◌, map, length, take, drop, arith,
}
use trctl.Async.Storage.{AsyncMap}
use trctl.Process.{Proc, exit_evt, reported, narrowed, on_exit}
use trctl.Process.Pages.{pages, task_list-pages, keys}
use trctl.Process.Reports.{
  running, writes, asks, event, asks-writes, Later, reads, requests, answers, requested,
  answers-on_exit,
}

abbrev outputs : List (Bool × List ℕ)
outputs = (false, 104 ∷ []) ∷ (true, 105 ∷ []) ∷ []

abbrev ops : List ℕ
ops = 1 ∷ 2 ∷ []

asks-writes_example :
    asks (writes (running []) outputs) ops
    ≡ map (λ e. reported e) (take (length ops) (map event outputs))
asks-writes_example = asks-writes outputs ops (omega arith)

abbrev later : List Later
later = requests 1 ∷ reads true (some (104 ∷ [])) ∷ reads false none ∷ requests 2 ∷ []

answers-on_exit_example :
    answers (on_exit (running []) [] 2 7).0 later
    ≡ map (λ r. reported (exit_evt (narrowed 7))) (requested later)
answers-on_exit_example = answers-on_exit (running []) [] 2 7 later

abbrev tasks : AsyncMap ℕ Proc
tasks = record {
  m = (3, 0) ∷ (5, 1) ∷ (9, 2) ∷ [];
  cnt = λ c. 1;
  item = λ c. record { spawned = true; stream = running [] };
  next = 3;
  to_del = [];
  to_erase = none;
  destroy_task = none;
  deleted = [];
  woken = 0;
}

task_list-pages_example : pages tasks 1 0 4 ≡ drop 0 (keys tasks.m)
task_list-pages_example = task_list-pages tasks 1 0 4 (omega arith)
