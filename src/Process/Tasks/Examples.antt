-- ===== src/Process/Tasks/Examples.antt =====
-- Tasks that start, and end twice, where the task 5 is known.
use trctl.Base.{
  List, ◌++◌, arith, ℕ, ◌+◌, ◌≡◌, refl, true, some, none, [], ◌∷◌, ◌==◌, if◌then◌else◌,
}
use trctl.Fs.Ops.{negative, done}
use trctl.Async.Storage.{AsyncMap}
use trctl.Async.Storage.Map.{nat_key, find, insert}
use trctl.Process.{Proc}
use trctl.Process.Tasks.{Os, proc, task_start, cancel_resumes}
use trctl.Process.Tasks.Start.{known, answered, task_start-find}
use trctl.Process.Tasks.Context.{ProcCtx, shutdown}
use trctl.Process.Tasks.Context.Kills.{rounds, Killed, shutdown-Killed}
use trctl.Process.Tasks.Cancel.{cancel_resumes-twice}

-- No process can be spawned. The state is how many calls were made.
abbrev os : Os ℕ
os = record {
  spawn = λ w c binary cwd args. (w + 1, negative 2);
  read_start = λ w c is_err. (w + 1, done 0);
  read_stop = λ w c is_err. w + 1;
  kill = λ w c. w + 1;
}

abbrev tasks : AsyncMap ℕ Proc
tasks = record {
  m = (5, 0) ∷ [];
  cnt = λ c. 1;
  item = λ c. record proc { spawned = true };
  next = 1;
  to_del = [];
  to_erase = none;
  destroy_task = none;
  deleted = [];
  woken = 0;
}

task_start-find_example :
    let (w, m, answer) = task_start os 0 tasks 6 (98 ∷ []) (119 ∷ []) [] in
    (answer ≡ answered (negative 2))
    × (find 6 m.m
        ≡ known (negative 2) (find 6 tasks.m) (if 6 == 6 then some tasks.next else find 6 tasks.m))
unfolding find
task_start-find_example =
    task_start-find os (negative 2) 0 1 tasks 6 6 (98 ∷ []) (119 ∷ []) [] refl refl

cancel_resumes-twice_example :
    (m : AsyncMap ℕ Proc) × (cancel_resumes tasks 5 0 ≡ some m)
    × (m.m ≡ [])
    × (cancel_resumes m 5 0 ≡ none)
unfolding find insert
cancel_resumes-twice_example = cancel_resumes-twice tasks [] 5 0 refl refl

-- The map is cleared from its end.
abbrev downwards : List (ℕ × ℕ) → List (ℕ × ℕ)
downwards [] = []
downwards (e ∷ es) = downwards es ++ (e ∷ [])

-- Two processes that run.
abbrev context : ProcCtx
context = record {
  procs = record tasks { m = (5, 0) ∷ (7, 1) ∷ []; next = 2 };
  finished_procs = [];
}

shutdown-Killed_example :
    let r = rounds os 0 (shutdown downwards context).0 ((1, 0) ∷ (2, 9) ∷ []) in
    Killed os 0 r.0 context.procs r.1.procs (1 ∷ 0 ∷ [])
shutdown-Killed_example =
    shutdown-Killed os 0 downwards context ((1, 0) ∷ (2, 9) ∷ []) refl refl
      ((omega arith, tt), (tt, tt)) (refl, (refl, tt)) refl
