-- ===== src/Process/Tasks.antt =====
-- The start and the end of the tasks of src/unit/process.hpp.
pub mod Start
pub mod Cancel
pub mod Context
mod Examples
use trctl.Base.{
  ℕ, zero, suc, Bool, true, false, not, Option, none, some, List, [], ◌∷◌, ◌==◌, if◌then◌else◌,
}
use trctl.Util.{input_error, libuv_error}
use trctl.Fs.Ops.{Result, negative, done}
use trctl.Fs.Disk.{Outcome, value, failure}
use trctl.Async.Queue.{Queue}
use trctl.Async.Optional.{Optional}
use trctl.Async.Optional as Optionals
use trctl.Async.Storage.{AsyncMap, try_emplace, erase}
use trctl.Async.Storage.Map.{nat_key, find}
use trctl.Process.{Stream, Proc, stored}

-- libuv, whose state is a `W`. A pipe is the error output where the Boolean says so; a process is the core
-- that holds it.
pub record Os (W : Type 0) : Type 0 where
  pub spawn : W → ℕ → List ℕ → List ℕ → List (List ℕ) → W × Result
  pub read_start : W → ℕ → Bool → W × Result
  pub read_stop : W → ℕ → Bool → W
  pub kill : W → ℕ → W

-- The constructor; it leaves `process.data` to `start`.
abbrev pub proc : Proc
proc = record {
  spawned = false;
  stream = record {
    stream = record { queue = []; deque_waiters = [] };
    exit_status = record { opt = none; waiters = [] };
  };
}

-- How a request to cancel goes on: it has ended, or it waits for the exit of the process.
pub data Cancelled (S : Type 0) : Type 0 where
  ended : S → Outcome (Unit {0}) → Cancelled S
  waits : S → Cancelled S

module _ {W : Type 0} (os : Os W) where
  -- `proc::start` of the process in the core `c`: that a pipe cannot be read is only logged.
  pub proc_start : W → ℕ → Proc → List ℕ → List ℕ → List (List ℕ) → W × Proc × Bool
  proc_start w c p binary cwd args =
      let (w', spawned) = os.spawn w c binary cwd args in
      elim spawned [
        | negative e ↦ (w', record p { spawned = false }, false)
        | done n ↦
            let (w1, r1) = os.read_start w' c false in
            let (w2, r2) = os.read_start w1 c true in (w2, record p { spawned = true }, true)
      ]

  -- `task_start`
  pub task_start :
      W
      → AsyncMap ℕ Proc
      → ℕ
      → List ℕ
      → List ℕ
      → List (List ℕ)
      → W × AsyncMap ℕ Proc × Outcome (Unit {0})
  unfolding proc_start
  task_start w m task_id binary cwd args =
      let (m', c, inserted) = try_emplace m task_id proc in
      if not inserted
      then (w, m', failure input_error)
      else let (w', p, started) = proc_start w c (m'.item c) binary cwd args in
        if not started
        then (w', erase (stored m' c p) task_id, failure libuv_error)
        else (w', stored m' c p, value tt)

  -- `destroy( proc )`: a process that runs is killed, and the operation `op` waits for its exit.
  pub destroy : W → ℕ → Proc → ℕ → W × Proc × Bool
  destroy w c p op =
      if not p.spawned
      then (w, p, true)
      else let w' = os.kill (os.read_stop (os.read_stop w c false) c true) c in
        let (e, got) = Optionals.start p.stream.exit_status op in
        elim got [
          | [] ↦ (w', record p { stream = record p.stream { exit_status = e } }, false)
          | x ∷ more ↦ (w', record p { spawned = false }, true)
        ]

  -- `task_cancel`
  pub task_cancel : W → AsyncMap ℕ Proc → ℕ → ℕ → Cancelled (W × AsyncMap ℕ Proc)
  unfolding destroy
  task_cancel w m task_id op = elim (find task_id m.m) [
    | none ↦ ended (w, m) (failure input_error)
    | some c ↦
        let (w', p, gone) = destroy w c (m.item c) op in
        if gone
        then ended (w', erase (stored m c p) task_id) (value tt)
        else waits (w', stored m c p)
  ]

-- The rest of `task_cancel` for the core `c`, after it has waited: `erase( it )`, where `it` is the entry that
-- was found before. `none`: that entry is gone, and the behaviour is undefined.
pub cancel_resumes : AsyncMap ℕ Proc → ℕ → ℕ → Option (AsyncMap ℕ Proc)
cancel_resumes m task_id c = elim (find task_id m.m) [
  | none ↦ none
  | some d ↦
      if d == c
      then some
          (erase (stored m c (record { spawned = false; stream = (m.item c).stream })) task_id)
      else none
]
