-- ===== src/Process/Tasks/Context.antt =====
-- `proc_ctx` of src/unit/process.hpp: the map of the processes, the list of those that have finished, and how a
-- process that nothing points to any more is killed.
pub mod Taken
pub mod Kills
use trctl.Base.{
  ℕ, zero, suc, Bool, true, false, Option, none, some, List, [], ◌∷◌, ◌==◌, if◌then◌else◌, length,
}
use trctl.Slots.{without}
use trctl.Async.Storage.{AsyncMap, tick, destroy_ended}
use trctl.Async.Storage as Storage
use trctl.Process.{Stream, Proc, stored, on_exit}
use trctl.Process.Tasks.{Os, destroy}

-- A process is the core that holds it.
pub record ProcCtx : Type 0 where
  pub procs : AsyncMap ℕ Proc
  pub finished_procs : List ℕ

-- `clear_procs`, for as many rounds as the list has processes: the first is taken, and removed wherever it is.
clear_procs : ℕ → List ℕ → List ℕ
clear_procs rounds [] = []
clear_procs zero (p ∷ ps) = p ∷ ps
clear_procs (suc rounds) (p ∷ ps) = clear_procs rounds (without p ps)

-- `tick` of the context.
pub tick_ctx : ProcCtx → ProcCtx
unfolding clear_procs
tick_ctx s = record s { finished_procs = clear_procs (length s.finished_procs) s.finished_procs }

-- `shutdown`, and whether it waits; `order` is that in which the map is cleared.
pub shutdown : (List (ℕ × ℕ) → List (ℕ × ℕ)) → ProcCtx → ProcCtx × Bool
shutdown order s =
    let (procs, wait) = Storage.shutdown order s.procs in (record s { procs = procs }, wait)

-- The core that a tick starts to destroy: a task that still runs is left alone.
started : AsyncMap ℕ Proc → Option ℕ
started m = elim m.to_erase [
  | some d ↦ (tick m).destroy_task
  | none ↦ elim m.destroy_task [ none ↦ (tick m).destroy_task | some d ↦ none ]
]

module _ {W : Type 0} (os : Os W) where
  -- `tick` of the map, whose `do_destroy` of a process is `destroy`; `op` is the operation that waits for its exit.
  pub tick_procs : W → AsyncMap ℕ Proc → ℕ → W × AsyncMap ℕ Proc
  unfolding started
  tick_procs w m op =
      let m' = tick m in
      elim (started m) [
        | none ↦ (w, m')
        | some c ↦
            let (w', p, gone) = destroy os w c (m'.item c) op in
            let m'' = stored m' c p in if gone then (w', destroy_ended m'') else (w', m'')
      ]

-- The rest of `destroy`, when the process has exited.
resume_destroy : AsyncMap ℕ Proc → ℕ → AsyncMap ℕ Proc
resume_destroy m c =
    destroy_ended (stored m c (record { spawned = false; stream = (m.item c).stream }))

-- The process in the core `c` exits; a task that destroys it goes on.
pub exits : ProcCtx → ℕ → ℕ → ProcCtx
unfolding resume_destroy
exits s c status =
    let (p, finished_procs, woken) = on_exit (s.procs.item c).stream s.finished_procs c status in
    let m = stored s.procs c (record { spawned = (s.procs.item c).spawned; stream = p }) in
    elim m.to_erase [
      | some d ↦ record { procs = m; finished_procs = finished_procs }
      | none ↦ elim m.destroy_task [
        | none ↦ record { procs = m; finished_procs = finished_procs }
        | some d ↦
            if d == c
            then record { procs = resume_destroy m c; finished_procs = finished_procs }
            else record { procs = m; finished_procs = finished_procs }
      ]
    ]
