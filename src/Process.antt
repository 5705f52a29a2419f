-- ===== src/Process.antt =====
-- src/unit/process.hpp: the processes of a unit, their output and their ends.
pub mod Pages
pub mod Reports
pub mod Tasks
mod Examples
use trctl.Base.{
  ℕ, zero, suc, ◌+◌, ◌-◌, ◌%◌, ◌^◌, min, Bool, true, false, Option, none, some, List, [], ◌∷◌, ◌++◌,
  ◌==◌, ltb, if◌then◌else◌, length, drop,
}
use trctl.Util.{Error, input_error}
use trctl.Async.Queue.{Queue, Done, enque, enque_all, deque_start}
use trctl.Async.Optional.{Optional, has_value, emplace}
use trctl.Async.Storage.{AsyncMap}
use trctl.Async.Storage.Map.{nat_key, find}

-- `proc_stream::evt_var`; a status is an `int64_t`, in two's complement.
pub data Evt : Type 0 where
  stdout_evt stderr_evt : List ℕ → Evt
  exit_evt : ℕ → Evt

-- What a move leaves: a `mem_buff` is empty afterwards, a status stays.
pub moved : Evt → Evt
moved (stdout_evt mem) = stdout_evt []
moved (stderr_evt mem) = stderr_evt []
moved (exit_evt status) = exit_evt status

-- `proc_stream`
pub record Stream : Type 0 where
  pub stream : Queue Evt
  pub exit_status : Optional ℕ

-- The operations that an event completes: those that wait for events, and those that wait for the exit.
pub record Woken : Type 0 where
  pub readers : Done Evt
  pub waiters : List (ℕ × ℕ)

-- The three overloads of `enque`.
pub enque_evt : Stream → Evt → Stream × Woken
unfolding moved
enque_evt p (stdout_evt mem) =
    let (q, woken) = enque p.stream (stdout_evt mem) in
    (record p { stream = q }, record { readers = woken; waiters = [] })
enque_evt p (stderr_evt mem) =
    let (q, woken) = enque p.stream (stderr_evt mem) in
    (record p { stream = q }, record { readers = woken; waiters = [] })
enque_evt p (exit_evt status) =
    let (e, ended) = emplace p.exit_status status in
    let (q, woken) = enque_all moved p.stream (exit_evt status) in
    (record { stream = q; exit_status = e }, record { readers = woken; waiters = ended })

-- `on_msg< is_err >`: the bytes that were read, or an error or the end, at which the pipe is closed.
pub on_msg : Bool → Stream → Option (List ℕ) → Stream × Woken
on_msg is_err p none = (p, record { readers = []; waiters = [] })
on_msg is_err p (some bytes) =
    if is_err then enque_evt p (stderr_evt bytes) else enque_evt p (stdout_evt bytes)

-- The conversion of an `int64_t` to an `int`, and back.
unfoldable pub narrowed : ℕ → ℕ
narrowed n = let low = n % 2 ^ 32 in if ltb low (2 ^ 31) then low else low + (2 ^ 64 - 2 ^ 32)

-- `options.exit_cb` and `on_exit` of the process `self`, which joins the list of finished processes.
pub on_exit : Stream → List ℕ → ℕ → ℕ → Stream × List ℕ × Woken
on_exit p finished_procs self exit_status =
    let (p', woken) = enque_evt p (exit_evt (narrowed exit_status)) in
    (p', finished_procs ++ (self ∷ []), woken)

-- How a request for progress starts: an answer, or the request waits for the next event.
pub data Progress : Type 0 where
  reported : Evt → Progress
  refused : Error → Progress
  waiting : Progress

-- The answer to a reader that got an event.
first_of : Done Evt → Progress
first_of [] = waiting
first_of ((op, evt) ∷ more) = reported evt

-- `task_progress` on the stream of a task; `op` is the operation that waits.
pub stream_progress : Stream → ℕ → Stream × Progress
unfolding first_of
stream_progress p op = elim (has_value p.exit_status) [
  | some status ↦ (p, reported (exit_evt status))
  | none ↦ let (q, got) = deque_start p.stream op in (record p { stream = q }, first_of got)
]

-- `proc`, with its stream; `spawned` says that `process.data` is not null.
pub record Proc : Type 0 where
  pub spawned : Bool
  pub stream : Stream

-- A process that is stored back.
pub stored : AsyncMap ℕ Proc → ℕ → Proc → AsyncMap ℕ Proc
stored m c p = record m { item = λ j. if c == j then p else m.item j }

-- `task_progress`
pub task_progress : AsyncMap ℕ Proc → ℕ → ℕ → AsyncMap ℕ Proc × Progress
unfolding stored
task_progress m task_id op = elim (find task_id m.m) [
  | none ↦ (m, refused input_error)
  | some c ↦
      let (p, answer) = stream_progress (m.item c).stream op in
      (stored m c (record { spawned = (m.item c).spawned; stream = p }), answer)
]

-- The loop of `task_list`, at some entries, with `room` places left.
list_from : {V : Type 0} → List (ℕ × V) → ℕ → List ℕ
list_from [] room = []
list_from (entry ∷ entries) zero = []
list_from (entry ∷ entries) (suc room) = entry.0 ∷ list_from entries room

-- `task_list`: the ids from the place `offset` on, at most `n` of them, the size of the output.
pub task_list : AsyncMap ℕ Proc → ℕ → ℕ → List ℕ
unfolding list_from
task_list m offset n = list_from (drop (min offset (length m.m)) m.m) n
