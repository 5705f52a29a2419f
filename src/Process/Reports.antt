-- ===== src/Process/Reports.antt =====
-- What the requests for progress of src/unit/process.hpp report.
use trctl.Base.{
  true, false, Option, ℕ, ◌≤◌, ◌≡◌, refl, sym, ap, ◌∙◌, Bool, none, some, List, [], ◌∷◌, ◌++◌, map,
  length, take, append-nil, append_assoc, arith, if◌then◌else◌,
}
use trctl.Async.Queue.{enque, deque_start}
use trctl.Async.Optional.{emplace, has_value}
use trctl.Process.{
  Evt, stdout_evt, stderr_evt, exit_evt, Stream, enque_evt, on_msg, on_exit, narrowed, Progress,
  reported, stream_progress, first_of,
}

-- The process writes, to its error output where the Boolean says so.
abbrev pub writes : Stream → List (Bool × List ℕ) → Stream
writes p [] = p
writes p ((is_err, bytes) ∷ more) = writes (on_msg is_err p (some bytes)).0 more

-- The answers to requests for progress, one after the other.
abbrev pub asks : Stream → List ℕ → List Progress
asks p [] = []
asks p (op ∷ ops) = let (p', answer) = stream_progress p op in answer ∷ asks p' ops

abbrev pub event : Bool × List ℕ → Evt
event (is_err, bytes) = if is_err then stderr_evt bytes else stdout_evt bytes

-- A running process with the events `evts` queued, for which nobody waits.
abbrev pub running : List Evt → Stream
running evts = record {
  stream = record { queue = evts; deque_waiters = [] };
  exit_status = record { opt = none; waiters = [] };
}

on_msg-running :
    (evts : List Evt) (is_err : Bool) (bytes : List ℕ)
    → (on_msg is_err (running evts) (some bytes)).0 ≡ running (evts ++ (event (is_err, bytes) ∷ []))
unfolding on_msg enque_evt enque
on_msg-running evts is_err bytes = ground arith

writes-running :
    (outputs : List (Bool × List ℕ)) (evts : List Evt)
    → writes (running evts) outputs ≡ running (evts ++ map event outputs)
writes-running [] evts = ap running (sym (append-nil evts))
writes-running ((is_err, bytes) ∷ more) evts =
    ap (λ p. writes p more) (on_msg-running evts is_err bytes)
    ∙ writes-running more (evts ++ (event (is_err, bytes) ∷ []))
    ∙ ap running (append_assoc evts (event (is_err, bytes) ∷ []) (map event more))

asks-running :
    (ops : List ℕ) (evts : List Evt)
    → length ops ≤ length evts
    → asks (running evts) ops ≡ map (λ e. reported e) (take (length ops) evts)
unfolding stream_progress first_of deque_start has_value
asks-running [] evts h = refl
asks-running (op ∷ ops) [] h = absurd (omega arith)
asks-running (op ∷ ops) (e ∷ evts) h =
    ap (λ t. reported e ∷ t) (asks-running ops evts (omega arith))

-- While a process runs, requests for progress report what it wrote, piece by piece, in order, if there
-- are no more requests than pieces.
pub asks-writes :
    (outputs : List (Bool × List ℕ)) (ops : List ℕ)
    → length ops ≤ length (map event outputs)
    → asks (writes (running []) outputs) ops
      ≡ map (λ e. reported e) (take (length ops) (map event outputs))
asks-writes outputs ops h =
    ap (λ p. asks p ops) (writes-running outputs []) ∙ asks-running ops (map event outputs) h

-- What happens to a process after its exit: a pipe still has output, or comes to its end, and requests for progress.
pub data Later : Type 0 where
  reads : Bool → Option (List ℕ) → Later
  requests : ℕ → Later

-- The answers to the requests.
abbrev pub answers : Stream → List Later → List Progress
answers p [] = []
answers p (reads is_err bytes ∷ more) = answers (on_msg is_err p bytes).0 more
answers p (requests op ∷ more) = let (p', answer) = stream_progress p op in answer ∷ answers p' more

-- How many requests there are.
abbrev pub requested : List Later → List Later
requested [] = []
requested (reads is_err bytes ∷ more) = requested more
requested (requests op ∷ more) = requests op ∷ requested more

on_msg-exit_status :
    (is_err : Bool) (p : Stream) (bytes : Option (List ℕ))
    → (on_msg is_err p bytes).0.exit_status ≡ p.exit_status
unfolding on_msg enque_evt
on_msg-exit_status is_err p none = refl
on_msg-exit_status true p (some bytes) = refl
on_msg-exit_status false p (some bytes) = refl

ended-progress :
    (p : Stream) (status op : ℕ)
    → p.exit_status.opt ≡ some status
    → stream_progress p op ≡ (p, reported (exit_evt status))
unfolding stream_progress has_value
ended-progress p status op e =
    ap
      (λ (o : Option ℕ). elim o as (λ x. Stream × Progress) [
        | some v ↦ (p, reported (exit_evt v))
        | none ↦ let (q, got) = deque_start p.stream op in (record p { stream = q }, first_of got)
      ])
      e

ended-answers :
    (more : List Later) (p : Stream) (status : ℕ)
    → p.exit_status.opt ≡ some status
    → answers p more ≡ map (λ r. reported (exit_evt status)) (requested more)
ended-answers [] p status e = refl
ended-answers (reads is_err bytes ∷ more) p status e =
    ended-answers more (on_msg is_err p bytes).0 status
      (ap (λ o. o.opt) (on_msg-exit_status is_err p bytes) ∙ e)
ended-answers (requests op ∷ more) p status e =
    let same = ended-progress p status op e in
    ap (λ r. r.1 ∷ answers r.0 more) same
    ∙ ap (λ t. reported (exit_evt status) ∷ t) (ended-answers more p status e)

-- After the exit of a process, whatever output its pipes still have, every request for progress reports the
-- status, as far as an `int` holds it; output that is queued then, or comes later, is never reported.
pub answers-on_exit :
    (p : Stream) (finished_procs : List ℕ) (self status : ℕ) (more : List Later)
    → answers (on_exit p finished_procs self status).0 more
      ≡ map (λ r. reported (exit_evt (narrowed status))) (requested more)
unfolding on_exit enque_evt emplace
answers-on_exit p finished_procs self status more =
    ended-answers more (on_exit p finished_procs self status).0 (narrowed status) refl
