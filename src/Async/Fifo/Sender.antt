-- ===== src/Async/Fifo/Sender.antt =====
-- `_sender` of src/util/async_sender_fifo.hpp: an operation that is wrapped, so that it starts only when those before
-- it have completed. The operation that is wrapped is an argument: what its start, and its completion, do to the
-- state that the operations share.
pub mod Serial
use trctl.Base.{ℕ, Option, none, some, List, [], ◌∷◌, ◌++◌}
use trctl.Async.Fifo.{Fifo, idle, on_start, on_end}

-- How an operation completes.
pub data Completion : Type 0 where
  set_value set_error set_stopped : Completion

-- `told` is what the receivers got, the oldest first.
pub record Senders (S : Type 0) : Type 0 where
  pub fifo : Fifo
  pub state : S
  pub told : List (ℕ × Completion)

module _ {S : Type 0} (begins : ℕ → S → S) where
  -- `_op::do_start`, where an operation is to start.
  pub do_start : Senders S → Option ℕ → Senders S
  do_start r none = r
  do_start r (some op) = record r { state = begins op r.state }

  -- `_op::start`
  pub start : Senders S → ℕ → Senders S
  unfolding do_start
  start r op = let (f, started) = on_start r.fifo op in do_start (record r { fifo = f }) started

  pub start_all : Senders S → List ℕ → Senders S
  unfolding start
  start_all r [] = r
  start_all r (op ∷ ops) = start_all (start r op) ops

  module _ (completes : ℕ → S → S) where
    -- `_recv::set_value`, `set_error` and `set_stopped` of the operation `op`: the receiver, while it is told, starts
    -- the operations `ops`; then comes `on_end`.
    recv : Senders S → ℕ → Completion → List ℕ → Senders S
    unfolding do_start start_all
    recv r op how ops =
        let told = r.told ++ ((op, how) ∷ []) in
        let r' = start_all (record r { state = completes op r.state; told = told }) ops in
        let (f, started) = on_end r'.fifo in do_start (record r' { fifo = f }) started

    -- The operation that runs completes. Where none runs, none completes, and `ops` are just started.
    pub complete : Senders S → Completion → List ℕ → Senders S
    unfolding recv
    complete r how ops = elim r.fifo.current [
      | none ↦ start_all r ops
      | some op ↦ recv r op how ops
    ]
