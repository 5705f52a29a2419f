-- ===== src/Unit/Loop.antt =====
-- `unit_transaction_cb` and the event loop of src/unit/unit.hpp: each message of the hub becomes a task in a slot of
-- its own, and its task runs, in one step, to its end or to the wait for a process. nanopb, libuv and the memory are
-- arguments.
pub mod Tasks
pub mod Accounts
mod Examples
use trctl.Base.{
  ℕ, zero, suc, ◌<◌, Option, none, some, List, [], ◌∷◌, ◌++◌, ◌==◌, ltb, if◌then◌else◌,
}
use trctl.Util.{Error}
use trctl.Fs.Disk.{Outcome, value, failure}
use trctl.Slots.{TaskSlots, without, finished, tick, emplace_slot}
use trctl.Slots.Places.{count}
use trctl.Unit.Messages.{HubToUnit, UnitToHub}
use trctl.Unit.Requests.{UnitCtx, Setting}
use trctl.Unit.Raw.{Codec, Raw, fulfils, garbage, waits, ends, endless, crashed, on_raw_msg}

-- A unit that serves messages. `message` is the data of the promise that the task of a slot holds; `ready` are
-- the slots whose task has not run yet, `waiting` those whose task waits for a process. `sent` are the replies, and
-- `failed` the errors, each with its slot, the oldest first.
pub record Serving (W : Type 0) : Type 0 where
  pub uctx : UnitCtx W
  pub slots : TaskSlots
  pub message : ℕ → List ℕ
  pub ready : List ℕ
  pub waiting : List ℕ
  pub sent : List (ℕ × List ℕ)
  pub failed : List (ℕ × Error)

-- What happens: a message comes in, the task of a slot runs for the first time, a task that waited goes on to its
-- reply or its error, or the slots are ticked.
pub data Event : Type 0 where
  arrives : List ℕ → Event
  runs : ℕ → Event
  resumes : ℕ → Outcome (List ℕ) → Event
  ticks : Event

module _ {W : Type 0} where
  -- `unit_transaction_cb::set_value`
  pub set_value : Serving W → List ℕ → Serving W
  set_value s bytes = record s {
    slots = emplace_slot s.slots;
    message = λ j. if s.slots.next == j then bytes else s.message j;
    ready = s.ready ++ (s.slots.next ∷ []);
  }

  -- The task of the slot `x` has ended with a reply, or with an error.
  pub replied : Serving W → ℕ → List ℕ → Serving W
  replied s x bytes = record s { slots = finished s.slots x; sent = s.sent ++ ((x, bytes) ∷ []) }

  pub failing : Serving W → ℕ → Error → Serving W
  failing s x e = record s { slots = finished s.slots x; failed = s.failed ++ ((x, e) ∷ []) }

  -- What the first run of a task comes to. It is `none` where no step is described: the task has undefined
  -- behaviour, or does not end in the rounds given; the unit goes on to other messages between the reads of the latter.
  pub settle : Serving W → ℕ → Raw (UnitCtx W) → Option (Serving W)
  unfolding replied failing
  settle s x (fulfils u bytes) = some (replied (record s { uctx = u }) x bytes)
  settle s x (ends u e) = some (failing (record s { uctx = u }) x e)
  settle s x (waits u) = some (record s { uctx = u; waiting = s.waiting ++ (x ∷ []) })
  settle s x (garbage u) = none
  settle s x endless = none
  settle s x crashed = none

  pub resume : Serving W → ℕ → Outcome (List ℕ) → Serving W
  unfolding replied failing
  resume s x (value bytes) = replied s x bytes
  resume s x (failure e) = failing s x e

  module _ (at : Setting W) (codec : Codec HubToUnit UnitToHub) (memory : ℕ → Option (List ℕ)) where
    -- Only a task that is ready runs, and only one that waits is resumed.
    pub step : Serving W → Event → Option (Serving W)
    unfolding set_value settle resume
    step s (arrives bytes) = some (set_value s bytes)
    step s (runs x) =
        if ltb 0 (count x s.ready)
        then settle (record s { ready = without x s.ready }) x
            (on_raw_msg at codec (memory x) s.uctx x (s.message x))
        else some s
    step s (resumes x got) =
        if ltb 0 (count x s.waiting)
        then some (resume (record s { waiting = without x s.waiting }) x got)
        else some s
    step s ticks = some (record s { slots = tick s.slots })

    -- The state of the unit, and the events that are left: it is followed up to the first event whose step is not
    -- described.
    pub serve : Serving W → List Event → Serving W × List Event
    unfolding step
    serve s [] = (s, [])
    serve s (e ∷ es) = elim (step s e) [ none ↦ (s, e ∷ es) | some s' ↦ serve s' es ]
