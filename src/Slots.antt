-- ===== src/Slots.antt =====
-- `task_slots` and `task_slot` of src/task.hpp: the tasks that answer requests. A slot is a number, its
-- address.
pub mod Shutdown
pub mod Places
mod Examples
use trctl.Base.{
  ℕ, zero, suc, Bool, true, false, Option, none, some, List, [], ◌∷◌, ◌++◌, ◌==◌, if◌then◌else◌,
}

-- `attached` says of a slot that its pointer `slots` is not null; `deleted` is a record of the slots that were
-- deleted, and `next` the next address.
pub record TaskSlots : Type 0 where
  pub slots : List ℕ
  pub finished_slots : List ℕ
  pub attached : ℕ → Bool
  pub deleted : List ℕ
  pub next : ℕ

-- `remove_if` of the slot.
unfoldable pub without : ℕ → List ℕ → List ℕ
without x [] = []
without x (y ∷ ys) = let rest = without x ys in if y == x then rest else y ∷ rest

unfoldable pub slot_finished : TaskSlots → ℕ → TaskSlots
unfolding without
slot_finished s x = record s {
  slots = without x s.slots;
  finished_slots = s.finished_slots ++ (x ∷ []);
}

-- `task_slot::finished`, when the task of the slot has ended, in whichever way.
unfoldable pub finished : TaskSlots → ℕ → TaskSlots
unfolding slot_finished
finished s x = if s.attached x then slot_finished s x else s

-- `tick`: `clear_slots` of the finished slots.
unfoldable pub tick : TaskSlots → TaskSlots
tick s = record s { finished_slots = []; deleted = s.deleted ++ s.finished_slots }

-- `emplace_slot`, before the task starts.
unfoldable pub emplace_slot : TaskSlots → TaskSlots
emplace_slot s = record s {
  slots = s.slots ++ (s.next ∷ []);
  attached = λ j. if s.next == j then true else s.attached j;
  next = suc s.next;
}

-- What the event loop does to the slots, when no new request comes in.
pub data Event : Type 0 where
  ends : ℕ → Event
  ticks : Event

pub happen : TaskSlots → List Event → TaskSlots
unfolding finished tick
happen s [] = s
happen s (ends x ∷ es) = happen (finished s x) es
happen s (ticks ∷ es) = happen (tick s) es

-- `task_slot::shutdown`; `es` is what happens while it runs the event loop.
pub slot_shutdown : TaskSlots → ℕ → List Event → TaskSlots
unfolding happen
slot_shutdown s x es =
    happen (record s { attached = λ j. if x == j then false else s.attached j }) es

-- `task_slots::shutdown`; `events` is what happens in each round of its loop. `none`: the loop still runs when
-- the rounds are used up.
pub shutdown : ℕ → TaskSlots → (ℕ → List Event) → Option TaskSlots
unfolding slot_shutdown
shutdown zero s events = none
shutdown (suc rounds) s events = elim s.slots [
  | [] ↦ some s
  | x ∷ rest ↦ shutdown rounds (slot_shutdown s x (events rounds)) events
]
