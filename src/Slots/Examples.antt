-- ===== src/Slots/Examples.antt =====
-- Two running tasks, which end while the slots are shut down; and three slots, of which one is deleted.
use trctl.Base.{ℕ, ◌≡◌, refl, true, none, List, [], ◌∷◌, ◌+◌, ltb, if◌then◌else◌, arith}
use trctl.Slots.{
  TaskSlots, Event, ends, ticks, shutdown, happen, emplace_slot, finished, slot_finished, without,
  tick,
}
use trctl.Slots.Places.{Step, request, happens, run, step, count, Ends, no_slots, run-places_once}
use trctl.Slots.Shutdown.{shutdown-endless}

abbrev two_tasks : TaskSlots
two_tasks = record {
  slots = 1 ∷ 2 ∷ [];
  finished_slots = [];
  attached = λ j. true;
  deleted = [];
  next = 3;
}

abbrev both_end : ℕ → List Event
both_end round = ends 1 ∷ ends 2 ∷ ticks ∷ []

shutdown-endless_example : shutdown 1000 two_tasks both_end ≡ none
shutdown-endless_example = shutdown-endless 1000 two_tasks 1 (2 ∷ []) both_end refl

abbrev steps : List Step
steps = request ∷ request ∷ happens (ends 0) ∷ happens ticks ∷ request ∷ happens (ends 2) ∷ []

steps-Ends : Ends no_slots steps
unfolding step happen emplace_slot finished slot_finished without tick
steps-Ends = (omega arith, (omega arith, tt))

run-places_once_example :
    let s = run no_slots steps in
    count 2 s.slots + count 2 s.finished_slots + count 2 s.deleted ≡ (if ltb 2 s.next then 1 else 0)
run-places_once_example = run-places_once steps 2 steps-Ends
