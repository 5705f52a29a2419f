-- ===== src/Unit/Loop/Examples.antt =====
-- A unit that serves two messages.
use trctl.Base.{◌+◌, ◌≡◌, some, List, [], ◌∷◌, ltb, if◌then◌else◌}
use trctl.Unit.Fixture.{setting, unit_ctx}
use trctl.Unit.Messages.{list_tasks, HubToUnit, UnitToHub}
use trctl.Unit.Raw.{Codec}
use trctl.Slots.Places.{count}
use trctl.Unit.Loop.{Event, arrives, runs, serve}
use trctl.Unit.Loop.Tasks.{open_tasks, ended_tasks}
use trctl.Unit.Loop.Accounts.{arrivals, fresh, serve-once}

-- Every message is a request for the tasks, and every reply is encoded as the two bytes that are there.
abbrev codec : Codec HubToUnit UnitToHub
codec = record {
  pb_decode = λ ctx. some (record { req_id = 2; sub = list_tasks 0 });
  pb_encode = λ ctx reply. some (ctx, 2);
}

abbrev two_messages : List Event
two_messages = arrives (9 ∷ []) ∷ arrives (8 ∷ []) ∷ runs 1 ∷ Event.ticks ∷ runs 0 ∷ []

serve-once_example :
    let (s, rest) =
      serve setting codec (λ x. some (1 ∷ 2 ∷ 3 ∷ [])) (fresh unit_ctx) two_messages in
    (open_tasks s 1 + ended_tasks s 1 ≡ (if ltb 1 s.slots.next then 1 else 0))
    × (count 1 s.slots.slots ≡ open_tasks s 1)
    × (s.slots.next + arrivals rest ≡ arrivals two_messages)
serve-once_example = serve-once setting codec (λ x. some (1 ∷ 2 ∷ 3 ∷ [])) unit_ctx two_messages 1
