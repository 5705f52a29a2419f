-- ===== src/Slots/Places.antt =====
-- Where each slot of src/task.hpp is over its life.
use trctl.Base.{
  ℕ, ◌+◌, ◌≡◌, ◌<◌, refl, subst, ap, ◌∙◌, inl, inr, Bool, true, false, List, [], ◌∷◌, ◌++◌, ◌==◌,
  ltb, lt→ltb, le→ltb, if◌then◌else◌, arith, eq→==, ==→eq, Bool-cases, dec_lt,
}
use trctl.Slots.{
  TaskSlots, without, slot_finished, finished, tick, emplace_slot, Event, ends, ticks, happen,
}

-- What happens to the slots: a request comes in, or an event.
pub data Step : Type 0 where
  request : Step
  happens : Event → Step

unfoldable pub step : TaskSlots → Step → TaskSlots
step s request = emplace_slot s
step s (happens e) = happen s (e ∷ [])

unfoldable pub run : TaskSlots → List Step → TaskSlots
unfolding step
run s [] = s
run s (e ∷ es) = run (step s e) es

-- How often a slot is in a list.
abbrev pub one_if : Bool → ℕ
one_if true = 1
one_if false = 0

abbrev pub count : ℕ → List ℕ → ℕ
count j [] = 0
count j (x ∷ xs) = one_if (x == j) + count j xs

pub one_if_lem : (b : Bool) → one_if b ≡ (if b then 1 else 0)
one_if_lem true = refl
one_if_lem false = refl

-- A task ends only while it runs.
abbrev pub Ends : TaskSlots → List Step → Type 0
Ends s [] = Unit {0}
Ends s (request ∷ es) = Ends (step s request) es
Ends s (happens ticks ∷ es) = Ends (step s (happens ticks)) es
Ends s (happens (ends x) ∷ es) = (0 < count x s.slots) × Ends (step s (happens (ends x))) es

-- No slot was made yet.
abbrev pub no_slots : TaskSlots
no_slots = record { slots = []; finished_slots = []; attached = λ j. false; deleted = []; next = 0 }

pub count-append : (j : ℕ) (xs ys : List ℕ) → count j (xs ++ ys) ≡ count j xs + count j ys
count-append j [] ys = omega arith
count-append j (x ∷ xs) ys = omega (arith, count-append j xs ys)

pub count-without :
    (j x : ℕ) (xs : List ℕ) → count j (without x xs) ≡ (if x == j then 0 else count j xs)
unfolding without
count-without j x [] = ground arith
count-without j x (y ∷ ys) = ground (arith, count-without j x ys)

-- In how many places a slot is.
abbrev pub places : TaskSlots → ℕ → ℕ
places s j = count j s.slots + count j s.finished_slots + count j s.deleted

record Inv (s : TaskSlots) : Type 0 where
  places_are : (j : ℕ) → places s j ≡ one_if (ltb j s.next)
  attached_are : (j : ℕ) → j < s.next → s.attached j ≡ true

no_slots-Inv : Inv no_slots
no_slots-Inv = record { places_are = λ j. ground arith; attached_are = λ j h. absurd (omega arith) }

emplace_slot-Inv : (s : TaskSlots) → Inv s → Inv (emplace_slot s)
unfolding emplace_slot
emplace_slot-Inv s h = record {
  places_are = λ j. ground (arith, h.places_are j, count-append j s.slots (s.next ∷ []));
  attached_are = λ j lt. ground (arith, h.attached_are j);
}

tick-Inv : (s : TaskSlots) → Inv s → Inv (tick s)
unfolding tick
tick-Inv s h = record {
  places_are = λ j. omega (arith, h.places_are j, count-append j s.deleted s.finished_slots);
  attached_are = h.attached_are;
}

finished-Inv : (s : TaskSlots) (x : ℕ) → 0 < count x s.slots → Inv s → Inv (finished s x)
unfolding finished slot_finished
finished-Inv s x lt h =
    let made : x < s.next = elim (dec_lt x s.next) [
      | yes below ↦ below
      | no above ↦
          absurd
            (omega (arith, lt, h.places_are x, ap one_if (le→ltb x s.next (omega (arith, above)))))
    ] in
    let once : places s x ≡ 1 = h.places_are x ∙ ap one_if (lt→ltb x s.next made) in
    rw (h.attached_are x made, finished)
      (record {
        places_are = λ j. elim (Bool-cases (x == j)) [
          | inl same ↦
              subst (λ k. places (slot_finished s x) k ≡ one_if (ltb k s.next)) (==→eq x j same)
                (omega (
                  arith,
                  once,
                  lt,
                  ap one_if (lt→ltb x s.next made),
                  count-without x x s.slots
                      ∙ ap (λ b. if b then 0 else count x s.slots) (eq→== x x refl),
                  count-append x s.finished_slots (x ∷ []),
                  ap one_if (eq→== x x refl),
                ))
          | inr other ↦ omega (
            arith,
            h.places_are j,
            count-without j x s.slots ∙ ap (λ b. if b then 0 else count j s.slots) other,
            count-append j s.finished_slots (x ∷ []),
            ap one_if other,
          )
        ];
        attached_are = h.attached_are;
      })

step-Inv :
    (s : TaskSlots) (e : Step) (es : List Step)
    → Ends s (e ∷ es)
    → Inv s
    → Inv (step s e) × Ends (step s e) es
unfolding step happen
step-Inv s request es ok h = (emplace_slot-Inv s h, ok)
step-Inv s (happens ticks) es ok h = (tick-Inv s h, ok)
step-Inv s (happens (ends x)) es ok h = (finished-Inv s x ok.0 h, ok.1)

run-Inv : (es : List Step) (s : TaskSlots) → Ends s es → Inv s → Inv (run s es)
unfolding run
run-Inv [] s ok h = h
run-Inv (e ∷ es) s ok h = let (now, later) = step-Inv s e es ok h in run-Inv es (step s e) later now

-- As long as no slot is told to stop, whatever requests come in and whichever running tasks end, each slot that was made is in one place: running,
-- finished, or deleted; and no other slot is anywhere. So no slot is lost, and none is deleted twice.
pub run-places_once :
    (es : List Step) (j : ℕ)
    → Ends no_slots es
    → let s = run no_slots es in
      count j s.slots + count j s.finished_slots + count j s.deleted
      ≡ (if ltb j s.next then 1 else 0)
run-places_once es j ok =
    let h = run-Inv es no_slots ok no_slots-Inv in
    h.places_are j ∙ one_if_lem (ltb j (run no_slots es).next)
