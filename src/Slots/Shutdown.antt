-- ===== src/Slots/Shutdown.antt =====
-- The end of the tasks in src/task.hpp.
use trctl.Base.{
  ℕ, zero, suc, ◌≡◌, refl, ap, ◌∙◌, true, false, none, some, List, [], ◌∷◌, ◌==◌, if◌then◌else◌,
  eq→==, ne→==, sym, ◌≢◌, inl, inr, Bool-cases,
}
use trctl.Slots.{
  TaskSlots, without, slot_finished, finished, tick, Event, ends, ticks, happen, slot_shutdown,
  shutdown,
}

-- The slot `x` is the first, and was told to stop.
record Front (s : TaskSlots) (x : ℕ) : Type 0 where
  rest : List ℕ
  slots_is : s.slots ≡ x ∷ rest
  detached : s.attached x ≡ false

finished-Front : (s : TaskSlots) (x y : ℕ) → Front s x → Front (finished s y) x
unfolding finished slot_finished without
finished-Front s x y f = elim (Bool-cases (s.attached y)) [
  | inr off ↦ rw (off, finished) f
  | inl on ↦
      let others : y ≢ x =
        λ e. (let same : true ≡ false = sym on ∙ ap s.attached e ∙ f.detached in cc) in
      rw (on, finished)
        (record {
          rest = without y f.rest;
          slots_is =
              ap (λ t. without y t) f.slots_is
              ∙ ap (λ b. if b then without y f.rest else x ∷ without y f.rest)
                  (ne→== x y (λ e. others (sym e)));
          detached = f.detached;
        })
]

happen-Front : (es : List Event) (s : TaskSlots) (x : ℕ) → Front s x → Front (happen s es) x
unfolding happen tick
happen-Front [] s x f = f
happen-Front (ends y ∷ es) s x f = happen-Front es (finished s y) x (finished-Front s x y f)
happen-Front (ticks ∷ es) s x f =
    happen-Front es (tick s) x
      (record { rest = f.rest; slots_is = f.slots_is; detached = f.detached })

slot_shutdown-Front :
    (s : TaskSlots) (x : ℕ) (rest : List ℕ) (es : List Event)
    → s.slots ≡ x ∷ rest
    → Front (slot_shutdown s x es) x
unfolding slot_shutdown
slot_shutdown-Front s x rest es e =
    happen-Front es (record s { attached = λ j. if x == j then false else s.attached j }) x
      (record {
        rest = rest;
        slots_is = e;
        detached = ap (λ b. if b then false else s.attached x) (eq→== x x refl);
      })

-- While a task runs, `task_slots::shutdown` never returns, whatever ends in its rounds, however many rounds
-- its loop gets: the first slot is told to stop, and with that no longer leaves the list when it ends.
pub shutdown-endless :
    (rounds : ℕ) (s : TaskSlots) (x : ℕ) (rest : List ℕ) (events : ℕ → List Event)
    → s.slots ≡ x ∷ rest
    → shutdown rounds s events ≡ none
unfolding shutdown
shutdown-endless zero s x rest events e = refl
shutdown-endless (suc rounds) s x rest events e =
    let f = slot_shutdown-Front s x rest (events rounds) e in
    rw (e, shutdown)
      (shutdown-endless rounds (slot_shutdown s x (events rounds)) x f.rest events f.slots_is)

-- Without a slot, it returns at once.
pub shutdown-ends :
    (rounds : ℕ) (s : TaskSlots) (events : ℕ → List Event)
    → s.slots ≡ []
    → shutdown (suc rounds) s events ≡ some s
unfolding shutdown
shutdown-ends rounds s events e =
    ap
      (λ k. elim k [
        | [] ↦ some s
        | x ∷ rest ↦ shutdown rounds (slot_shutdown s x (events rounds)) events
      ])
      e
