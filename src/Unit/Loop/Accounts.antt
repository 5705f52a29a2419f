-- ===== src/Unit/Loop/Accounts.antt =====
-- What becomes of each message to a unit (src/unit/unit.hpp).
use trctl.Base.{
  ℕ, suc, ◌+◌, ◌<◌, ◌≡◌, Option-cases, refl, sym, subst, ◌∙◌, Option, none, some, List, [], ◌∷◌,
  ltb, if◌then◌else◌, arith, Bool-cases, inl, inr, ltb→lt,
}
use trctl.Slots.{without, tick, emplace_slot}
use trctl.Slots.Places.{count, one_if_lem, no_slots}
use trctl.Unit.Messages.{HubToUnit, UnitToHub}
use trctl.Unit.Requests.{UnitCtx, Setting}
use trctl.Unit.Raw.{Codec, on_raw_msg}
use trctl.Unit.Loop.{
  Serving, Event, arrives, runs, resumes, ticks, set_value, settle, resume, step, serve,
}
use trctl.Unit.Loop.Tasks.{
  open_tasks, ended_tasks, Inv, Goes, set_value-Inv, settle-Goes, resume-Goes, ready-Inv,
  waiting-Inv, tick-Inv,
}

-- How many messages came in.
abbrev pub arrivals : List Event → ℕ
arrivals [] = 0
arrivals (arrives bytes ∷ es) = suc (arrivals es)
arrivals (runs x ∷ es) = arrivals es
arrivals (resumes x got ∷ es) = arrivals es
arrivals (ticks ∷ es) = arrivals es

abbrev pub fresh : {W : Type 0} → UnitCtx W → Serving W
fresh u = record {
  uctx = u;
  slots = no_slots;
  message = λ j. [];
  ready = [];
  waiting = [];
  sent = [];
  failed = [];
}

fresh-Inv : {W : Type 0} (u : UnitCtx W) → Inv (fresh u) []
fresh-Inv u = record {
  once = λ j. ground arith;
  live = λ j. omega arith;
  attached_are = λ j h. absurd (omega arith);
}

Goes-ap : {W : Type 0} {m n : ℕ} (k : Option (Serving W)) (same : m ≡ n) → Goes m k → Goes n k
Goes-ap none same h = tt
Goes-ap (some s) same (v, made) = (v, made ∙ same)

module _ {W : Type 0} (at : Setting W) (codec : Codec HubToUnit UnitToHub)
    (memory : ℕ → Option (List ℕ)) where
  step-Goes :
      (s : Serving W) (e : Event)
      → Inv s []
      → Goes (s.slots.next + arrivals (e ∷ [])) (step at codec memory s e)
  unfolding step set_value emplace_slot tick
  step-Goes s (arrives bytes) v = (set_value-Inv s bytes v, omega arith)
  step-Goes s (runs x) v = elim (Bool-cases (ltb 0 (count x s.ready))) [
    | inl e ↦
        let pos : 0 < count x s.ready = ltb→lt 0 (count x s.ready) e in
        let s' = record s { ready = without x s.ready } in
        let raw = on_raw_msg at codec (memory x) s.uctx x (s.message x) in
        rw (e, step)
          (Goes-ap (settle s' x raw) (omega arith) (settle-Goes s' x raw (ready-Inv s x pos v)))
    | inr e ↦ rw (e, step) (v, omega arith)
  ]
  step-Goes s (resumes x got) v = elim (Bool-cases (ltb 0 (count x s.waiting))) [
    | inl e ↦
        let pos : 0 < count x s.waiting = ltb→lt 0 (count x s.waiting) e in
        let s' = record s { waiting = without x s.waiting } in
        rw (e, step)
          (Goes-ap (some (resume s' x got)) (omega arith)
            (resume-Goes s' x got (waiting-Inv s x pos v)))
    | inr e ↦ rw (e, step) (v, omega arith)
  ]
  step-Goes s ticks v = (tick-Inv s v, omega arith)

  arrivals-cons :
      (e : Event) (es : List Event) → arrivals (e ∷ es) ≡ arrivals (e ∷ []) + arrivals es
  arrivals-cons (arrives bytes) es = omega arith
  arrivals-cons (runs x) es = omega arith
  arrivals-cons (resumes x got) es = omega arith
  arrivals-cons ticks es = omega arith

  -- In the end each task is in its place, and a slot was made for each message of an event that is not left.
  abbrev Served : ℕ → Serving W × List Event → Type 0
  Served n (s, rest) = Inv s [] × (s.slots.next + arrivals rest ≡ n)

  serve-Served :
      (es : List Event) (s : Serving W)
      → Inv s []
      → Served (s.slots.next + arrivals es) (serve at codec memory s es)
  unfolding serve
  serve-Served [] s v = (v, refl)
  serve-Served (e ∷ es) s v =
      let Follows : Option (Serving W) → Type 0 = λ k.
        Served (s.slots.next + arrivals (e ∷ es))
          (elim k [ none ↦ (s, e ∷ es) | some s' ↦ serve at codec memory s' es ]) in
      elim (Option-cases (step at codec memory s e)) [
        | inl stops ↦ subst Follows (sym stops) (v, refl)
        | inr (s', goes) ↦
            let (v', made) =
              subst (Goes (s.slots.next + arrivals (e ∷ []))) goes (step-Goes s e v) in
            subst Follows (sym goes) (
              subst (λ n. Served n (serve at codec memory s' es))
                (omega (arith, made, arrivals-cons e es)) (serve-Served es s' v'))
      ]

  -- Whatever messages come in, and in whichever order their tasks run, go on after a wait, and the slots are ticked,
  -- up to the first event at which a task has undefined behaviour, or does not end in the rounds given: each message of the
  -- events up to there has one slot, and is in one place: its task is still to run, or waits, or its reply was sent,
  -- or it has ended in an error; and just the tasks of the first two kinds keep their slot.
  pub serve-once :
      (u : UnitCtx W) (es : List Event) (j : ℕ)
      → let (s, rest) = serve at codec memory (fresh u) es in
        (open_tasks s j + ended_tasks s j ≡ (if ltb j s.slots.next then 1 else 0))
        × (count j s.slots.slots ≡ open_tasks s j)
        × (s.slots.next + arrivals rest ≡ arrivals es)
  serve-once u es j =
      let (v, made) = serve-Served es (fresh u) (fresh-Inv u) in
      let s = (serve at codec memory (fresh u) es).0 in
      (
        omega (arith, v.once j) ∙ one_if_lem (ltb j s.slots.next),
        omega (arith, v.live j),
        omega (arith, made),
      )
