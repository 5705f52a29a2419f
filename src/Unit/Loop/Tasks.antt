-- ===== src/Unit/Loop/Tasks.antt =====
-- The tasks of a unit (src/unit/unit.hpp), and the slots that they keep, over each step.
use trctl.Base.{
  ℕ, ◌+◌, ◌<◌, ◌≤◌, ◌≡◌, refl, sym, subst, dec_lt, le→ltb, eq→==, ==→eq, ap, ◌∙◌, Bool, true, false,
  List, [], ◌∷◌, ◌++◌, ◌==◌, Option, none, some, ltb, if◌then◌else◌, map, arith, Bool-cases, inl,
  inr,
}
use trctl.Util.{Error}
use trctl.Fs.Disk.{Outcome, value, failure}
use trctl.Slots.{TaskSlots, without, slot_finished, finished, tick, emplace_slot}
use trctl.Slots.Places.{count, one_if, count-append, count-without}
use trctl.Unit.Requests.{UnitCtx}
use trctl.Unit.Raw.{Raw, fulfils, garbage, waits, ends, endless, crashed}
use trctl.Unit.Loop.{Serving, set_value, replied, failing, settle, resume}

abbrev pub keys : {V : Type 0} → List (ℕ × V) → List ℕ
keys es = map (λ e. e.0) es

-- How often the task of a slot is among those that have not ended, and among those that have.
abbrev pub open_tasks : {W : Type 0} → Serving W → ℕ → ℕ
open_tasks s j = count j s.ready + count j s.waiting

abbrev pub ended_tasks : {W : Type 0} → Serving W → ℕ → ℕ
ended_tasks s j = count j (keys s.sent) + count j (keys s.failed)

-- `held` are slots whose task is running.
pub record Inv {W : Type 0} (s : Serving W) (held : List ℕ) : Type 0 where
  pub once : (j : ℕ) → open_tasks s j + count j held + ended_tasks s j ≡ one_if (ltb j s.slots.next)
  pub live : (j : ℕ) → count j s.slots.slots ≡ open_tasks s j + count j held
  pub attached_are : (j : ℕ) → j < s.slots.next → s.slots.attached j ≡ true

-- The step, where it is described, leaves each task in its place, and `n` slots were made.
abbrev pub Goes : {W : Type 0} → ℕ → Option (Serving W) → Type 0
Goes n none = Unit
Goes n (some s) = Inv s [] × (s.slots.next ≡ n)

finished-next : (s : TaskSlots) (x : ℕ) → (finished s x).next ≡ s.next
unfolding finished slot_finished
finished-next s x = ground arith

count-keys :
    {V : Type 0} (j x : ℕ) (v : V) (es : List (ℕ × V))
    → count j (keys (es ++ ((x, v) ∷ []))) ≡ count j (keys es) + one_if (x == j)
count-keys j x v [] = omega arith
count-keys j x v (e ∷ es) = omega (arith, count-keys j x v es)

pub set_value-Inv :
    {W : Type 0} (s : Serving W) (bytes : List ℕ) → Inv s [] → Inv (set_value s bytes) []
unfolding set_value emplace_slot
set_value-Inv s bytes v = record {
  once = λ j. ground (arith, v.once j, count-append j s.ready (s.slots.next ∷ []));
  live = λ j. ground (
    arith,
    v.live j,
    count-append j s.ready (s.slots.next ∷ []),
    count-append j s.slots.slots (s.slots.next ∷ []),
  );
  attached_are = λ j lt. ground (arith, v.attached_are j);
}

one_if_le : (b : Bool) → one_if b ≤ 1
one_if_le true = omega arith
one_if_le false = omega arith

-- A slot whose task runs was made, and is attached.
held_lt : {W : Type 0} (s : Serving W) (x : ℕ) → Inv s (x ∷ []) → x < s.slots.next
held_lt s x v = elim (dec_lt x s.slots.next) [
  | yes below ↦ below
  | no above ↦ absurd (
      omega (
        arith,
        v.once x,
        ap one_if (eq→== x x refl),
        ap one_if (le→ltb x s.slots.next (omega (arith, above))),
      ))
]

finished_is :
    {W : Type 0} (s : Serving W) (x : ℕ)
    → Inv s (x ∷ [])
    → finished s.slots x ≡ slot_finished s.slots x
unfolding finished
finished_is s x v = rw (v.attached_are x (held_lt s x v), finished) refl

finished-live :
    {W : Type 0} (s : Serving W) (x : ℕ)
    → Inv s (x ∷ [])
    → (j : ℕ) → count j (finished s.slots x).slots ≡ open_tasks s j
unfolding slot_finished
finished-live s x v j =
    ap (λ t. count j t.slots) (finished_is s x v)
    ∙ count-without j x s.slots.slots
    ∙ elim (Bool-cases (x == j)) [
      | inl same ↦
          ap (λ b. if b then 0 else count j s.slots.slots) same
          ∙ omega (arith, v.once j, ap one_if same, one_if_le (ltb j s.slots.next))
      | inr other ↦
          ap (λ b. if b then 0 else count j s.slots.slots) other
          ∙ omega (arith, v.live j, ap one_if other)
    ]

-- A task that has ended leaves the list of the slots.
replied-Inv :
    {W : Type 0} (s : Serving W) (x : ℕ) (bytes : List ℕ)
    → Inv s (x ∷ [])
    → Inv (replied s x bytes) []
unfolding replied slot_finished
replied-Inv s x bytes v = record {
  once = λ j. omega (
    arith,
    v.once j,
    count-keys j x bytes s.sent,
    ap (λ t. one_if (ltb j t.next)) (finished_is s x v),
  );
  live = λ j. finished-live s x v j ∙ omega arith;
  attached_are = λ j lt.
      subst (λ t. j < t.next → t.attached j ≡ true) (sym (finished_is s x v)) (v.attached_are j) lt;
}

failing-Inv :
    {W : Type 0} (s : Serving W) (x : ℕ) (e : Error) → Inv s (x ∷ []) → Inv (failing s x e) []
unfolding failing slot_finished
failing-Inv s x e v = record {
  once = λ j. omega (
    arith,
    v.once j,
    count-keys j x e s.failed,
    ap (λ t. one_if (ltb j t.next)) (finished_is s x v),
  );
  live = λ j. finished-live s x v j ∙ omega arith;
  attached_are = λ j lt.
      subst (λ t. j < t.next → t.attached j ≡ true) (sym (finished_is s x v)) (v.attached_are j) lt;
}

-- A task that waits keeps its slot.
waits-Inv :
    {W : Type 0} (s : Serving W) (x : ℕ) (u : UnitCtx W)
    → Inv s (x ∷ [])
    → Inv (record s { uctx = u; waiting = s.waiting ++ (x ∷ []) }) []
waits-Inv s x u v = record {
  once = λ j. omega (arith, v.once j, count-append j s.waiting (x ∷ []));
  live = λ j. omega (arith, v.live j, count-append j s.waiting (x ∷ []));
  attached_are = v.attached_are;
}

uctx-Inv :
    {W : Type 0} (s : Serving W) (u : UnitCtx W) (held : List ℕ)
    → Inv s held
    → Inv (record s { uctx = u }) held
uctx-Inv s u held v = record { once = v.once; live = v.live; attached_are = v.attached_are }

pub settle-Goes :
    {W : Type 0} (s : Serving W) (x : ℕ) (raw : Raw (UnitCtx W))
    → Inv s (x ∷ [])
    → Goes s.slots.next (settle s x raw)
unfolding settle replied failing
settle-Goes s x (fulfils u bytes) v =
    (replied-Inv (record s { uctx = u }) x bytes (uctx-Inv s u (x ∷ []) v), finished-next s.slots x)
settle-Goes s x (ends u e) v =
    (failing-Inv (record s { uctx = u }) x e (uctx-Inv s u (x ∷ []) v), finished-next s.slots x)
settle-Goes s x (waits u) v = (waits-Inv s x u v, refl)
settle-Goes s x (garbage u) v = tt
settle-Goes s x endless v = tt
settle-Goes s x crashed v = tt

pub resume-Goes :
    {W : Type 0} (s : Serving W) (x : ℕ) (got : Outcome (List ℕ))
    → Inv s (x ∷ [])
    → Goes s.slots.next (some (resume s x got))
unfolding resume replied failing
resume-Goes s x (value bytes) v = (replied-Inv s x bytes v, finished-next s.slots x)
resume-Goes s x (failure e) v = (failing-Inv s x e v, finished-next s.slots x)

-- The task is taken out of the list in which it is.
taken :
    (x j : ℕ) (xs : List ℕ) (least : count j xs ≤ 1)
    → 0 < count x xs
    → count j (without x xs) + count j (x ∷ []) ≡ count j xs
taken x j xs least pos = elim (Bool-cases (x == j)) [
  | inl same ↦
      let here : 0 < count j xs = subst (λ k. 0 < count k xs) (==→eq x j same) pos in
      omega (
        arith,
        count-without j x xs ∙ ap (λ b. if b then 0 else count j xs) same,
        ap one_if same,
        here,
      )
  | inr other ↦
      omega
        (arith, count-without j x xs ∙ ap (λ b. if b then 0 else count j xs) other, ap one_if other)
]

pub ready-Inv :
    {W : Type 0} (s : Serving W) (x : ℕ)
    → 0 < count x s.ready
    → Inv s []
    → Inv (record s { ready = without x s.ready }) (x ∷ [])
ready-Inv s x pos v =
    let out =
      λ (j : ℕ). taken x j s.ready (omega (arith, v.once j, one_if_le (ltb j s.slots.next))) pos in
    record {
      once = λ j. omega (arith, v.once j, out j);
      live = λ j. omega (arith, v.live j, out j);
      attached_are = v.attached_are;
    }

pub waiting-Inv :
    {W : Type 0} (s : Serving W) (x : ℕ)
    → 0 < count x s.waiting
    → Inv s []
    → Inv (record s { waiting = without x s.waiting }) (x ∷ [])
waiting-Inv s x pos v =
    let out = λ (j : ℕ).
      taken x j s.waiting (omega (arith, v.once j, one_if_le (ltb j s.slots.next))) pos in
    record {
      once = λ j. omega (arith, v.once j, out j);
      live = λ j. omega (arith, v.live j, out j);
      attached_are = v.attached_are;
    }

pub tick-Inv : {W : Type 0} (s : Serving W) → Inv s [] → Inv (record s { slots = tick s.slots }) []
unfolding tick
tick-Inv s v = record { once = v.once; live = v.live; attached_are = v.attached_are }
