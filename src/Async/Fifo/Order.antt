-- ===== src/Async/Fifo/Order.antt =====
-- Operations of an `async_sender_fifo` start in the order in which they came, one at a time.
use trctl.Base.{
  ℕ, suc, ◌+◌, ◌≤◌, ◌≡◌, refl, sym, ap, ◌∙◌, Option, none, some, List, [], ◌∷◌, ◌++◌, append-nil,
  append_assoc, arith, length, length-append,
}
use trctl.Async.Fifo.{Fifo, idle, on_start, on_end}

-- `finish`: the operation that runs completes, in whichever way.
pub data Event : Type 0 where
  submit : ℕ → Event
  finish : Event

abbrev listed : Option ℕ → List ℕ
listed none = []
listed (some op) = op ∷ []

step : Fifo → Event → Fifo × List ℕ
step f (submit op) = let (f', started) = on_start f op in (f', listed started)
step f finish = let (f', started) = on_end f in (f', listed started)

-- The operations that start, in order.
unfoldable pub run : Fifo → List Event → Fifo × List ℕ
unfolding step
run f [] = (f, [])
run f (e ∷ es) = let (f', now) = step f e in let (f'', later) = run f' es in (f'', now ++ later)

abbrev pub submitted : List Event → List ℕ
submitted [] = []
submitted (submit op ∷ es) = op ∷ submitted es
submitted (finish ∷ es) = submitted es

abbrev pub finishes : List Event → ℕ
finishes [] = 0
finishes (submit op ∷ es) = finishes es
finishes (finish ∷ es) = suc (finishes es)

abbrev running : Fifo → ℕ
running f = elim f.current [ none ↦ 0 | some op ↦ 1 ]

running_le : (f : Fifo) → running f ≤ 1
running_le f = ground arith

-- Nobody waits while nothing runs.
pub record IsBusy (f : Fifo) : Type 0 where
  pub idle_empty : f.current ≡ none → f.waiters ≡ []

step-IsBusy : (f : Fifo) (e : Event) → IsBusy f → IsBusy (step f e).0
unfolding step on_start on_end
step-IsBusy f (submit op) b = ground arith
step-IsBusy f finish b = ground arith

step-order :
    (f : Fifo) (e : Event)
    → IsBusy f
    → (step f e).1 ++ (step f e).0.waiters ≡ f.waiters ++ submitted (e ∷ [])
unfolding step on_start on_end
step-order f (submit op) b = ground arith
step-order f finish b = ground (arith, append-nil f.waiters)

step-exclusive :
    (f : Fifo) (e : Event)
    → length (step f e).1 + running f ≤ finishes (e ∷ []) + running (step f e).0
unfolding step on_start on_end
step-exclusive f (submit op) = ground arith
step-exclusive f finish = ground arith

record Is (f f' : Fifo) (started : List ℕ) (es : List Event) : Type 0 where
  order : started ++ f'.waiters ≡ f.waiters ++ submitted es
  exclusive : length started + running f ≤ finishes es + running f'
  busy : IsBusy f'

submitted-append :
    (e : Event) (es : List Event) → submitted (e ∷ es) ≡ submitted (e ∷ []) ++ submitted es
submitted-append (submit op) es = refl
submitted-append finish es = refl

finishes-append :
    (e : Event) (es : List Event) → finishes (e ∷ es) ≡ finishes (e ∷ []) + finishes es
finishes-append (submit op) es = omega arith
finishes-append finish es = omega arith

run-Is : (es : List Event) (f : Fifo) → IsBusy f → Is f (run f es).0 (run f es).1 es
unfolding run
run-Is [] f b = record { order = sym (append-nil f.waiters); exclusive = omega arith; busy = b }
run-Is (e ∷ es) f b =
    let f' = (step f e).0 in
    let now = (step f e).1 in
    let k = run-Is es f' (step-IsBusy f e b) in
    record {
      order =
          append_assoc now (run f' es).1 (run f' es).0.waiters
          ∙ ap (λ t. now ++ t) k.order
          ∙ sym (append_assoc now f'.waiters (submitted es))
          ∙ ap (λ t. t ++ submitted es) (step-order f e b)
          ∙ append_assoc f.waiters (submitted (e ∷ [])) (submitted es)
          ∙ ap (λ t. f.waiters ++ t) (sym (submitted-append e es));
      exclusive = omega (
        arith,
        k.exclusive,
        step-exclusive f e,
        finishes-append e es,
        length-append now (run f' es).1,
      );
      busy = k.busy;
    }

-- From an idle fifo, operations start in the order in which they are submitted: those started, and then
-- those that wait, are those submitted. At most one more has started than have finished. Whoever waits
-- waits for an operation that runs.
pub run-order :
    (es : List Event)
    → ((run idle es).1 ++ (run idle es).0.waiters ≡ submitted es)
      × (length (run idle es).1 ≤ suc (finishes es))
      × ((run idle es).0.current ≡ none → (run idle es).0.waiters ≡ [])
run-order es =
    let k = run-Is es idle (record { idle_empty = λ e. refl }) in
    (k.order, omega (arith, k.exclusive, running_le (run idle es).0), k.busy.idle_empty)
