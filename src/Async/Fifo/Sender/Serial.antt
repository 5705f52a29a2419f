-- ===== src/Async/Fifo/Sender/Serial.antt =====
-- Operations that an `async_sender_fifo` wraps (src/util/async_sender_fifo.hpp) do not interleave.
use trctl.Base.{
  ℕ, ◌≡◌, refl, sym, subst, ap, ◌∙◌, Option, none, some, List, [], ◌∷◌, ◌++◌, append-nil,
  append_assoc, map, Option-cases, List-cases, inl, inr,
}
use trctl.Async.Fifo.Cases.{on_start-idle, on_start-busy, on_end-last, on_end-next}
use trctl.Async.Fifo.{Fifo, idle, on_end}
use trctl.Async.Fifo.Sender.{Completion, Senders, do_start, start, start_all, recv, complete}

-- Operations are submitted, or the one that runs completes; its receiver then submits more.
pub data Event : Type 0 where
  submits : ℕ → Event
  completed : Completion → List ℕ → Event

abbrev pub submitted : List Event → List ℕ
submitted [] = []
submitted (submits op ∷ es) = op ∷ submitted es
submitted (completed how ops ∷ es) = ops ++ submitted es

abbrev pub listed : Option ℕ → List ℕ
listed none = []
listed (some op) = op ∷ []

abbrev pub ended : {S : Type 0} → Senders S → List ℕ
ended r = map (λ t. t.0) r.told

ended-snoc :
    (told : List (ℕ × Completion)) (op : ℕ) (how : Completion)
    → map (λ t. t.0) (told ++ ((op, how) ∷ [])) ≡ map (λ t. t.0) told ++ (op ∷ [])
ended-snoc [] op how = refl
ended-snoc (t ∷ told) op how = ap (λ r. t.0 ∷ r) (ended-snoc told op how)

added :
    (done cur ws ops all : List ℕ)
    → done ++ (cur ++ ws) ≡ all
    → done ++ (cur ++ (ws ++ ops)) ≡ all ++ ops
added done cur ws ops all e =
    ap (λ k. done ++ k) (sym (append_assoc cur ws ops))
    ∙ sym (append_assoc done (cur ++ ws) ops)
    ∙ ap (λ k. k ++ ops) e

module _ {S : Type 0} (begins completes : ℕ → S → S) where
  -- The operations one after the other, each started when the one before has completed.
  unfoldable pub one_by_one : List ℕ → S → S
  one_by_one [] s = s
  one_by_one (op ∷ ops) s = one_by_one ops (completes op (begins op s))

  -- After some operations, where another may have started.
  abbrev pub reached : List ℕ → Option ℕ → S → S
  reached done none s = one_by_one done s
  reached done (some op) s = begins op (one_by_one done s)

  one_by_one-snoc :
      (ops : List ℕ) (op : ℕ) (s : S)
      → one_by_one (ops ++ (op ∷ [])) s ≡ completes op (begins op (one_by_one ops s))
  unfolding one_by_one
  one_by_one-snoc [] op s = refl
  one_by_one-snoc (o ∷ ops) op s = one_by_one-snoc ops op (completes o (begins o s))

  record Inv (r : Senders S) (s0 : S) (all : List ℕ) : Type 0 where
    order : ended r ++ (listed r.fifo.current ++ r.fifo.waiters) ≡ all
    state_is : r.state ≡ reached (ended r) r.fifo.current s0
    busy : r.fifo.current ≡ none → r.fifo.waiters ≡ []

  -- Where nothing runs, all have completed.
  all_is :
      (r : Senders S) (s0 : S) (all : List ℕ) → Inv r s0 all → r.fifo.current ≡ none → all ≡ ended r
  all_is r s0 all v e =
      sym v.order
      ∙ ap (λ k. ended r ++ (listed k ++ r.fifo.waiters)) e
      ∙ ap (λ w. ended r ++ w) (v.busy e)
      ∙ append-nil (ended r)

  start-Inv :
      (r : Senders S) (s0 : S) (all : List ℕ) (op : ℕ)
      → Inv r s0 all
      → Inv (start begins r op) s0 (all ++ (op ∷ []))
  unfolding start do_start
  start-Inv r s0 all op v = elim (Option-cases r.fifo.current) [
    | inl e ↦
        let f : Fifo = record r.fifo { current = some op } in
        let empty = v.busy e in
        let same : start begins r op ≡ record r { fifo = f; state = begins op r.state } =
          ap (λ p. do_start begins (record r { fifo = p.0 }) p.1) (on_start-idle r.fifo op e) in
        subst (λ r'. Inv r' s0 (all ++ (op ∷ []))) (sym same)
          (record {
            order =
                ap (λ w. ended r ++ (op ∷ w)) empty
                ∙ ap (λ k. k ++ (op ∷ [])) (sym (all_is r s0 all v e));
            state_is = ap (λ s. begins op s) (v.state_is ∙ ap (λ k. reached (ended r) k s0) e);
            busy = λ n. cc;
          })
    | inr (c, e) ↦
        let f : Fifo = record r.fifo { waiters = r.fifo.waiters ++ (op ∷ []) } in
        let same : start begins r op ≡ record r { fifo = f } =
          ap (λ p. do_start begins (record r { fifo = p.0 }) p.1) (on_start-busy r.fifo op c e) in
        subst (λ r'. Inv r' s0 (all ++ (op ∷ []))) (sym same)
          (record {
            order = added (ended r) (listed r.fifo.current) r.fifo.waiters (op ∷ []) all v.order;
            state_is = v.state_is;
            busy = λ n. cc;
          })
  ]

  start_all-Inv :
      (ops : List ℕ) (r : Senders S) (s0 : S) (all : List ℕ)
      → Inv r s0 all
      → Inv (start_all begins r ops) s0 (all ++ ops)
  unfolding start_all
  start_all-Inv [] r s0 all v = subst (λ k. Inv r s0 k) (sym (append-nil all)) v
  start_all-Inv (op ∷ ops) r s0 all v =
      subst (λ k. Inv (start_all begins (start begins r op) ops) s0 k)
        (append_assoc all (op ∷ []) ops)
        (start_all-Inv ops (start begins r op) s0 (all ++ (op ∷ [])) (start-Inv r s0 all op v))

  -- While an operation runs, others only join the line.
  start_all-busy :
      (ops : List ℕ) (r : Senders S) (c : ℕ)
      → r.fifo.current ≡ some c
      → start_all begins r ops
        ≡ record r { fifo = record r.fifo { waiters = r.fifo.waiters ++ ops } }
  unfolding start_all start do_start
  start_all-busy [] r c e =
      ap (λ w. record r { fifo = record r.fifo { waiters = w } }) (sym (append-nil r.fifo.waiters))
  start_all-busy (op ∷ ops) r c e =
      let r' : Senders S = record r {
        fifo = record r.fifo { waiters = r.fifo.waiters ++ (op ∷ []) };
      } in
      ap (λ p. start_all begins (do_start begins (record r { fifo = p.0 }) p.1) ops)
        (on_start-busy r.fifo op c e)
      ∙ start_all-busy ops r' c e
      ∙ ap (λ w. record r { fifo = record r.fifo { waiters = w } })
          (append_assoc r.fifo.waiters (op ∷ []) ops)

  -- The next in line starts in the state that the one before has left.
  next-Inv :
      (r : Senders S) (s0 : S) (all : List ℕ)
      → ended r ++ r.fifo.waiters ≡ all
      → r.state ≡ one_by_one (ended r) s0
      → let (f, started) = on_end r.fifo in
        Inv (do_start begins (record r { fifo = f }) started) s0 all
  unfolding do_start
  next-Inv r s0 all order state_is = elim (List-cases r.fifo.waiters) [
    | inl e ↦
        subst (λ p. Inv (do_start begins (record r { fifo = p.0 }) p.1) s0 all)
          (sym (on_end-last r.fifo e))
          (record { order = order; state_is = state_is; busy = λ n. e })
    | inr (op, ws, e) ↦
        subst (λ p. Inv (do_start begins (record r { fifo = p.0 }) p.1) s0 all)
          (sym (on_end-next r.fifo op ws e))
          (record {
            order = ap (λ k. ended r ++ k) (sym e) ∙ order;
            state_is = ap (λ s. begins op s) state_is;
            busy = λ n. cc;
          })
  ]

  -- The operation that ran is told, and those that its receiver submitted are in the line.
  told-Inv :
      (r : Senders S) (s0 : S) (all : List ℕ) (how : Completion) (ops : List ℕ) (op : ℕ)
      → Inv r s0 all
      → r.fifo.current ≡ some op
      → let r' = record r {
        fifo = record r.fifo { waiters = r.fifo.waiters ++ ops };
        state = completes op r.state;
        told = r.told ++ ((op, how) ∷ []);
      } in
        (ended r' ++ r'.fifo.waiters ≡ all ++ ops) × (r'.state ≡ one_by_one (ended r') s0)
  told-Inv r s0 all how ops op v e =
      let more = ended-snoc r.told op how in
      let w = r.fifo.waiters in
      let before : ended r ++ ((op ∷ []) ++ w) ≡ all =
        ap (λ k. ended r ++ (listed k ++ w)) (sym e) ∙ v.order in
      let ran : r.state ≡ begins op (one_by_one (ended r) s0) =
        v.state_is ∙ ap (λ k. reached (ended r) k s0) e in
      (
        ap (λ k. k ++ (w ++ ops)) more
            ∙ append_assoc (ended r) (op ∷ []) (w ++ ops)
            ∙ added (ended r) (op ∷ []) w ops all before,
        ap (λ s. completes op s) ran
            ∙ sym (one_by_one-snoc (ended r) op s0)
            ∙ ap (λ k. one_by_one k s0) (sym more),
      )

  complete-Inv :
      (r : Senders S) (s0 : S) (all : List ℕ) (how : Completion) (ops : List ℕ)
      → Inv r s0 all
      → Inv (complete begins completes r how ops) s0 (all ++ ops)
  unfolding complete recv
  complete-Inv r s0 all how ops v = elim (Option-cases r.fifo.current) [
    | inl e ↦ rw (e, complete) (start_all-Inv ops r s0 all v)
    | inr (op, e) ↦
        let told = r.told ++ ((op, how) ∷ []) in
        let r1 : Senders S = record r { state = completes op r.state; told = told } in
        let r' : Senders S = record r1 {
          fifo = record r.fifo { waiters = r.fifo.waiters ++ ops };
        } in
        let line = told-Inv r s0 all how ops op v e in
        let after : Senders S → Senders S =
          λ q. do_start begins (record q { fifo = (on_end q.fifo).0 }) (on_end q.fifo).1 in
        let same : complete begins completes r how ops ≡ after (start_all begins r1 ops) =
          ap
            (λ (k : Option ℕ). elim k as (λ x. Senders S) [
              | none ↦ start_all begins r ops
              | some o ↦ recv begins completes r o how ops
            ])
            e in
        subst (λ q. Inv q s0 (all ++ ops)) (sym (same ∙ ap after (start_all-busy ops r1 op e)))
          (next-Inv r' s0 (all ++ ops) line.0 line.1)
  ]

  step : Senders S → Event → Senders S
  step r (submits op) = start begins r op
  step r (completed how ops) = complete begins completes r how ops

  unfoldable pub run : Senders S → List Event → Senders S
  unfolding step
  run r [] = r
  run r (e ∷ es) = run (step r e) es

  run-Inv :
      (es : List Event) (r : Senders S) (s0 : S) (all : List ℕ)
      → Inv r s0 all
      → Inv (run r es) s0 (all ++ submitted es)
  unfolding run step
  run-Inv [] r s0 all v = subst (λ k. Inv r s0 k) (sym (append-nil all)) v
  run-Inv (submits op ∷ es) r s0 all v =
      subst (λ k. Inv (run (start begins r op) es) s0 k) (append_assoc all (op ∷ []) (submitted es))
        (run-Inv es (start begins r op) s0 (all ++ (op ∷ [])) (start-Inv r s0 all op v))
  run-Inv (completed how ops ∷ es) r s0 all v =
      let r' = complete begins completes r how ops in
      subst (λ k. Inv (run r' es) s0 k) (append_assoc all ops (submitted es))
        (run-Inv es r' s0 (all ++ ops) (complete-Inv r s0 all how ops v))

  abbrev pub unused : S → Senders S
  unused s = record { fifo = idle; state = s; told = [] }

  unused-Inv : (s : S) → Inv (unused s) s []
  unfolding one_by_one
  unused-Inv s = record { order = refl; state_is = refl; busy = λ e. refl }

  -- Operations that an unused `async_sender_fifo` wraps do not interleave, whenever they are submitted and
  -- complete, also where a receiver submits more: those that have completed, the one that runs and
  -- those that wait are together those submitted, in order; and the shared state is the one to which those that have
  -- completed lead when they run one by one, then the start of the one that runs.
  pub run-one_by_one :
      (s : S) (es : List Event)
      → let r = run (unused s) es in
        (ended r ++ (listed r.fifo.current ++ r.fifo.waiters) ≡ submitted es)
        × (r.state ≡ reached (ended r) r.fifo.current s)
  run-one_by_one s es = let v = run-Inv es (unused s) s [] (unused-Inv s) in (v.order, v.state_is)
