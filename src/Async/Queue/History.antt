-- ===== src/Async/Queue/History.antt =====
-- An `async_queue` against its history: the items enqueued and the operations started, in order.
use trctl.Base.{
  ℕ, ◌≡◌, refl, sym, ap, ◌∙◌, ◌⊎◌, inl, inr, List, [], ◌∷◌, ◌++◌, append-nil, append_assoc, map,
  length, drop, drop-nil,
}
use trctl.Async.Queue.{Queue, Done, empty, enque, enque_all, hand_out, deque_start}

-- The calls of a program that uses no `enque_all`.
pub data Call {ℓ} (T : Type ℓ) : Type ℓ where
  enques : T → Call T
  deques : ℕ → Call T

module _ {ℓ} {T : Type ℓ} where
  step : Queue T → Call T → Queue T × Done T
  step q (enques item) = enque q item
  step q (deques op) = deque_start q op

  unfoldable pub run : Queue T → List (Call T) → Queue T × Done T
  unfolding step
  run q [] = (q, [])
  run q (c ∷ cs) = let (q', now) = step q c in let (q'', later) = run q' cs in (q'', now ++ later)

  abbrev pub items : List (Call T) → List T
  items [] = []
  items (enques item ∷ cs) = item ∷ items cs
  items (deques op ∷ cs) = items cs

  abbrev pub ops : List (Call T) → List ℕ
  ops [] = []
  ops (enques item ∷ cs) = ops cs
  ops (deques op ∷ cs) = op ∷ ops cs

  -- The first operation with the first item, and so on.
  abbrev pub pairs : List ℕ → List T → Done T
  pairs [] xs = []
  pairs (o ∷ os) [] = []
  pairs (o ∷ os) (x ∷ xs) = (o, x) ∷ pairs os xs

  -- Nobody waits while there is an item.
  pub record IsServed (q : Queue T) : Type ℓ where
    pub either : (q.queue ≡ []) ⊎ (q.deque_waiters ≡ [])

  -- The effect of a run that starts with the items `xs` and the waiters `os`.
  record Is (q : Queue T) (done : Done T) (os : List ℕ) (xs : List T) : Type ℓ where
    done_is : done ≡ pairs os xs
    queue_is : q.queue ≡ drop (length os) xs
    waiters_is : q.deque_waiters ≡ drop (length xs) os

  Is-cons :
      {q : Queue T} {done : Done T} (os : List ℕ) (xs : List T) (o : ℕ) (x : T)
      → Is q done os xs
      → Is q ((o, x) ∷ done) (o ∷ os) (x ∷ xs)
  Is-cons os xs o x h = record {
    done_is = ap (λ t. (o, x) ∷ t) h.done_is;
    queue_is = h.queue_is;
    waiters_is = h.waiters_is;
  }

  run-Is :
      (cs : List (Call T)) (xs : List T) (os : List ℕ)
      → (xs ≡ []) ⊎ (os ≡ [])
      → let r = run (record { queue = xs; deque_waiters = os }) cs in
        Is r.0 r.1 (os ++ ops cs) (xs ++ items cs)
  unfolding run enque deque_start
  run-Is [] xs [] h =
      rw (append-nil xs)
        (record { done_is = refl; queue_is = refl; waiters_is = sym (drop-nil ℕ (length xs)) })
  run-Is [] [] (o ∷ os) h =
      rw (append-nil os) (record { done_is = refl; queue_is = refl; waiters_is = refl })
  run-Is [] (x ∷ xs) (o ∷ os) (inl e) = cc
  run-Is [] (x ∷ xs) (o ∷ os) (inr e) = cc
  run-Is (enques item ∷ cs) xs [] h =
      rw (append_assoc xs (item ∷ []) (items cs)) at (run-Is cs (xs ++ (item ∷ [])) [] (inr refl))
  run-Is (enques item ∷ cs) [] (o ∷ os) h =
      Is-cons (os ++ ops cs) (items cs) o item (run-Is cs [] os (inl refl))
  run-Is (enques item ∷ cs) (x ∷ xs) (o ∷ os) (inl e) = cc
  run-Is (enques item ∷ cs) (x ∷ xs) (o ∷ os) (inr e) = cc
  run-Is (deques op ∷ cs) [] os h =
      rw (append_assoc os (op ∷ []) (ops cs)) at (run-Is cs [] (os ++ (op ∷ [])) (inl refl))
  run-Is (deques op ∷ cs) (x ∷ xs) [] h =
      Is-cons (ops cs) (xs ++ items cs) op x (run-Is cs xs [] (inr refl))
  run-Is (deques op ∷ cs) (x ∷ xs) (o ∷ os) (inl e) = cc
  run-Is (deques op ∷ cs) (x ∷ xs) (o ∷ os) (inr e) = cc

  -- After any calls of `enque` and starts of `deque` on an empty queue, with no `enque_all` among them, the k-th
  -- operation started has got the k-th item enqueued; the
  -- items that no operation has asked for are queued, and the operations with no item wait, in order.
  pub run-history :
      (cs : List (Call T))
      → ((run empty cs).1 ≡ pairs (ops cs) (items cs))
        × ((run empty cs).0.queue ≡ drop (length (ops cs)) (items cs))
        × ((run empty cs).0.deque_waiters ≡ drop (length (items cs)) (ops cs))
  run-history cs = let h = run-Is cs [] [] (inl refl) in (h.done_is, h.queue_is, h.waiters_is)

  hand_out-all :
      (moved : T → T) (item : T) (ws : List ℕ)
      → moved item ≡ item
      → hand_out moved item ws ≡ map (λ w. (w, item)) ws
  unfolding hand_out
  hand_out-all moved item [] e = refl
  hand_out-all moved item (w ∷ ws) e =
      ap (λ t. (w, item) ∷ t) (ap (λ t. hand_out moved t ws) e ∙ hand_out-all moved item ws e)

  record Broadcast (xs : List T) (os : List ℕ) (item : T) (r : Queue T × Done T) : Type ℓ where
    done_is : r.1 ≡ map (λ w. (w, item)) os
    none_waits : r.0.deque_waiters ≡ []
    queue_is : ((os ≡ []) × (r.0.queue ≡ xs ++ (item ∷ []))) ⊎ (r.0.queue ≡ [])

  broadcast :
      (moved : T → T) (xs : List T) (os : List ℕ) (item : T)
      → moved item ≡ item
      → (xs ≡ []) ⊎ (os ≡ [])
      → Broadcast xs os item (enque_all moved (record { queue = xs; deque_waiters = os }) item)
  unfolding enque_all
  broadcast moved xs [] item e h = record {
    done_is = refl;
    none_waits = refl;
    queue_is = inl (refl, refl);
  }
  broadcast moved [] (o ∷ os) item e h = record {
    done_is = hand_out-all moved item (o ∷ os) e;
    none_waits = refl;
    queue_is = inr refl;
  }
  broadcast moved (x ∷ xs) (o ∷ os) item e (inl p) = cc
  broadcast moved (x ∷ xs) (o ∷ os) item e (inr p) = cc

  -- In a queue where nobody waits while there is an item, `enque_all` gives the item to every waiter, in
  -- order, and leaves none; with no waiter it queues the item. A move must leave the item as it was.
  enque_all-broadcast :
      (moved : T → T) (q : Queue T) (item : T)
      → moved item ≡ item
      → (q.queue ≡ []) ⊎ (q.deque_waiters ≡ [])
      → let r = enque_all moved q item in
        (r.1 ≡ map (λ w. (w, item)) q.deque_waiters)
        × (r.0.deque_waiters ≡ [])
        × (((q.deque_waiters ≡ []) × (r.0.queue ≡ q.queue ++ (item ∷ []))) ⊎ (r.0.queue ≡ []))
  enque_all-broadcast moved q item e h =
      let b = broadcast moved q.queue q.deque_waiters item e h in
      (b.done_is, b.none_waits, b.queue_is)
