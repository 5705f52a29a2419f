-- ===== src/Async/Fifo/Cases.antt =====
-- The cases of `on_start` and `on_end` of src/util/async_sender_fifo.hpp.
use trctl.Base.{ℕ, ◌≡◌, ap, Option, none, some, List, [], ◌∷◌, ◌++◌}
use trctl.Async.Fifo.{Fifo, on_start, on_end}

pub on_start-idle :
    (f : Fifo) (op : ℕ)
    → f.current ≡ none
    → on_start f op ≡ (record f { current = some op }, some op)
unfolding on_start
on_start-idle f op e =
    ap
      (λ (k : Option ℕ). elim k as (λ x. Fifo × Option ℕ) [
        | none ↦ (record f { current = some op }, some op)
        | some c ↦ (record f { waiters = f.waiters ++ (op ∷ []) }, none)
      ])
      e

pub on_start-busy :
    (f : Fifo) (op c : ℕ)
    → f.current ≡ some c
    → on_start f op ≡ (record f { waiters = f.waiters ++ (op ∷ []) }, none)
unfolding on_start
on_start-busy f op c e =
    ap
      (λ (k : Option ℕ). elim k as (λ x. Fifo × Option ℕ) [
        | none ↦ (record f { current = some op }, some op)
        | some c ↦ (record f { waiters = f.waiters ++ (op ∷ []) }, none)
      ])
      e

pub on_end-last : (f : Fifo) → f.waiters ≡ [] → on_end f ≡ (record f { current = none }, none)
unfolding on_end
on_end-last f e =
    ap
      (λ (k : List ℕ). elim k as (λ x. Fifo × Option ℕ) [
        | [] ↦ (record f { current = none }, none)
        | op ∷ ws ↦ (record { waiters = ws; current = some op }, some op)
      ])
      e

pub on_end-next :
    (f : Fifo) (op : ℕ) (ws : List ℕ)
    → f.waiters ≡ op ∷ ws
    → on_end f ≡ (record { waiters = ws; current = some op }, some op)
unfolding on_end
on_end-next f op ws e =
    ap
      (λ (k : List ℕ). elim k as (λ x. Fifo × Option ℕ) [
        | [] ↦ (record f { current = none }, none)
        | op ∷ ws ↦ (record { waiters = ws; current = some op }, some op)
      ])
      e
