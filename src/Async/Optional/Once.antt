-- ===== src/Async/Optional/Once.antt =====
-- Each operation on an `async_optional` completes once, as soon as there is a value.
use trctl.Base.{
  ℕ, ◌≡◌, refl, sym, ap, ◌⊎◌, inl, inr, Option, none, some, List, [], ◌∷◌, ◌++◌, map, append-nil,
  append_assoc, map-append,
}
use trctl.Async.Optional.{Optional, empty, emplace, start}

pub data Call {ℓ} (T : Type ℓ) : Type ℓ where
  emplaces : T → Call T
  starts : ℕ → Call T

module _ {ℓ} {T : Type ℓ} where
  step : Optional T → Call T → Optional T × List (ℕ × T)
  step o (emplaces value) = emplace o value
  step o (starts op) = start o op

  unfoldable pub run : Optional T → List (Call T) → Optional T × List (ℕ × T)
  unfolding step
  run o [] = (o, [])
  run o (c ∷ cs) = let (o', now) = step o c in let (o'', later) = run o' cs in (o'', now ++ later)

  abbrev pub ops : List (Call T) → List ℕ
  ops [] = []
  ops (emplaces value ∷ cs) = ops cs
  ops (starts op ∷ cs) = op ∷ ops cs

  -- The last value put in.
  abbrev pub latest : Option T → List (Call T) → Option T
  latest v [] = v
  latest v (emplaces value ∷ cs) = latest (some value) cs
  latest v (starts op ∷ cs) = latest v cs

  abbrev pub names : List (ℕ × T) → List ℕ
  names = map λ d. d.0

  -- Waiting only without a value.
  record Is (o : Optional T) (done : List (ℕ × T)) (os : List ℕ) (v : Option T) : Type ℓ where
    names_are : names done ++ o.waiters ≡ os
    opt_is : o.opt ≡ v
    either : (o.opt ≡ none) ⊎ (o.waiters ≡ [])

  names-all : (ws : List ℕ) (value : T) → names (map (λ w. (w, value)) ws) ≡ ws
  names-all [] value = refl
  names-all (w ∷ ws) value = ap (λ t. w ∷ t) (names-all ws value)

  run-Is :
      (cs : List (Call T)) (v : Option T) (ws : List ℕ)
      → (v ≡ none) ⊎ (ws ≡ [])
      → let r = run (record { opt = v; waiters = ws }) cs in Is r.0 r.1 (ws ++ ops cs) (latest v cs)
  unfolding run start emplace
  run-Is [] v ws h = record { names_are = sym (append-nil ws); opt_is = refl; either = h }
  run-Is (emplaces value ∷ cs) v ws h =
      let k = run-Is cs (some value) [] (inr refl) in
      record {
        names_are =
            rw
              (
                map-append (λ d. d.0) (map (λ w. (w, value)) ws)
                    (run (record { opt = some value; waiters = [] }) cs).1,
                names-all ws value,
                append_assoc ws (names (run (record { opt = some value; waiters = [] }) cs).1)
                    (run (record { opt = some value; waiters = [] }) cs).0.waiters,
              )
              (ap (λ t. ws ++ t) k.names_are);
        opt_is = k.opt_is;
        either = k.either;
      }
  run-Is (starts op ∷ cs) none ws h =
      rw (append_assoc ws (op ∷ []) (ops cs)) at (run-Is cs none (ws ++ (op ∷ [])) (inl refl))
  run-Is (starts op ∷ cs) (some v) [] h =
      let k = run-Is cs (some v) [] (inr refl) in
      record { names_are = ap (λ t. op ∷ t) k.names_are; opt_is = k.opt_is; either = k.either }
  run-Is (starts op ∷ cs) (some v) (w ∷ ws) (inl e) = cc
  run-Is (starts op ∷ cs) (some v) (w ∷ ws) (inr e) = cc

  -- After any calls on an empty `async_optional` it holds the last value put in; the operations that
  -- have completed, and then those that wait, are those started, each once and in order; and none waits
  -- once there is a value.
  pub run-once :
      (cs : List (Call T))
      → (names (run empty cs).1 ++ (run empty cs).0.waiters ≡ ops cs)
        × ((run empty cs).0.opt ≡ latest none cs)
        × (((run empty cs).0.opt ≡ none) ⊎ ((run empty cs).0.waiters ≡ []))
  run-once cs = let k = run-Is cs none [] (inl refl) in (k.names_are, k.opt_is, k.either)
