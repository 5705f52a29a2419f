-- ===== src/Process/Pages.antt =====
-- The pages of `task_list` of src/unit/process.hpp.
use trctl.Base.{
  ℕ, zero, suc, ◌+◌, ◌*◌, ◌≤◌, min, ◌≡◌, refl, sym, ap, ap₂, ◌∙◌, List, [], ◌∷◌, ◌++◌, map, length,
  take, drop, arith, drop-nil, drop-drop, drop-all, take-append-drop,
}
use trctl.Async.Storage.{AsyncMap}
use trctl.Process.{Proc, list_from, task_list}

abbrev pub keys : {V : Type 0} → List (ℕ × V) → List ℕ
keys = map λ e. e.0

length-keys : {V : Type 0} (es : List (ℕ × V)) → length (keys es) ≡ length es
length-keys [] = refl
length-keys (e ∷ es) = ap suc (length-keys es)

list_from-take :
    {V : Type 0} (es : List (ℕ × V)) (room : ℕ) → list_from es room ≡ take room (keys es)
unfolding list_from
list_from-take [] zero = refl
list_from-take [] (suc room) = refl
list_from-take (e ∷ es) zero = refl
list_from-take (e ∷ es) (suc room) = ap (λ t. e.0 ∷ t) (list_from-take es room)

keys-drop :
    {V : Type 0} (i : ℕ) (es : List (ℕ × V)) → keys (drop (min i (length es)) es) ≡ drop i (keys es)
keys-drop zero [] = refl
keys-drop {V} zero (e ∷ es) =
    let none_dropped : min 0 (suc (length es)) ≡ 0 = omega arith in
    ap (λ k. keys (drop k (e ∷ es))) none_dropped
keys-drop {V} (suc i) [] = ap keys (drop-nil (ℕ × V) (min (suc i) 0))
keys-drop (suc i) (e ∷ es) =
    let shift : min (suc i) (suc (length es)) ≡ suc (min i (length es)) = omega arith in
    ap (λ k. keys (drop k (e ∷ es))) shift ∙ keys-drop i es

-- The tasks listed are those from the place `offset` on in the order of their ids, `n` at most.
pub task_list-take :
    (m : AsyncMap ℕ Proc) (offset n : ℕ) → task_list m offset n ≡ take n (drop offset (keys m.m))
unfolding task_list
task_list-take m offset n =
    list_from-take (drop (min offset (length m.m)) m.m) n
    ∙ ap (λ t. take n t) (keys-drop offset m.m)

-- The ids that a client gets that asks for `k` pages of `n` tasks, the first from the place `i` on.
abbrev pub pages : AsyncMap ℕ Proc → ℕ → ℕ → ℕ → List ℕ
pages m n i zero = []
pages m n i (suc k) = task_list m i n ++ pages m n (i + n) k

take-drop_append : (n i : ℕ) (xs : List ℕ) → take n (drop i xs) ++ drop (i + n) xs ≡ drop i xs
take-drop_append n i xs =
    ap (λ t. take n (drop i xs) ++ t) (sym (drop-drop i n xs)) ∙ take-append-drop n (drop i xs)

-- A client that asks for the tasks page by page, `n` at a time from the place `i` on, and for pages enough to reach
-- the end, while the map stays as it is, gets the ids of all tasks from there on, each as often as it is in the map and in the order of the map.
pub task_list-pages :
    (m : AsyncMap ℕ Proc) (n i k : ℕ) → length m.m ≤ i + k * n → pages m n i k ≡ drop i (keys m.m)
task_list-pages m n i zero h = sym (drop-all i (keys m.m) (omega (arith, length-keys m.m)))
task_list-pages m n i (suc k) h =
    ap₂ (λ s t. s ++ t) (task_list-take m i n) (task_list-pages m n (i + n) k (omega arith))
    ∙ take-drop_append n i (keys m.m)
