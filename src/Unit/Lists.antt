-- ===== src/Unit/Lists.antt =====
-- The lists in the messages of src/unit/unit.hpp.
use trctl.Base.{
  ℕ, zero, suc, ◌+◌, ◌-◌, min, ◌≡◌, ◌≤◌, refl, sym, ap, ◌∙◌, List, [], ◌∷◌, ◌++◌, lt→ltb, le→ltb,
  length, take, drop, reverse, map, arith, dec_lt, drop-all,
}
use mathlib.Core.List.{reverse_aux}
use trctl.Str.{str}
use trctl.Unit.{args_from, task_args, shell_args, list_from, list_folders}

take-nil : (n : ℕ) → take {A = List ℕ} n [] ≡ []
take-nil zero = refl
take-nil (suc n) = refl

args_from-take : (i : ℕ) (args : List (List ℕ)) → i ≤ 31 → args_from i args ≡ take (31 - i) args
unfolding args_from
args_from-take i [] h = sym (take-nil (31 - i))
args_from-take i (p ∷ more) h = elim (dec_lt i 31) [
  | yes lt ↦
      let left : 31 - i ≡ suc (31 - (i + 1)) = omega (arith, lt) in
      rw (lt→ltb i 31 lt, left) (ap (λ t. p ∷ t) (args_from-take (i + 1) more (omega (arith, lt))))
  | no ge ↦
      let left : 31 - i ≡ 0 = omega (arith, ge) in rw (le→ltb i 31 (omega (arith, ge)), left) refl
]

-- A shell gets its own four arguments and the first 27 of the request, so that with the null at the end they
-- fit into the array of 32; any others are dropped.
task_args-take : (args : List (List ℕ)) → task_args args ≡ shell_args ++ take 27 args
unfolding task_args
task_args-take args = ap (λ t. shell_args ++ t) (args_from-take 4 args (omega arith))

-- The names of the entries.
abbrev pub names : List (List ℕ × ℕ) → List (List ℕ)
names = map λ e. str e.0

take-nil_entries : (n : ℕ) → take {A = List ℕ × ℕ} n [] ≡ []
take-nil_entries zero = refl
take-nil_entries (suc n) = refl

length-reverse_aux :
    (xs ys : List (List ℕ × ℕ)) → length (reverse_aux xs ys) ≡ length xs + length ys
length-reverse_aux [] ys = omega arith
length-reverse_aux (x ∷ xs) ys = omega (arith, length-reverse_aux xs (x ∷ ys))

list_from-take :
    (es : List (List ℕ × ℕ)) (count limit avail : ℕ) (acc : List (List ℕ))
    → list_from es count limit avail acc
      ≡ reverse_aux (names (take (min (limit - count) avail) es)) acc
unfolding list_from
list_from-take [] count limit avail acc =
    ap (λ t. reverse_aux (names t) acc) (sym (take-nil_entries (min (limit - count) avail)))
list_from-take (e ∷ es) count limit zero acc =
    let nothing_left : min (limit - count) 0 ≡ 0 = omega arith in rw nothing_left refl
list_from-take (e ∷ es) count limit (suc avail) acc = elim (dec_lt count limit) [
  | yes lt ↦
      let left : min (limit - count) (suc avail) ≡ suc (min (limit - (count + 1)) avail) =
        omega (arith, lt) in
      rw (lt→ltb count limit lt, left) (list_from-take es (count + 1) limit avail (str e.0 ∷ acc))
  | no ge ↦
      let left : min (limit - count) (suc avail) ≡ 0 = omega (arith, ge) in
      rw (le→ltb count limit (omega (arith, ge)), left) refl
]

drop-min : (n : ℕ) (es : List (List ℕ × ℕ)) → drop (min n (length es)) es ≡ drop n es
drop-min n es = elim (dec_lt n (length es)) [
  | yes lt ↦ let all_of : min n (length es) ≡ n = omega (arith, lt) in ap (λ k. drop k es) all_of
  | no ge ↦
      let all_of : min n (length es) ≡ length es = omega (arith, ge) in
      ap (λ k. drop k es) all_of
      ∙ drop-all (length es) es (omega arith)
      ∙ sym (drop-all n es (omega (arith, ge)))
]

-- The answer to a list request counts the folders from the last one: it leaves out `offset` of them, takes
-- `limit` at most, and as many as there is memory for, and has them in the order of the map.
pub list_folders-take :
    (entries : List (List ℕ × ℕ)) (offset limit avail : ℕ)
    → list_folders entries offset limit avail
      ≡ reverse (names (take (min limit avail) (drop offset (reverse entries))))
unfolding list_folders
list_folders-take entries offset limit avail =
    let same : length (reverse entries) ≡ length entries =
      omega (arith, length-reverse_aux entries []) in
    let all_left : min (limit - 0) avail ≡ min limit avail = omega arith in
    list_from-take (drop (min offset (length entries)) (reverse entries)) 0 limit avail []
    ∙ ap (λ k. reverse (names (take k (drop (min offset (length entries)) (reverse entries)))))
        all_left
    ∙ ap (λ k. reverse (names (take (min limit avail) (drop (min offset k) (reverse entries)))))
        (sym same)
    ∙ ap (λ t. reverse (names (take (min limit avail) t))) (drop-min offset (reverse entries))
