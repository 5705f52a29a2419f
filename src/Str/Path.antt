-- ===== src/Str/Path.antt =====
-- The text in a `fixed_str`: what appending a piece makes of it, and how to go back.
use trctl.Base.{
  ℕ, zero, suc, ◌+◌, ◌-◌, ◌≤◌, ◌<◌, ◌≡◌, refl, sym, ap, ◌∙◌, List, [], ◌∷◌, ◌++◌, append_assoc,
  append-nil, arith, le→ltb, lt→ltb, length, take, drop, set, All, length-append, length-take,
  length-drop, take-append, set-append, All-append, dec_lt, length-set,
}
use trctl.Str.{Buffer, memcpy, append, set_end, str}

abbrev pub Text : List ℕ → Type 0
Text = All (λ c. 0 < c)

-- The buffer holds the text `t`, ended by a 0 at `length t`.
pub record Holds (buf : Buffer) (t : List ℕ) (size : ℕ) : Type 0 where
  pub rest : List ℕ
  pub buffer_is : buf ≡ t ++ (0 ∷ rest)
  pub text : Text t
  pub size_is : length buf ≡ size

pub str-text : (t rest : List ℕ) → Text t → str (t ++ (0 ∷ rest)) ≡ t
unfolding str
str-text [] rest h = refl
str-text (c ∷ t) rest h = ground (arith, str-text t rest h.1, h.0)

pub str-Holds : (buf : Buffer) (t : List ℕ) (size : ℕ) → Holds buf t size → str buf ≡ t
str-Holds buf t size h = ap str h.buffer_is ∙ str-text t h.rest h.text

Text-take : (n : ℕ) (t : List ℕ) → Text t → Text (take n t)
Text-take zero t h = tt
Text-take (suc n) [] h = tt
Text-take (suc n) (c ∷ t) h = (h.0, Text-take n t h.1)

Text-front : (t u : List ℕ) → Text (t ++ u) → Text t
Text-front [] u h = tt
Text-front (c ∷ t) u h = (h.0, Text-front t u h.1)

pub take-all : (n : ℕ) (xs : List ℕ) → length xs ≤ n → take n xs ≡ xs
take-all zero [] h = refl
take-all zero (x ∷ xs) h = absurd (omega arith)
take-all (suc n) [] h = refl
take-all (suc n) (x ∷ xs) h = ap (λ r. x ∷ r) (take-all n xs (omega arith))

drop-shape : (i : ℕ) (xs : List ℕ) → i < length xs → (y : ℕ) × (ys : List ℕ) × (drop i xs ≡ y ∷ ys)
drop-shape i [] h = absurd (omega arith)
drop-shape zero (x ∷ xs) h = (x, xs, refl)
drop-shape (suc i) (x ∷ xs) h = drop-shape i xs (omega arith)

terminate :
    (t : List ℕ) (y : ℕ) (rest buf : List ℕ) (size : ℕ)
    → buf ≡ t ++ (y ∷ rest)
    → Text t
    → length buf ≡ size
    → Holds (set buf (length t) 0) t size
terminate t y rest buf size e h len =
    let is : set buf (length t) 0 ≡ t ++ (0 ∷ rest) =
      rw e (set-append t y rest (length t) 0 refl) in
    record { rest = rest; buffer_is = is; text = h; size_is = length-set buf (length t) 0 ∙ len }

-- Going back to the end of a front part of the text, which another node still has, cuts the text there.
pub set_end-Holds :
    (buf : Buffer) (t u : List ℕ) (size : ℕ)
    → Holds buf (t ++ u) size
    → Holds (set_end buf (length t)) t size
unfolding set_end
set_end-Holds buf t [] size h =
    terminate t 0 h.rest buf size (h.buffer_is ∙ ap (λ r. r ++ (0 ∷ h.rest)) (append-nil t))
      (Text-front t [] h.text) h.size_is
set_end-Holds buf t (c ∷ u) size h =
    terminate t c (u ++ (0 ∷ h.rest)) buf size (h.buffer_is ∙ append_assoc t (c ∷ u) (0 ∷ h.rest))
      (Text-front t (c ∷ u) h.text) h.size_is

copied :
    (buf : Buffer) (t sv : List ℕ) (n size : ℕ)
    → Holds buf t size
    → Text sv
    → n ≤ length sv
    → length t + n < size
    → Holds (set (memcpy buf (length t) sv n) (length t + n) 0) (t ++ take n sv) size
unfolding memcpy
copied buf t sv n size h g le lt =
    let kept : length (take n sv) ≡ n = omega (arith, length-take n sv) in
    let front : take (length t) buf ≡ t =
      ap (λ r. take (length t) r) h.buffer_is ∙ take-append t (0 ∷ h.rest) (length t) refl in
    let (y, ys, shape) =
      drop-shape (length t + length (take n sv)) buf (omega (arith, kept, h.size_is)) in
    let long : length (t ++ take n sv) ≡ length t + n =
      omega (arith, length-append t (take n sv), kept) in
    let size_is : length (t ++ (take n sv ++ (y ∷ ys))) ≡ size = omega (
      arith,
      length-append (take n sv) (y ∷ ys),
      length-append t (take n sv ++ (y ∷ ys)),
      ap length shape,
      length-drop (length t + length (take n sv)) buf,
      kept,
      h.size_is,
    ) in
    rw (front, shape, ← long)
      (terminate (t ++ take n sv) y ys (t ++ (take n sv ++ (y ∷ ys))) size
        (sym (append_assoc t (take n sv) (y ∷ ys)))
        (All-append (λ c. 0 < c) t (take n sv) h.text (Text-take n sv g)) size_is)

-- A piece is appended to the text, as much of it as leaves room for the ending 0.
pub append-Holds :
    (buf : Buffer) (t sv : List ℕ) (size : ℕ)
    → Holds buf t size
    → Text sv
    → let (buf', p') = append buf (length t) sv in
      let kept = take (size - length t - 1) sv in
      Holds buf' (t ++ kept) size × (p' ≡ length (t ++ kept))
unfolding append
append-Holds buf t sv size h g =
    let room : length t < size =
      omega (arith, h.size_is, ap length h.buffer_is, length-append t (0 ∷ h.rest)) in
    let filled : (n : ℕ)
        → n ≤ length sv
        → length t + n < size
        → size - 1 ≡ length t + n
        → Holds (set (memcpy buf (length t) sv n) (size - 1) 0) (t ++ take n sv) size
          × (size - 1 ≡ length (t ++ take n sv)) =
      λ n le lt at. (
        rw at (copied buf t sv n size h g le lt),
        at ∙ sym (omega (arith, length-append t (take n sv), length-take n sv)),
      ) in
    let whole : length t + length sv + 1 ≤ size
        → Holds
            (set (memcpy buf (length t) sv (length t + length sv + 1 - length t - 1))
              (length t + length sv + 1 - 1) 0)
            (t ++ take (size - length t - 1) sv) size
          × (length t + length sv + 1 - 1 ≡ length (t ++ take (size - length t - 1) sv)) =
      λ le.
        let gap : length t + length sv + 1 - length t - 1 ≡ length sv = omega arith in
        let at : length t + length sv + 1 - 1 ≡ length t + length sv = omega arith in
        let kept : take (size - length t - 1) sv ≡ take (length sv) sv =
          take-all (size - length t - 1) sv (omega arith)
          ∙ sym (take-all (length sv) sv (omega arith)) in
        let long : length t + length sv ≡ length (t ++ take (length sv) sv) =
          omega (arith, length-append t (take (length sv) sv), length-take (length sv) sv) in
        rw (gap, at, kept)
          (copied buf t sv (length sv) size h g (omega arith) (omega arith), long) in
    elim (dec_lt size (length t + length sv + 1)) [
      | yes over ↦
          rw (lt→ltb (length buf) (length t + length sv + 1) (omega (arith, h.size_is)), h.size_is)
            (filled (size - length t - 1) (omega (arith, over)) (omega (arith, room))
              (omega (arith, room)))
      | no fits ↦
          rw (le→ltb (length buf) (length t + length sv + 1) (omega (arith, h.size_is)))
            (whole (omega (arith, fits)))
    ]
