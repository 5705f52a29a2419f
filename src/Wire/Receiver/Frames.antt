-- ===== src/Wire/Receiver/Frames.antt =====
-- A byte stream cut at its zeros, as `cobs_receiver` of src/util.hpp reads it.
use trctl.Base.{
  ℕ, suc, ◌≡◌, refl, sym, ap, ◌∙◌, ◌≢◌, inl, inr, false, none, some, List, [], ◌∷◌, ◌++◌,
  append-nil, append_assoc, arith, ◌==◌, if◌then◌else◌, Bool-cases, ne→==, length, All, All-append,
  eq→==,
}
use trctl.Wire.Receiver.{find_zero}

-- The messages that zeros end, and the bytes behind the last zero; `cur` came before.
unfoldable pub frames : List ℕ → List ℕ → List (List ℕ) × List ℕ
frames cur [] = ([], cur)
frames cur (b ∷ bs) =
    let ended : List (List ℕ) × List ℕ = (cur ∷ (frames [] bs).0, (frames [] bs).1) in
    let longer = frames (cur ++ (b ∷ [])) bs in if b == 0 then ended else longer

unfoldable pub messages : List ℕ → List (List ℕ)
unfolding frames
messages s = (frames [] s).0

unfoldable pub pending : List ℕ → List ℕ
unfolding frames
pending s = (frames [] s).1

pub frames-zero :
    (cur bs : List ℕ) → frames cur (0 ∷ bs) ≡ (cur ∷ (frames [] bs).0, (frames [] bs).1)
unfolding frames
frames-zero cur bs = refl

frames-other :
    (cur : List ℕ) (b : ℕ) (bs : List ℕ)
    → (b == 0) ≡ false
    → frames cur (b ∷ bs) ≡ frames (cur ++ (b ∷ [])) bs
unfolding frames
frames-other cur b bs e = rw (e, frames)

-- The first zero of a stream, as `find_zero` and as `frames` see it.
pub data Found (cur s : List ℕ) : Type 0 where
  absent : find_zero s ≡ none → frames cur s ≡ ([], cur ++ s) → Found cur s
  present :
      (msg rest : List ℕ)
      → find_zero s ≡ some (length msg)
      → s ≡ msg ++ (0 ∷ rest)
      → frames cur s ≡ ((cur ++ msg) ∷ (frames [] rest).0, (frames [] rest).1)
      → Found cur s

find_zero-zero : (bs : List ℕ) → find_zero (0 ∷ bs) ≡ some 0
unfolding find_zero
find_zero-zero bs = refl

find_zero-none :
    (b : ℕ) (bs : List ℕ) → (b == 0) ≡ false → find_zero bs ≡ none → find_zero (b ∷ bs) ≡ none
unfolding find_zero
find_zero-none b bs e f = rw (e, find_zero, f)

find_zero-some :
    (b n : ℕ) (bs : List ℕ)
    → (b == 0) ≡ false
    → find_zero bs ≡ some n
    → find_zero (b ∷ bs) ≡ some (suc n)
unfolding find_zero
find_zero-some b n bs e f = rw (e, find_zero, f)

pub found : (cur s : List ℕ) → Found cur s
unfolding find_zero frames
found cur [] = absent refl (rw (append-nil cur))
found cur (b ∷ bs) = elim (Bool-cases (b == 0)) [
  | inl z ↦ let e : b ≡ 0 = ground arith in present [] bs (rw e) (rw e) (rw (e, append-nil cur))
  | inr nz ↦ elim (found (cur ++ (b ∷ [])) bs) [
    | absent f e ↦
        absent (find_zero-none b bs nz f)
          (frames-other cur b bs nz ∙ e ∙ ap (λ t. ([], t)) (append_assoc cur (b ∷ []) bs))
    | present msg rest f split e ↦
        present (b ∷ msg) rest (find_zero-some b (length msg) bs nz f) (ap (λ t. b ∷ t) split) (
          frames-other cur b bs nz
          ∙ e
          ∙ ap (λ t. (t ∷ (frames [] rest).0, (frames [] rest).1)) (append_assoc cur (b ∷ []) msg))
  ]
]

pub frames-nil : (cur : List ℕ) → frames cur [] ≡ ([], cur)
unfolding frames
frames-nil cur = refl

-- Cutting a stream in two: what the first part leaves pending comes before the second.
pub frames-append :
    (cur xs ys : List ℕ)
    → frames cur (xs ++ ys)
      ≡ ((frames cur xs).0 ++ (frames (frames cur xs).1 ys).0, (frames (frames cur xs).1 ys).1)
frames-append cur [] ys = rw (frames-nil cur)
frames-append cur (b ∷ xs) ys = elim (Bool-cases (b == 0)) [
  | inl z ↦
      let e : b ≡ 0 = ground arith in
      rw (e, frames-zero cur (xs ++ ys), frames-zero cur xs, frames-append [] xs ys) refl
  | inr nz ↦
      rw (frames-other cur b (xs ++ ys) nz, frames-other cur b xs nz)
        (frames-append (cur ++ (b ∷ [])) xs ys)
]

-- A block of bytes with no zero only lengthens what is pending.
pub frames-nonzero :
    (cur xs ys : List ℕ) → All (λ b. b ≢ 0) xs → frames cur (xs ++ ys) ≡ frames (cur ++ xs) ys
frames-nonzero cur [] ys h = rw (append-nil cur)
frames-nonzero cur (b ∷ xs) ys h =
    frames-other cur b (xs ++ ys) (ne→== b 0 h.0)
    ∙ frames-nonzero (cur ++ (b ∷ [])) xs ys h.1
    ∙ ap (λ t. frames t ys) (append_assoc cur (b ∷ []) xs)

-- A stream at its first zero.
pub data Cut (s : List ℕ) : Type 0 where
  whole : find_zero s ≡ none → messages s ≡ [] → pending s ≡ s → Cut s
  ended :
      (msg rest : List ℕ)
      → find_zero s ≡ some (length msg)
      → s ≡ msg ++ (0 ∷ rest)
      → messages s ≡ msg ∷ messages rest
      → pending s ≡ pending rest
      → Cut s

pub cut : (s : List ℕ) → Cut s
unfolding messages pending
cut s = elim (found [] s) [
  | absent f e ↦ whole f (ap (λ t. t.0) e) (ap (λ t. t.1) e)
  | present msg rest f split e ↦ ended msg rest f split (ap (λ t. t.0) e) (ap (λ t. t.1) e)
]

frames-rest : (cur s : List ℕ) → All (λ b. b ≢ 0) cur → All (λ b. b ≢ 0) (frames cur s).1
frames-rest cur [] h = rw (frames-nil cur) h
frames-rest cur (b ∷ bs) h = elim (Bool-cases (b == 0)) [
  | inl z ↦ let e : b ≡ 0 = ground arith in rw (e, frames-zero cur bs) (frames-rest [] bs tt)
  | inr nz ↦ rw (frames-other cur b bs nz) (
      frames-rest (cur ++ (b ∷ [])) bs
        (All-append (λ c. c ≢ 0) cur (b ∷ []) h ((λ e. cc (eq→== b 0 e, nz)), tt)))
]

pub pending-nonzero : (s : List ℕ) → All (λ b. b ≢ 0) (pending s)
unfolding pending
pending-nonzero s = frames-rest [] s tt

pub messages-append :
    (xs ys : List ℕ) → messages (xs ++ ys) ≡ messages xs ++ messages (pending xs ++ ys)
unfolding messages pending
messages-append xs ys =
    ap (λ t. t.0) (frames-append [] xs ys)
    ∙ ap (λ t. (frames [] xs).0 ++ t.0)
        (sym (frames-nonzero [] (pending xs) ys (pending-nonzero xs)))

pub pending-append : (xs ys : List ℕ) → pending (xs ++ ys) ≡ pending (pending xs ++ ys)
unfolding messages pending
pending-append xs ys =
    ap (λ t. t.1) (frames-append [] xs ys)
    ∙ ap (λ t. t.1) (sym (frames-nonzero [] (pending xs) ys (pending-nonzero xs)))

pub messages-nil : messages [] ≡ []
unfolding messages
messages-nil = refl

pub pending-nil : pending [] ≡ []
unfolding pending
pending-nil = refl

-- What is pending has no message in it.
pub cut-pending : (s : List ℕ) → (messages (pending s) ≡ []) × (pending (pending s) ≡ pending s)
unfolding messages pending
cut-pending s =
    let e : frames [] (pending s) ≡ ([], pending s) =
      ap (λ t. frames [] t) (sym (append-nil (pending s)))
      ∙ frames-nonzero [] (pending s) [] (pending-nonzero s)
      ∙ frames-nil (pending s) in
    (ap (λ t. t.0) e, ap (λ t. t.1) e)
