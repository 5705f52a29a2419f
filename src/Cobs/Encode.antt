-- ===== src/Cobs/Encode.antt =====
-- `encode_cobs` of src/cobs.hpp against the format: what it writes, and when it fails.
mod Blocks
use trctl.Base.{
  ℕ, suc, ◌+◌, ◌≤◌, ◌<◌, ◌≡◌, refl, sym, ap, ap₂, ◌∙◌, ◌≢◌, inl, inr, true, false, not, Option,
  none, some, List, [], ◌∷◌, ◌++◌, append_assoc, arith, ◌==◌, if◌then◌else◌, Bool-cases, ltb,
  lt→ltb, le→ltb, length, drop, set, drop-append, length-append, set-append,
}
use trctl.Cobs.{Encoder, encoder, store, roll_over, insert, commit, insert_all, encode_cobs}
use trctl.Cobs.Format.{encoding, IsOpen, nil-IsOpen, length-snoc, close, fill, extend, step}
use trctl.Cobs.Encode.Blocks.{
  Holds, length-target, set-code, store-zero, store-byte, rolled, roll_over-end, roll_over-open,
  roll_over-full, Holds-full, room,
}

-- One round of the loop of `encode_cobs`.
data Next (e : Encoder) (done blk rest : List ℕ) (b : ℕ) (bs : List ℕ) : Type 0 where
  stop :
      insert_all e (b ∷ bs) ≡ none
      → room done blk rest ≤ length (done ++ encoding blk (b ∷ bs))
      → Next e done blk rest b bs
  go :
      (e' : Encoder) (done' blk' rest' pre : List ℕ) (r : ℕ)
      → insert_all e (b ∷ bs) ≡ insert_all e' bs
      → Holds e' done' blk' (r ∷ rest')
      → IsOpen blk'
      → done' ++ encoding blk' bs ≡ done ++ encoding blk (b ∷ bs)
      → rest ≡ pre ++ (r ∷ rest')
      → room done' blk' (r ∷ rest') ≡ room done blk rest
      → Next e done blk rest b bs

pub encoding-longer : (blk bs : List ℕ) → IsOpen blk → suc (length blk) ≤ length (encoding blk bs)
unfolding encoding
encoding-longer blk [] o = omega arith
encoding-longer blk (b ∷ bs) o = elim (step blk b bs o) [
  | close _ e ↦ omega (arith, ap length e, length-append blk (encoding [] bs))
  | fill _ _ e ↦
      omega
        (arith, ap length e, length-append (blk ++ (b ∷ [])) (encoding [] bs), length-snoc blk b)
  | extend _ _ o' e ↦
      omega (arith, ap length e, encoding-longer (blk ++ (b ∷ [])) bs o', length-snoc blk b)
]

insert_all-go :
    (e e' : Encoder) (b : ℕ) (bs : List ℕ)
    → insert e b ≡ (true, e')
    → insert_all e (b ∷ bs) ≡ insert_all e' bs
unfolding insert_all
insert_all-go e e' b bs h = rw h

insert_all-stop :
    (e : Encoder) (b : ℕ) (bs : List ℕ) → (insert e b).0 ≡ false → insert_all e (b ∷ bs) ≡ none
unfolding insert_all
insert_all-stop e b bs h = rw h

-- What a byte stored leaves to do, once `store` is known.
next_open :
    (e : Encoder) (done blk rest done' blk' rest' : List ℕ) (r b : ℕ) (bs : List ℕ)
    → length blk' ≢ 254
    → rest ≡ r ∷ rest'
    → Holds (store e b) done' blk' rest'
    → IsOpen blk'
    → done' ++ encoding blk' bs ≡ done ++ encoding blk (b ∷ bs)
    → room done' blk' rest' ≡ room done blk rest
    → Next e done blk rest b bs
unfolding insert room
next_open e done blk rest done' blk' [] r b bs short re h o eq total =
    stop (insert_all-stop e b bs (roll_over-end done' blk' h)) (
      omega (
        arith,
        ap length eq,
        length-append done' (encoding blk' bs),
        encoding-longer blk' bs o,
        total,
      ))
next_open e done blk rest done' blk' (r' ∷ rest') r b bs short re h o eq total =
    go (store e b) done' blk' rest' (r ∷ []) r'
      (insert_all-go e (store e b) b bs (roll_over-open done' blk' rest' r' short h)) h o eq re
      total

full_eq :
    (done blk bs : List ℕ) (b : ℕ)
    → encoding blk (b ∷ bs) ≡ 255 ∷ (blk ++ (b ∷ [])) ++ encoding [] bs
    → (done ++ (255 ∷ (blk ++ (b ∷ [])))) ++ encoding [] bs ≡ done ++ encoding blk (b ∷ bs)
full_eq done blk bs b e = rw e (append_assoc done (255 ∷ (blk ++ (b ∷ []))) (encoding [] bs))

next_full :
    (e : Encoder) (done blk rest : List ℕ) (r b : ℕ) (bs : List ℕ)
    → length blk ≡ 253
    → encoding blk (b ∷ bs) ≡ 255 ∷ (blk ++ (b ∷ [])) ++ encoding [] bs
    → Holds (store e b) done (blk ++ (b ∷ [])) rest
    → Next e done blk (r ∷ rest) b bs
unfolding insert room
next_full e done blk [] r b bs full eq h =
    stop (insert_all-stop e b bs (roll_over-end done (blk ++ (b ∷ [])) h)) (
      omega (
        arith,
        ap length (full_eq done blk bs b eq),
        length-append (done ++ (255 ∷ (blk ++ (b ∷ [])))) (encoding [] bs),
        length-append done (255 ∷ (blk ++ (b ∷ []))),
        length-snoc blk b,
      ))
next_full e done blk (r' ∷ []) r b bs full eq h =
    stop
      (insert_all-stop e b bs (
        rw (roll_over-full done (blk ++ (b ∷ [])) [] r' (omega (arith, length-snoc blk b)) h)
          (ground (arith, length-target done (blk ++ (b ∷ [])) (r' ∷ []) h))))
      (omega (
        arith,
        ap length (full_eq done blk bs b eq),
        length-append (done ++ (255 ∷ (blk ++ (b ∷ [])))) (encoding [] bs),
        length-append done (255 ∷ (blk ++ (b ∷ []))),
        length-snoc blk b,
        encoding-longer [] bs nil-IsOpen,
      ))
next_full e done blk (r' ∷ r'' ∷ rest) r b bs full eq h =
    go (rolled (store e b)) (done ++ (255 ∷ (blk ++ (b ∷ [])))) [] rest (r ∷ r' ∷ []) r''
      (insert_all-go e (rolled (store e b)) b bs (
        roll_over-full done (blk ++ (b ∷ [])) (r'' ∷ rest) r' (omega (arith, length-snoc blk b)) h
        ∙ ap (λ t. (t, rolled (store e b)))
            (ground (arith, length-target done (blk ++ (b ∷ [])) (r' ∷ r'' ∷ rest) h))))
      (Holds-full done (blk ++ (b ∷ [])) (r'' ∷ rest) r' h) nil-IsOpen (full_eq done blk bs b eq)
      refl (omega (arith, length-append done (255 ∷ (blk ++ (b ∷ []))), length-snoc blk b))

next :
    (e : Encoder) (done blk rest : List ℕ) (r b : ℕ) (bs : List ℕ)
    → IsOpen blk
    → Holds e done blk (r ∷ rest)
    → Next e done blk (r ∷ rest) b bs
unfolding room
next e done blk rest r b bs o h = elim (step blk b bs o) [
  | close z eq ↦
      next_open e done blk (r ∷ rest) (done ++ (suc (length blk) ∷ blk)) [] rest r b bs
        (omega arith) refl (rw z (store-zero done blk rest r h)) nil-IsOpen
        (rw eq (append_assoc done (suc (length blk) ∷ blk) (encoding [] bs)))
        (omega (arith, length-append done (suc (length blk) ∷ blk)))
  | fill nz full eq ↦
      next_full e done blk rest r b bs full eq (store-byte done blk rest r b nz o.short h)
  | extend nz more o' eq ↦
      next_open e done blk (r ∷ rest) done (blk ++ (b ∷ [])) rest r b bs
        (omega (arith, length-snoc blk b)) refl (store-byte done blk rest r b nz o.short h) o'
        (rw eq) (omega (arith, length-snoc blk b))
]

-- What the loop of `encode_cobs` and `commit` leave.
data Outcome (done blk rest bs : List ℕ) (o : Option Encoder) : Type 0 where
  fits :
      (e' : Encoder) (pre free : List ℕ)
      → o ≡ some e'
      → commit e' ≡ ((done ++ encoding blk bs) ++ free, length (done ++ encoding blk bs))
      → rest ≡ pre ++ free
      → length (done ++ encoding blk bs) < room done blk rest
      → length (done ++ encoding blk bs) + length free ≡ room done blk rest
      → Outcome done blk rest bs o
  full :
      o ≡ none → room done blk rest ≤ length (done ++ encoding blk bs) → Outcome done blk rest bs o

-- The outcome of the rest of the loop is that of the whole.
carry :
    {o o' : Option Encoder} {done blk rest done' blk' rest' bs bs' : List ℕ} (pre : List ℕ)
    → o ≡ o'
    → done' ++ encoding blk' bs' ≡ done ++ encoding blk bs
    → rest ≡ pre ++ rest'
    → room done' blk' rest' ≡ room done blk rest
    → Outcome done' blk' rest' bs' o'
    → Outcome done blk rest bs o
carry pre same eq split total (fits e' pre' free some_is out split' lt sum) =
    fits e' (pre ++ pre') free (same ∙ some_is) (rw (← eq) out)
      (split ∙ ap (λ t. pre ++ t) split' ∙ sym (append_assoc pre pre' free)) (rw (← eq, ← total) lt)
      (rw (← eq, ← total) sum)
carry pre same eq split total (full none_is le) = full (same ∙ none_is) (rw (← eq, ← total) le)

insert_all-Outcome :
    (e : Encoder) (done blk rest : List ℕ) (r : ℕ) (bs : List ℕ)
    → IsOpen blk
    → Holds e done blk (r ∷ rest)
    → Outcome done blk (r ∷ rest) bs (insert_all e bs)
unfolding insert_all commit encoding room
insert_all-Outcome e done blk rest r [] o h =
    fits e [] (r ∷ rest) refl
      (ap₂ (λ t u. (t, u))
        (rw h.count_is (
          set-code done blk (r ∷ rest) (suc (length blk)) h
          ∙ sym (append_assoc done (suc (length blk) ∷ blk) (r ∷ rest))))
        (omega (arith, h.p_is, length-append done (suc (length blk) ∷ blk))))
      refl (omega (arith, length-append done (suc (length blk) ∷ blk)))
      (omega (arith, length-append done (suc (length blk) ∷ blk)))
insert_all-Outcome e done blk rest r (b ∷ bs) o h = elim (next e done blk rest r b bs o h) [
  | stop none_is le ↦ full none_is le
  | go e' done' blk' rest' pre r' same h' o' eq split total ↦
      carry pre same eq split total (insert_all-Outcome e' done' blk' rest' r' bs o' h')
]

start-Holds : (x : ℕ) (rest : List ℕ) → Holds (encoder (x ∷ rest)) [] [] rest
unfolding encoder
start-Holds x rest = record {
  mark = x;
  target_is = refl;
  last_p_is = refl;
  p_is = refl;
  count_is = refl;
}

-- Into a target of at least two bytes, `encode_cobs` fails exactly where the encoding would leave no
-- byte of the target free; otherwise it writes the encoding at the front and leaves the rest as it was.
pub encode_cobs-encoding :
    (source target : List ℕ)
    → 2 ≤ length target
    → encode_cobs source target ≡ (
        if ltb (length (encoding [] source)) (length target)
        then some (
          encoding [] source ++ drop (length (encoding [] source)) target,
          length (encoding [] source),
        )
        else none)
unfolding encode_cobs room
encode_cobs-encoding source [] h = absurd (omega arith)
encode_cobs-encoding source (x ∷ []) h = absurd (omega arith)
encode_cobs-encoding source (x ∷ y ∷ rest) h =
    elim (insert_all-Outcome (encoder (x ∷ y ∷ rest)) [] [] rest y source nil-IsOpen
      (start-Holds x (y ∷ rest))) [
        | fits e' pre free e out split lt sum ↦
            rw
              (
                e,
                encode_cobs,
                out,
                lt→ltb (length (encoding [] source)) (length (x ∷ y ∷ rest)) (omega (arith, lt)),
              )
              (ap (λ t. some (encoding [] source ++ t, length (encoding [] source)))
                (sym (
                  ap (λ t. drop (length (encoding [] source)) (x ∷ t)) split
                  ∙ drop-append (x ∷ pre) free (length (encoding [] source))
                      (omega (arith, ap length split, length-append pre free, sum)))))
        | full e le ↦ rw (
          e,
          encode_cobs,
          le→ltb (length (encoding [] source)) (length (x ∷ y ∷ rest)) (omega (arith, le)),
        )
      ]

-- The two cases of the test.
pub encode_cobs-fits :
    (source target : List ℕ)
    → 2 ≤ length target
    → length (encoding [] source) < length target
    → encode_cobs source target
      ≡ some (
        encoding [] source ++ drop (length (encoding [] source)) target,
        length (encoding [] source),
      )
encode_cobs-fits source target h lt =
    encode_cobs-encoding source target h
    ∙ rw (lt→ltb (length (encoding [] source)) (length target) lt)

pub encode_cobs-full :
    (source target : List ℕ)
    → 2 ≤ length target
    → length target ≤ length (encoding [] source)
    → encode_cobs source target ≡ none
encode_cobs-full source target h le =
    encode_cobs-encoding source target h
    ∙ rw (le→ltb (length (encoding [] source)) (length target) le)
