-- ===== src/Cobs/Format.antt =====
-- The format of src/cobs.hpp, without memory or pointers: each block is a code byte and up to 254
-- nonzero bytes, and a code below 255 stands for a zero after its block.
use trctl.Base.{
  ℕ, suc, ◌<◌, ◌≡◌, ◌≢◌, inl, inr, false, none, some, List, [], ◌∷◌, ◌++◌, arith, ◌==◌,
  if◌then◌else◌, Bool-cases, length, All, length-append, All-append,
}
use trctl.Cobs.{Decoder, decoder, iter}

-- The encoding of `xs` behind the open block `blk`.
unfoldable pub encoding : List ℕ → List ℕ → List ℕ
encoding blk [] = suc (length blk) ∷ blk
encoding blk (b ∷ bs) =
    let closed = suc (length blk) ∷ blk ++ encoding [] bs in
    let full = 255 ∷ (blk ++ (b ∷ [])) ++ encoding [] bs in
    let longer = encoding (blk ++ (b ∷ [])) bs in
    if b == 0 then closed else if suc (suc (length blk)) == 255 then full else longer

-- What a decoder that holds `d` makes of the bytes that follow.
unfoldable pub output : Decoder → List ℕ → List ℕ
output d [] = []
output d (b ∷ bs) =
    let r = iter d b in let rest = output r.1 bs in elim r.0 [ none ↦ rest | some v ↦ v ∷ rest ]

unfoldable pub decoding : List ℕ → List ℕ
decoding [] = []
decoding (c ∷ bs) = output (decoder c) bs

-- A block that is still open holds at most 253 bytes, none of them 0.
pub record IsOpen (blk : List ℕ) : Type 0 where
  pub short : length blk < 254
  pub nonzero : All (λ b. b ≢ 0) blk

abbrev pub nil-IsOpen : IsOpen []
nil-IsOpen = record { short = omega arith; nonzero = tt }

pub length-snoc : (blk : List ℕ) (b : ℕ) → length (blk ++ (b ∷ [])) ≡ suc (length blk)
length-snoc blk b = omega (arith, length-append blk (b ∷ []))

pub snoc-IsOpen :
    (blk : List ℕ) (b : ℕ)
    → b ≢ 0
    → (suc (suc (length blk)) == 255) ≡ false
    → IsOpen blk
    → IsOpen (blk ++ (b ∷ []))
snoc-IsOpen blk b nz more o = record {
  short = ground (arith, length-snoc blk b, o.short);
  nonzero = All-append (λ b. b ≢ 0) blk (b ∷ []) o.nonzero (nz, tt);
}

-- The cases of `encoding`, with the open block kept open.
pub data Step (blk : List ℕ) (b : ℕ) (bs : List ℕ) : Type 0 where
  close : b ≡ 0 → encoding blk (b ∷ bs) ≡ suc (length blk) ∷ blk ++ encoding [] bs → Step blk b bs
  fill :
      b ≢ 0
      → length blk ≡ 253
      → encoding blk (b ∷ bs) ≡ 255 ∷ (blk ++ (b ∷ [])) ++ encoding [] bs
      → Step blk b bs
  extend :
      b ≢ 0
      → suc (suc (length blk)) ≢ 255
      → IsOpen (blk ++ (b ∷ []))
      → encoding blk (b ∷ bs) ≡ encoding (blk ++ (b ∷ [])) bs
      → Step blk b bs

pub step : (blk : List ℕ) (b : ℕ) (bs : List ℕ) → IsOpen blk → Step blk b bs
unfolding encoding
step blk b bs o = elim (Bool-cases (b == 0)) [
  | inl z ↦ close (ground arith) (rw z)
  | inr nz ↦ elim (Bool-cases (suc (suc (length blk)) == 255)) [
    | inl e ↦ fill (ground arith) (ground arith) (rw (nz, e))
    | inr ne ↦
        extend (ground arith) (ground arith) (snoc-IsOpen blk b (ground arith) ne o) (rw (nz, ne))
  ]
]
