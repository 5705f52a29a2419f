-- ===== src/Cobs/RoundTrip.antt =====
-- Laws of the format of src/cobs.hpp, and what follows for encoding and decoding.
use trctl.Base.{
  ℕ, suc, ◌+◌, ◌/◌, ◌≤◌, ◌<◌, ◌≡◌, refl, sym, ap, ◌∙◌, ◌≢◌, Bool, true, false, some, List, [], ◌∷◌,
  ◌++◌, append-nil, append_assoc, arith, ◌==◌, if◌then◌else◌, ne→==, dec_lt, length, take,
  take-append, All, length-append, All-append, some-injective,
}
use trctl.Cobs.{Decoder, decoder, iter, get, advance, Decoded, encode_cobs, decode_cobs}
use trctl.Cobs.Encode.{encode_cobs-fits, encode_cobs-full, encoding-longer}
use trctl.Cobs.Decode.{decode_cobs-in_place}
use trctl.Cobs.Format.{
  encoding, output, decoding, IsOpen, nil-IsOpen, length-snoc, close, fill, extend, step,
}

-- Inside a block bytes are copied.
output-block :
    (nz : Bool) (o : ℕ) (blk ys : List ℕ)
    → o ≡ suc (length blk)
    → o < 256
    → output (record { nonzero = nz; offset = o }) (blk ++ ys)
      ≡ blk ++ output (record { nonzero = nz; offset = 1 }) ys
unfolding output iter get advance
output-block nz o [] ys e lt = rw e
output-block nz o (b ∷ blk) ys e lt =
    ground (arith, output-block nz (suc (length blk)) blk ys refl (omega arith))

-- Behind a block the next code byte yields a zero, or nothing if the block was full.
output-code :
    (nz : Bool) (c : ℕ) (ys : List ℕ)
    → output (record { nonzero = nz; offset = 1 }) (c ∷ ys)
      ≡ (if nz then decoding (c ∷ ys) else 0 ∷ decoding (c ∷ ys))
unfolding output iter get advance decoding decoder
output-code true c ys = refl
output-code false c ys = refl

output-codes :
    (nz : Bool) (ys : List ℕ)
    → ys ≢ []
    → output (record { nonzero = nz; offset = 1 }) ys
      ≡ (if nz then decoding ys else 0 ∷ decoding ys)
output-codes nz [] h = absurd (h refl)
output-codes nz (c ∷ ys) h = output-code nz c ys

encoding-ne-nil : (blk bs : List ℕ) → IsOpen blk → encoding blk bs ≢ []
unfolding encoding
encoding-ne-nil blk [] o = λ e. cc
encoding-ne-nil blk (b ∷ bs) o = elim (step blk b bs o) [
  | close _ e ↦ λ n. cc
  | fill _ _ e ↦ λ n. cc
  | extend _ _ o' e ↦ λ n. encoding-ne-nil (blk ++ (b ∷ [])) bs o' (sym e ∙ n)
]

-- One block, with what follows it.
decoding-block :
    (c : ℕ) (blk ys : List ℕ)
    → c ≡ suc (length blk)
    → c < 256
    → decoding (c ∷ blk ++ ys) ≡ blk ++ output (record { nonzero = c == 255; offset = 1 }) ys
unfolding decoding decoder
decoding-block c blk ys e lt = output-block (c == 255) c blk ys e lt

encoding-nil : (blk : List ℕ) → encoding blk [] ≡ suc (length blk) ∷ blk
unfolding encoding
encoding-nil blk = refl

output-nil : (d : Decoder) → output d [] ≡ []
unfolding output
output-nil d = refl

-- Decoding an encoding gives back the open block and the source.
pub decoding-encoding_open : (blk bs : List ℕ) → IsOpen blk → decoding (encoding blk bs) ≡ blk ++ bs
decoding-encoding_open blk [] o =
    ap decoding (encoding-nil blk ∙ ap (λ t. suc (length blk) ∷ t) (sym (append-nil blk)))
    ∙ decoding-block (suc (length blk)) blk [] refl (omega (arith, o.short))
    ∙ ap (λ t. blk ++ t) (output-nil _)
decoding-encoding_open blk (b ∷ bs) o = elim (step blk b bs o) [
  | close z e ↦
      ap decoding e
      ∙ decoding-block (suc (length blk)) blk (encoding [] bs) refl (omega (arith, o.short))
      ∙ ap (λ t. blk ++ t)
          (output-codes (suc (length blk) == 255) (encoding [] bs)
            (encoding-ne-nil [] bs nil-IsOpen))
      ∙ ap (λ t. blk ++ t)
          (rw (ne→== (suc (length blk)) 255 (omega (arith, o.short)), z)
            (ap (λ t. 0 ∷ t) (decoding-encoding_open [] bs nil-IsOpen)))
  | fill _ full e ↦
      ap decoding e
      ∙ decoding-block 255 (blk ++ (b ∷ [])) (encoding [] bs) (omega (arith, length-snoc blk b))
          (omega arith)
      ∙ ap (λ t. (blk ++ (b ∷ [])) ++ t)
          (output-codes true (encoding [] bs) (encoding-ne-nil [] bs nil-IsOpen)
            ∙ decoding-encoding_open [] bs nil-IsOpen)
      ∙ append_assoc blk (b ∷ []) bs
  | extend _ _ o' e ↦
      ap decoding e ∙ decoding-encoding_open (blk ++ (b ∷ [])) bs o' ∙ append_assoc blk (b ∷ []) bs
]

pub decoding-encoding : (source : List ℕ) → decoding (encoding [] source) ≡ source
decoding-encoding source = decoding-encoding_open [] source nil-IsOpen

encoding-nonzero_open : (blk bs : List ℕ) → IsOpen blk → All (λ b. b ≢ 0) (encoding blk bs)
encoding-nonzero_open blk [] o = rw (encoding-nil blk) ((λ e. cc), o.nonzero)
encoding-nonzero_open blk (b ∷ bs) o = elim (step blk b bs o) [
  | close _ e ↦
      rw e ((λ z. cc), All-append _ blk _ o.nonzero (encoding-nonzero_open [] bs nil-IsOpen))
  | fill nz _ e ↦ rw e (
    (λ z. absurd (omega arith)),
    All-append _ (blk ++ (b ∷ [])) _ (All-append _ blk (b ∷ []) o.nonzero (nz, tt))
        (encoding-nonzero_open [] bs nil-IsOpen),
  )
  | extend _ _ o' e ↦ rw e (encoding-nonzero_open (blk ++ (b ∷ [])) bs o')
]

-- No byte of an encoding is 0, so that a 0 can end the message on the wire.
pub encoding-nonzero : (source : List ℕ) → All (λ b. b ≢ 0) (encoding [] source)
encoding-nonzero source = encoding-nonzero_open [] source nil-IsOpen

length-encoding_open :
    (blk bs : List ℕ)
    → IsOpen blk
    → length (encoding blk bs) ≤ 1 + (length blk + length bs) + (length blk + length bs) / 254
length-encoding_open blk [] o = omega (arith, ap length (encoding-nil blk))
length-encoding_open blk (b ∷ bs) o = elim (step blk b bs o) [
  | close _ e ↦ omega (
    arith,
    ap length e,
    length-append blk (encoding [] bs),
    length-encoding_open [] bs nil-IsOpen,
  )
  | fill _ n e ↦ omega (
    arith,
    ap length e,
    n,
    length-append (blk ++ (b ∷ [])) (encoding [] bs),
    length-snoc blk b,
    length-encoding_open [] bs nil-IsOpen,
  )
  | extend _ _ o' e ↦
      omega (arith, ap length e, length-snoc blk b, length-encoding_open (blk ++ (b ∷ [])) bs o')
]

-- The overhead is one byte, and one more for each 254 bytes of the source.
pub length-encoding-le :
    (source : List ℕ) → length (encoding [] source) ≤ 1 + length source + length source / 254
length-encoding-le source = omega (arith, length-encoding_open [] source nil-IsOpen)

pub encoding-pos : (source : List ℕ) → 0 < length (encoding [] source)
encoding-pos source = encoding-longer [] source nil-IsOpen

encode_cobs-ok :
    (source target mem : List ℕ) (n : ℕ)
    → 2 ≤ length target
    → encode_cobs source target ≡ some (mem, n)
    → (n ≡ length (encoding [] source)) × (take n mem ≡ encoding [] source)
encode_cobs-ok source target mem n h e =
    elim (dec_lt (length (encoding [] source)) (length target)) [
      | yes lt ↦
          let is = some-injective _ _ (sym e ∙ encode_cobs-fits source target h lt) in
          let len : n ≡ length (encoding [] source) = ap (λ t. t.1) is in
          (len, ap (λ t. take n t) (ap (λ t. t.0) is) ∙ take-append (encoding [] source) _ n len)
      | no ge ↦ cc (encode_cobs-full source target h (omega arith), e)
    ]

-- Decoding in place what `encode_cobs` made of a source succeeds, and gives back the source.
pub decode_cobs-encode_cobs :
    (source target mem post : List ℕ) (n : ℕ)
    → 2 ≤ length target
    → encode_cobs source target ≡ some (mem, n)
    → (r : Decoded) × (decode_cobs (take n mem ++ post) 0 n 0 n ≡ some r)
      × (r.success ≡ true)
      × (take r.used r.mem ≡ source)
decode_cobs-encode_cobs source target mem post n h e =
    let (len, is) = encode_cobs-ok source target mem n h e in
    let (r, gap, run, ok, used, left, _) =
      decode_cobs-in_place (encoding [] source) post (encoding-pos source) in
    (
      r,
      rw (is, len) run,
      ok,
      rw left (take-append (decoding (encoding [] source)) (gap ++ post) r.used used)
          ∙ decoding-encoding source,
    )
