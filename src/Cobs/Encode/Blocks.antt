-- ===== src/Cobs/Encode/Blocks.antt =====
-- `cobs_encoder` of src/cobs.hpp: what one `insert` makes of the blocks in the target.
use trctl.Base.{
  ℕ, suc, ◌+◌, ◌<◌, ◌≡◌, refl, sym, ap, ◌∙◌, ◌≢◌, inl, inr, true, false, not, List, [], ◌∷◌, ◌++◌,
  append_assoc, arith, ◌==◌, Bool-cases, length, set, length-append, set-append,
}
use trctl.Cobs.{Encoder, store, roll_over}
use trctl.Cobs.Format.{length-snoc}

-- The encoder `e` has closed the blocks `done`, has the open block `blk`, and `rest` is free.
pub record Holds (e : Encoder) (done blk rest : List ℕ) : Type 0 where
  pub mark : ℕ
  pub target_is : e.target ≡ done ++ (mark ∷ (blk ++ rest))
  pub last_p_is : e.last_p ≡ length done
  pub p_is : e.p ≡ length done + suc (length blk)
  pub count_is : e.count ≡ suc (length blk)

pub length-target :
    {e : Encoder} (done blk rest : List ℕ)
    → Holds e done blk rest
    → length e.target ≡ e.p + length rest
length-target {e} done blk rest h = omega (
  arith,
  ap length h.target_is,
  length-append done (h.mark ∷ (blk ++ rest)),
  length-append blk rest,
  h.p_is,
)

-- Writing the code of the open block.
pub set-code :
    {e : Encoder} (done blk rest : List ℕ) (c : ℕ)
    → Holds e done blk rest
    → set e.target e.last_p c ≡ done ++ (c ∷ (blk ++ rest))
set-code {e} done blk rest c h =
    rw (h.target_is, h.last_p_is) (set-append done h.mark (blk ++ rest) (length done) c refl)

closed_eq :
    (done blk rest : List ℕ) (c r : ℕ)
    → done ++ (c ∷ (blk ++ (r ∷ rest))) ≡ (done ++ (c ∷ blk)) ++ (r ∷ ([] ++ rest))
closed_eq done blk rest c r = sym (append_assoc done (c ∷ blk) (r ∷ rest))

pub store-zero :
    {e : Encoder} (done blk rest : List ℕ) (r : ℕ)
    → Holds e done blk (r ∷ rest)
    → Holds (store e 0) (done ++ (suc (length blk) ∷ blk)) [] rest
unfolding store
store-zero {e} done blk rest r h = record {
  mark = r;
  target_is =
      rw h.count_is (set-code done blk (r ∷ rest) (suc (length blk)) h)
      ∙ closed_eq done blk rest (suc (length blk)) r;
  last_p_is = omega (arith, h.p_is, length-append done (suc (length blk) ∷ blk));
  p_is = omega (arith, h.p_is, length-append done (suc (length blk) ∷ blk));
  count_is = refl;
}

set-free :
    {e : Encoder} (done blk rest : List ℕ) (r b : ℕ) (h : Holds e done blk (r ∷ rest))
    → set e.target e.p b ≡ done ++ (h.mark ∷ ((blk ++ (b ∷ [])) ++ rest))
set-free {e} done blk rest r b h =
    rw (h.target_is, append_assoc blk (b ∷ []) rest)
      (ap (λ t. set t e.p b) (sym (append_assoc done (h.mark ∷ blk) (r ∷ rest)))
        ∙ set-append (done ++ (h.mark ∷ blk)) r rest e.p b
            (omega (arith, h.p_is, length-append done (h.mark ∷ blk)))
        ∙ append_assoc done (h.mark ∷ blk) (b ∷ rest))

pub store-byte :
    {e : Encoder} (done blk rest : List ℕ) (r b : ℕ)
    → b ≢ 0
    → length blk < 254
    → Holds e done blk (r ∷ rest)
    → Holds (store e b) done (blk ++ (b ∷ [])) rest
unfolding store
store-byte {e} done blk rest r b nz short h = elim (Bool-cases (b == 0)) [
  | inl z ↦ absurd (nz (ground arith))
  | inr z ↦ rw z (record {
    mark = h.mark;
    target_is = set-free done blk rest r b h;
    last_p_is = h.last_p_is;
    p_is = omega (arith, h.p_is, length-snoc blk b);
    count_is = omega (arith, h.count_is, length-snoc blk b);
  })
]

-- The encoder with its full block closed, and the next one open.
abbrev pub rolled : Encoder → Encoder
rolled e = record e { target = set e.target e.last_p 255; last_p = e.p; p = e.p + 1; count = 1 }

-- The end of the target stops the encoder.
pub roll_over-end :
    {e : Encoder} (done blk : List ℕ) → Holds e done blk [] → (roll_over e).0 ≡ false
unfolding roll_over
roll_over-end done blk h = ground (arith, length-target done blk [] h)

pub roll_over-open :
    {e : Encoder} (done blk rest : List ℕ) (r : ℕ)
    → length blk ≢ 254
    → Holds e done blk (r ∷ rest)
    → roll_over e ≡ (true, e)
unfolding roll_over
roll_over-open done blk rest r more h =
    ground (arith, length-target done blk (r ∷ rest) h, h.count_is)

pub roll_over-full :
    {e : Encoder} (done blk rest : List ℕ) (r : ℕ)
    → length blk ≡ 254
    → Holds e done blk (r ∷ rest)
    → roll_over e ≡ (not (e.p + 1 == length e.target), rolled e)
unfolding roll_over
roll_over-full done blk rest r full h =
    ground (arith, length-target done blk (r ∷ rest) h, h.count_is)

pub Holds-full :
    {e : Encoder} (done blk rest : List ℕ) (r : ℕ)
    → Holds e done blk (r ∷ rest)
    → Holds (rolled e) (done ++ (255 ∷ blk)) [] rest
Holds-full done blk rest r h = record {
  mark = r;
  target_is = set-code done blk (r ∷ rest) 255 h ∙ closed_eq done blk rest 255 r;
  last_p_is = omega (arith, h.p_is, length-append done (255 ∷ blk));
  p_is = omega (arith, h.p_is, length-append done (255 ∷ blk));
  count_is = refl;
}

unfoldable pub room : List ℕ → List ℕ → List ℕ → ℕ
room done blk rest = length done + suc (length blk) + length rest
