-- ===== src/Cobs/Decode.antt =====
-- `decode_cobs` of src/cobs.hpp on its one use: decoding a message in place.
use trctl.Base.{
  ℕ, suc, ◌+◌, ◌<◌, ◌≡◌, refl, sym, ap, ◌∙◌, subst, inl, inr, true, false, none, some, List, [],
  ◌∷◌, ◌++◌, append-nil, append_assoc, arith, ◌==◌, ne→==, Option-cases, length, set, get_or,
  length-append, set-append, get_or-append,
}
use trctl.Cobs.{Decoder, decoder, iter, Decoded, decode_from, decode_cobs}
use trctl.Cobs.Format.{output, decoding, length-snoc}

output-skip :
    (d : Decoder) (b : ℕ) (bs : List ℕ)
    → (iter d b).0 ≡ none
    → output d (b ∷ bs) ≡ output (iter d b).1 bs
unfolding output
output-skip d b bs e = rw (e, output)

output-value :
    (d : Decoder) (b v : ℕ) (bs : List ℕ)
    → (iter d b).0 ≡ some v
    → output d (b ∷ bs) ≡ v ∷ output (iter d b).1 bs
unfolding output
output-value d b v bs e = rw (e, output)

-- What decoding leaves where `out` had been written, `gap` been read, and `src` and `post` follow.
abbrev left : List ℕ → List ℕ → List ℕ → Decoded
left out gap post = record { success = true; mem = out ++ (gap ++ post); used = length out }

abbrev Ends : Decoded → List ℕ → List ℕ → ℕ → Type 0
Ends r out post total = (gap : List ℕ) × (r ≡ left out gap post) × (length out + length gap ≡ total)

read :
    (out gap post src : List ℕ) (b i : ℕ)
    → i ≡ length out + length gap
    → get_or (out ++ (gap ++ (b ∷ (src ++ post)))) i 0 ≡ b
read out gap post src b i e =
    rw (← append_assoc out gap (b ∷ (src ++ post)))
      (get_or-append (out ++ gap) b (src ++ post) i 0 (omega (arith, length-append out gap)))

write :
    (out gap rest : List ℕ) (g v j : ℕ)
    → j ≡ length out
    → set (out ++ (g ∷ (gap ++ rest))) (0 + j) v ≡ (out ++ (v ∷ [])) ++ (gap ++ rest)
write out gap rest g v j e =
    set-append out g (gap ++ rest) (0 + j) v (omega arith)
    ∙ sym (append_assoc out (v ∷ []) (gap ++ rest))

regap :
    (out gap src post : List ℕ) (b : ℕ)
    → out ++ (gap ++ (b ∷ (src ++ post))) ≡ out ++ ((gap ++ (b ∷ [])) ++ (src ++ post))
regap out gap src post b = ap (λ t. out ++ t) (sym (append_assoc gap (b ∷ []) (src ++ post)))

module _ (n : ℕ) (mem : List ℕ) (d : Decoder) (i j dst size : ℕ) where
  decode_from-skip :
      (b : ℕ)
      → get_or mem i 0 ≡ b
      → (iter d b).0 ≡ none
      → decode_from (suc n) mem d i j dst size ≡ decode_from n mem (iter d b).1 (i + 1) j dst size
  unfolding decode_from
  decode_from-skip b r e =
      subst
        (λ t.
          (iter d t).0 ≡ none
          → decode_from (suc n) mem d i j dst size
            ≡ decode_from n mem (iter d t).1 (i + 1) j dst size)
        r (λ h. rw (h, decode_from)) e

  decode_from-value :
      (b v : ℕ)
      → get_or mem i 0 ≡ b
      → (iter d b).0 ≡ some v
      → (j + 1 == size) ≡ false
      → decode_from (suc n) mem d i j dst size
        ≡ decode_from n (set mem (dst + j) v) (iter d b).1 (i + 1) (j + 1) dst size
  unfolding decode_from
  decode_from-value b v r e more =
      subst
        (λ t.
          (iter d t).0 ≡ some v
          → decode_from (suc n) mem d i j dst size
            ≡ decode_from n (set mem (dst + j) v) (iter d t).1 (i + 1) (j + 1) dst size)
        r (λ h. rw (h, decode_from, more)) e

decode_from-done :
    (mem : List ℕ) (d : Decoder) (i j dst size : ℕ)
    → decode_from 0 mem d i j dst size ≡ record { success = true; mem = mem; used = j }
unfolding decode_from
decode_from-done mem d i j dst size = refl

output-nil : (d : Decoder) → output d [] ≡ []
unfolding output
output-nil d = refl

regroup :
    {r : Decoded} (out post : List ℕ) {m n : ℕ} → m ≡ n → Ends r out post m → Ends r out post n
regroup out post e (gap, is, len) = (gap, is, len ∙ e)

snoc_cons : (gap : List ℕ) (b : ℕ) → (g : ℕ) × (gap' : List ℕ) × (gap ++ (b ∷ []) ≡ g ∷ gap')
snoc_cons [] b = (b, [], refl)
snoc_cons (g ∷ gap) b = (g, gap ++ (b ∷ []), refl)

-- The loop writes what the decoder makes of the bytes ahead, though it writes behind its own reads.
decode_from-in_place :
    (src : List ℕ) (mem : List ℕ) (d : Decoder) (out gap post : List ℕ) (g i j size : ℕ)
    → mem ≡ out ++ (g ∷ (gap ++ (src ++ post)))
    → i ≡ length out + suc (length gap)
    → j ≡ length out
    → j + length src < size
    → Ends
        (decode_from (length src) mem d i j 0 size)
        (out ++ output d src)
        post
        (length out + suc (length gap) + length src)
decode_from-in_place [] mem d out gap post g i j size m ei ej lt = (
  g ∷ gap,
  rw (m, ej, output-nil d, append-nil out, decode_from-done),
  rw (output-nil d, append-nil out) (omega arith),
)
decode_from-in_place (b ∷ src) mem d out gap post g i j size m ei ej lt =
    let r : get_or mem i 0 ≡ b = rw m (read out (g ∷ gap) post src b i ei) in
    elim (Option-cases (iter d b).0) [
      | inl skip ↦
          rw (output-skip d b src skip, decode_from-skip (length src) mem d i j 0 size b r skip)
            (regroup (out ++ output (iter d b).1 src) post (omega (arith, length-snoc gap b)) (
              decode_from-in_place src mem (iter d b).1 out (gap ++ (b ∷ [])) post g (i + 1) j size
                (m ∙ regap out (g ∷ gap) src post b) (omega (arith, length-snoc gap b)) ej
                (omega arith)))
      | inr (v, value) ↦
          let (g', gap', e) = snoc_cons gap b in
          rw
            (
              output-value d b v src value,
              decode_from-value (length src) mem d i j 0 size b v r value
                  (ne→== (j + 1) size (omega arith)),
              ← append_assoc out (v ∷ []) (output (iter d b).1 src),
            )
            (regroup ((out ++ (v ∷ [])) ++ output (iter d b).1 src) post
              (omega (arith, length-snoc out v, length-snoc gap b, ap length e))
              (decode_from-in_place src (set mem (0 + j) v) (iter d b).1 (out ++ (v ∷ [])) gap' post
                g' (i + 1) (j + 1) size
                (ap (λ t. set t (0 + j) v) m
                  ∙ write out gap (b ∷ (src ++ post)) g v j ej
                  ∙ regap (out ++ (v ∷ [])) gap src post b
                  ∙ ap (λ t. (out ++ (v ∷ [])) ++ (t ++ (src ++ post))) e)
                (omega (arith, length-snoc out v, length-snoc gap b, ap length e))
                (omega (arith, length-snoc out v)) (omega arith)))
    ]

-- Decoding in place the `length msg` bytes at the front of a buffer, a nonempty message, succeeds, and
-- leaves at the front what the format makes of the message; the bytes behind it stay.
pub decode_cobs-in_place :
    (msg post : List ℕ)
    → 0 < length msg
    → (r : Decoded) × (gap : List ℕ) × (decode_cobs (msg ++ post) 0 (length msg) 0 (length msg)
        ≡ some r)
      × (r.success ≡ true)
      × (r.used ≡ length (decoding msg))
      × (r.mem ≡ decoding msg ++ (gap ++ post))
      × (length (decoding msg) + length gap ≡ length msg)
unfolding decode_cobs decoding
decode_cobs-in_place [] post h = absurd (omega arith)
decode_cobs-in_place (c ∷ msg) post h =
    let (gap, is, len) =
      decode_from-in_place msg (c ∷ (msg ++ post)) (decoder c) [] [] post c 1 0 (length (c ∷ msg))
        refl refl refl (omega arith) in
    (left (output (decoder c) msg) gap post, gap, ap some is, refl, refl, refl, omega (arith, len))

pub decode_cobs-nothing : (mem : List ℕ) (src dst size : ℕ) → decode_cobs mem src 0 dst size ≡ none
unfolding decode_cobs
decode_cobs-nothing mem src dst size = refl
