-- ===== src/Npb/Streams/RoundTrip.antt =====
-- What is written to a stream can be read from it.
use trctl.Base.{
  ℕ, ◌+◌, ◌%◌, ◌^◌, ◌≤◌, ◌<◌, ◌≡◌, refl, sym, ap, ◌∙◌, subst, Option, none, some, List, [], ◌∷◌,
  ◌++◌, append_assoc, append-nil, arith, le→ltb, length, take, drop, length-append, take-append,
  drop-append, length-drop, drop-drop,
}
use trctl.Npb.Streams.{Ctx, ctx_from, istream_cb, ostream_cb, copy_to}

-- Several writes, and the context after them.
unfoldable pub writes : Ctx → List (List ℕ) → Option Ctx
writes ctx [] = some ctx
writes ctx (b ∷ bs) = elim (ostream_cb ctx b) [ none ↦ none | some ctx' ↦ writes ctx' bs ]

-- Several reads of as many bytes as each of the texts has, and what they gave.
unfoldable pub reads : Ctx → List (List ℕ) → Option (List (List ℕ))
reads ctx [] = some []
reads ctx (b ∷ bs) = elim (istream_cb ctx (length b)) [
  | none ↦ none
  | some (got, ctx') ↦ elim (reads ctx' bs) [ none ↦ none | some more ↦ some (got ∷ more) ]
]

abbrev pub joined : List (List ℕ) → List ℕ
joined [] = []
joined (b ∷ bs) = b ++ joined bs

-- The bytes written so far stand at the front.
record Written (ctx : Ctx) (done : List ℕ) (size : ℕ) : Type 0 where
  free : List ℕ
  buff_is : ctx.buff ≡ done ++ free
  pos_is : ctx.pos ≡ length done
  size_is : length done + length free ≡ size

ostream_cb-Written :
    (ctx : Ctx) (done b : List ℕ) (size : ℕ)
    → Written ctx done size
    → length done + length b ≤ size
    → size < 2 ^ 64
    → (ctx' : Ctx) × (ostream_cb ctx b ≡ some ctx') × Written ctx' (done ++ b) size
unfolding ostream_cb copy_to
ostream_cb-Written ctx done b size h fits small =
    let len : length ctx.buff ≡ size =
      ap length h.buff_is ∙ length-append done h.free ∙ h.size_is in
    let next : (ctx.pos + length b) % 2 ^ 64 ≡ ctx.pos + length b = omega (arith, h.pos_is) in
    let front : take ctx.pos ctx.buff ≡ done =
      ap (λ t. take ctx.pos t) h.buff_is ∙ take-append done h.free ctx.pos h.pos_is in
    let behind : drop (ctx.pos + length b) ctx.buff ≡ drop (length b) h.free =
      ap (λ t. drop (ctx.pos + length b) t) h.buff_is
      ∙ sym (drop-drop ctx.pos (length b) (done ++ h.free))
      ∙ ap (λ t. drop (length b) t) (drop-append done h.free ctx.pos h.pos_is) in
    (
      record { buff = done ++ (b ++ drop (length b) h.free); pos = ctx.pos + length b },
      rw
          (
            next,
            le→ltb (length ctx.buff) (ctx.pos + length b) (omega (arith, h.pos_is)),
            front,
            behind,
          )
          refl,
      record {
        free = drop (length b) h.free;
        buff_is = sym (append_assoc done b (drop (length b) h.free));
        pos_is = omega (arith, h.pos_is, length-append done b);
        size_is = omega (arith, length-append done b, length-drop (length b) h.free, h.size_is);
      },
    )

writes-Written :
    (bs : List (List ℕ)) (ctx : Ctx) (done : List ℕ) (size : ℕ)
    → Written ctx done size
    → length done + length (joined bs) ≤ size
    → size < 2 ^ 64
    → (ctx' : Ctx) × (writes ctx bs ≡ some ctx') × Written ctx' (done ++ joined bs) size
unfolding writes
writes-Written [] ctx done size h fits small =
    (ctx, refl, subst (λ t. Written ctx t size) (sym (append-nil done)) h)
writes-Written (b ∷ bs) ctx done size h fits small =
    let both = length-append b (joined bs) in
    let (ctx1, e1, h1) = ostream_cb-Written ctx done b size h (omega (arith, both)) small in
    let (ctx2, e2, h2) =
      writes-Written bs ctx1 (done ++ b) size h1 (omega (arith, both, length-append done b))
        small in
    (
      ctx2,
      rw (e1, writes) e2,
      subst (λ t. Written ctx2 t size) (append_assoc done b (joined bs)) h2,
    )

istream_cb-at :
    (ctx : Ctx) (done b rest : List ℕ)
    → ctx.buff ≡ done ++ (b ++ rest)
    → ctx.pos ≡ length done
    → length ctx.buff < 2 ^ 64
    → istream_cb ctx (length b) ≡ some (b, record ctx { pos = ctx.pos + length b })
unfolding istream_cb
istream_cb-at ctx done b rest buff_is pos_is small =
    let len : length ctx.buff ≡ length done + (length b + length rest) =
      omega (arith, ap length buff_is, length-append done (b ++ rest), length-append b rest) in
    let next : (ctx.pos + length b) % 2 ^ 64 ≡ ctx.pos + length b = omega arith in
    let got : take (length b) (drop ctx.pos ctx.buff) ≡ b =
      ap (λ t. take (length b) (drop ctx.pos t)) buff_is
      ∙ ap (λ t. take (length b) t) (drop-append done (b ++ rest) ctx.pos pos_is)
      ∙ take-append b rest (length b) refl in
    rw (next, le→ltb (length ctx.buff) (ctx.pos + length b) (omega arith), got) refl

reads-all :
    (bs : List (List ℕ)) (ctx : Ctx) (done rest : List ℕ)
    → ctx.buff ≡ done ++ (joined bs ++ rest)
    → ctx.pos ≡ length done
    → length ctx.buff < 2 ^ 64
    → reads ctx bs ≡ some bs
unfolding reads
reads-all [] ctx done rest buff_is pos_is small = refl
reads-all (b ∷ bs) ctx done rest buff_is pos_is small =
    let shape : ctx.buff ≡ done ++ (b ++ (joined bs ++ rest)) =
      buff_is ∙ ap (λ t. done ++ t) (append_assoc b (joined bs) rest) in
    let more =
      reads-all bs (record ctx { pos = ctx.pos + length b }) (done ++ b) rest
        (shape ∙ sym (append_assoc done b (joined bs ++ rest)))
        (omega (arith, length-append done b, pos_is)) small in
    rw (istream_cb-at ctx done b (joined bs ++ rest) shape pos_is small, reads, more) refl

-- Writes that fit into the buffer of a stream all succeed, and reads of the same lengths from what the
-- buffer then holds succeed, and give back what was written, piece by piece.
pub reads-writes :
    (buff : List ℕ) (bs : List (List ℕ))
    → length (joined bs) ≤ length buff
    → length buff < 2 ^ 64
    → (ctx : Ctx) × (writes (ctx_from buff) bs ≡ some ctx)
      × (reads (ctx_from ctx.buff) bs ≡ some bs)
unfolding ctx_from
reads-writes buff bs fits small =
    let fresh : Written (ctx_from buff) [] (length buff) = record {
      free = buff;
      buff_is = refl;
      pos_is = refl;
      size_is = omega arith;
    } in
    let (ctx, e, h) =
      writes-Written bs (ctx_from buff) [] (length buff) fresh (omega arith) small in
    (
      ctx,
      e,
      reads-all bs (ctx_from ctx.buff) [] h.free h.buff_is refl
          (omega (arith, ap length h.buff_is, length-append (joined bs) h.free, h.size_is, small)),
    )
