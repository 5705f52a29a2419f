-- ===== src/Wire/Receiver/Deliver.antt =====
-- `_handle_rx` of src/util.hpp against the cut of the byte stream at its zeros.
use trctl.Base.{
  ℕ, zero, suc, ◌+◌, ◌-◌, ◌≤◌, ◌<◌, ◌≡◌, refl, sym, ap, ◌∙◌, ◌⊎◌, inl, inr, ℕ_discrete, none, some,
  List, [], ◌∷◌, ◌++◌, map, append-nil, append_assoc, arith, le→ltb, lt→ltb, length, take, drop,
  All, length-append, length-drop, take-append, drop-append,
}
use trctl.Cobs.{Decoded, decode_cobs}
use trctl.Cobs.Format.{decoding}
use trctl.Cobs.Decode.{decode_cobs-in_place, decode_cobs-nothing}
use trctl.Wire.Receiver.{
  Receiver, receiver, Rx, handled, aborted, undefined, overwrite, find_zero, shift, deliver,
  handle_rx,
}
use trctl.Wire.Receiver.Frames.{messages, pending, whole, ended, cut}

-- The receiver holds the bytes `s`, in a buffer of `size` bytes.
pub record Keeps (r : Receiver) (s : List ℕ) (size : ℕ) : Type 0 where
  pub free : List ℕ
  pub buffer_is : r.rx_buffer ≡ s ++ free
  pub used_is : r.rx_used ≡ length s
  pub size_is : length r.rx_buffer ≡ size

pub fresh-Keeps : (buffer : List ℕ) → Keeps (receiver buffer) [] (length buffer)
unfolding receiver
fresh-Keeps buffer = record { free = buffer; buffer_is = refl; used_is = refl; size_is = refl }

-- No message is empty.
abbrev pub Solid : List (List ℕ) → Type 0
Solid = All (λ m. 0 < length m)

shift-Keeps :
    (r : Receiver) (n : ℕ) (mem pre rest free : List ℕ) (size : ℕ)
    → n ≡ length pre
    → r.rx_used ≡ length pre + suc (length rest)
    → mem ≡ pre ++ (0 ∷ (rest ++ free))
    → length mem ≡ size
    → Keeps (shift r n mem) rest size
unfolding shift overwrite
shift-Keeps r n mem pre rest free size en eu em es =
    let tail : drop (n + 1) (take r.rx_used mem) ≡ rest =
      ap (λ t. drop (n + 1) (take r.rx_used t))
        (em
          ∙ sym (append_assoc pre (0 ∷ rest) free)
          ∙ ap (λ t. t ++ free) (sym (append_assoc pre (0 ∷ []) rest)))
      ∙ ap (λ t. drop (n + 1) t)
          (take-append ((pre ++ (0 ∷ [])) ++ rest) free r.rx_used
            (omega (arith, eu, length-append (pre ++ (0 ∷ [])) rest, length-append pre (0 ∷ []))))
      ∙ drop-append (pre ++ (0 ∷ [])) rest (n + 1)
          (omega (arith, en, length-append pre (0 ∷ []))) in
    let long : length mem ≡ length pre + suc (length rest + length free) =
      omega
        (arith, ap length em, length-append pre (0 ∷ (rest ++ free)), length-append rest free) in
    record {
      free = drop (0 + length rest) mem;
      buffer_is = rw tail;
      used_is = omega (arith, eu, en);
      size_is = rw tail (
          omega (
            arith,
            length-append rest (drop (0 + length rest) mem),
            length-drop (0 + length rest) mem,
            long,
            es,
          ));
    }

abbrev Delivers : Rx → List (List ℕ) → List ℕ → ℕ → Type 0
Delivers rx ms rest size = (r : Receiver) × (rx ≡ handled r ms) × Keeps r rest size

deliver-none :
    (fuel : ℕ) (r : Receiver) (acc : List (List ℕ)) (s : List ℕ)
    → take r.rx_used r.rx_buffer ≡ s
    → find_zero s ≡ none
    → deliver (suc fuel) r acc ≡ handled r acc
unfolding deliver
deliver-none fuel r acc s e f = rw (e, deliver, f)

deliver-some :
    (fuel : ℕ) (r : Receiver) (acc : List (List ℕ)) (s : List ℕ) (n : ℕ) (d : Decoded)
    → take r.rx_used r.rx_buffer ≡ s
    → find_zero s ≡ some n
    → decode_cobs r.rx_buffer 0 n 0 n ≡ some d
    → deliver (suc fuel) r acc ≡ deliver fuel (shift r n d.mem) (acc ++ (take d.used d.mem ∷ []))
unfolding deliver
deliver-some fuel r acc s n d e f g = rw (e, deliver, f, g)

held : (r : Receiver) (s : List ℕ) (size : ℕ) → Keeps r s size → take r.rx_used r.rx_buffer ≡ s
held r s size k = ap (λ t. take r.rx_used t) k.buffer_is ∙ take-append s k.free r.rx_used k.used_is

-- A round with a message that is not empty.
deliver-round :
    (fuel : ℕ) (s msg rest : List ℕ) (r : Receiver) (acc : List (List ℕ)) (size : ℕ)
    → Keeps r s size
    → find_zero s ≡ some (length msg)
    → s ≡ msg ++ (0 ∷ rest)
    → 0 < length msg
    → (r' : Receiver) × (deliver (suc fuel) r acc ≡ deliver fuel r' (acc ++ (decoding msg ∷ [])))
      × Keeps r' rest size
deliver-round fuel s msg rest r acc size k f split pos =
    let buffer : r.rx_buffer ≡ msg ++ (0 ∷ (rest ++ k.free)) =
      k.buffer_is ∙ ap (λ t. t ++ k.free) split ∙ append_assoc msg (0 ∷ rest) k.free in
    let (d, gap, run, _, used, left, len) = decode_cobs-in_place msg (0 ∷ (rest ++ k.free)) pos in
    let runs : decode_cobs r.rx_buffer 0 (length msg) 0 (length msg) ≡ some d = rw buffer run in
    let text : take d.used d.mem ≡ decoding msg =
      rw left (take-append (decoding msg) (gap ++ (0 ∷ (rest ++ k.free))) d.used used) in
    (
      shift r (length msg) d.mem,
      deliver-some fuel r acc s (length msg) d (held r s size k) f runs
          ∙ ap (λ t. deliver fuel (shift r (length msg) d.mem) (acc ++ (t ∷ []))) text,
      shift-Keeps r (length msg) d.mem (decoding msg ++ gap) rest k.free size
          (omega (arith, len, length-append (decoding msg) gap))
          (omega (
            arith,
            k.used_is,
            ap length split,
            length-append msg (0 ∷ rest),
            len,
            length-append (decoding msg) gap,
          ))
          (left ∙ sym (append_assoc (decoding msg) gap (0 ∷ (rest ++ k.free))))
          (omega (
            arith,
            k.size_is,
            ap length buffer,
            ap length left,
            len,
            length-append msg (0 ∷ (rest ++ k.free)),
            length-append (decoding msg) (gap ++ (0 ∷ (rest ++ k.free))),
            length-append gap (0 ∷ (rest ++ k.free)),
          )),
    )

deliver-Delivers :
    (fuel : ℕ) (s : List ℕ) (r : Receiver) (acc : List (List ℕ)) (size : ℕ)
    → length s < fuel
    → Keeps r s size
    → Solid (messages s)
    → Delivers (deliver fuel r acc) (acc ++ map decoding (messages s)) (pending s) size
deliver-Delivers zero s r acc size lt k solid = absurd (omega arith)
deliver-Delivers (suc fuel) s r acc size lt k solid = elim (cut s) [
  | whole f m p ↦
      rw (m, p, deliver-none fuel r acc s (held r s size k) f, append-nil acc) (r, refl, k)
  | ended msg rest f split m p ↦
      let solid' : Solid (msg ∷ messages rest) = rw m at solid in
      let (r', step, k') = deliver-round fuel s msg rest r acc size k f split solid'.0 in
      rw (m, p, step, ← append_assoc acc (decoding msg ∷ []) (map decoding (messages rest)))
        (deliver-Delivers fuel rest r' (acc ++ (decoding msg ∷ [])) size
          (omega (arith, ap length split, length-append msg (0 ∷ rest))) k' solid'.1)
]

deliver-empty :
    (fuel : ℕ) (r : Receiver) (acc : List (List ℕ)) (s : List ℕ)
    → take r.rx_used r.rx_buffer ≡ s
    → find_zero s ≡ some 0
    → deliver (suc fuel) r acc ≡ undefined
unfolding deliver
deliver-empty fuel r acc s e f = rw (e, deliver, f, decode_cobs-nothing)

-- Some message is empty.
abbrev pub Hollow : List (List ℕ) → Type 0
Hollow [] = ⊥
Hollow (m ∷ ms) = (length m ≡ 0) ⊎ Hollow ms

deliver-undefined :
    (fuel : ℕ) (s : List ℕ) (r : Receiver) (acc : List (List ℕ)) (size : ℕ)
    → length s < fuel
    → Keeps r s size
    → Hollow (messages s)
    → deliver fuel r acc ≡ undefined
deliver-undefined zero s r acc size lt k hollow = absurd (omega arith)
deliver-undefined (suc fuel) s r acc size lt k hollow = elim (cut s) [
  | whole f m p ↦ absurd (rw m at hollow)
  | ended msg rest f split m p ↦
      let hollow' : Hollow (msg ∷ messages rest) = rw m at hollow in
      elim (ℕ_discrete (length msg) 0) [
        | yes e ↦ deliver-empty fuel r acc s (held r s size k) (f ∙ ap some e)
        | no ne ↦ elim hollow' [
          | inl e ↦ absurd (ne e)
          | inr hollow'' ↦
              let (r', step, k') =
                deliver-round fuel s msg rest r acc size k f split (omega arith) in
              step
              ∙ deliver-undefined fuel rest r' (acc ++ (decoding msg ∷ [])) size
                  (omega (arith, ap length split, length-append msg (0 ∷ rest))) k' hollow''
        ]
      ]
]

fill-Keeps :
    (r : Receiver) (s bytes : List ℕ) (size : ℕ)
    → Keeps r s size
    → length s + length bytes ≤ size
    → Keeps
        (record {
          rx_buffer = overwrite r.rx_buffer r.rx_used bytes;
          rx_used = r.rx_used + length bytes;
        })
        (s ++ bytes)
        size
unfolding overwrite
fill-Keeps r s bytes size k fits =
    let front : take r.rx_used r.rx_buffer ≡ s = held r s size k in
    record {
      free = drop (r.rx_used + length bytes) r.rx_buffer;
      buffer_is = rw front (sym (append_assoc s bytes _));
      used_is = omega (arith, k.used_is, length-append s bytes);
      size_is = rw front (
          omega (
            arith,
            length-append s (bytes ++ drop (r.rx_used + length bytes) r.rx_buffer),
            length-append bytes (drop (r.rx_used + length bytes) r.rx_buffer),
            length-drop (r.rx_used + length bytes) r.rx_buffer,
            k.used_is,
            k.size_is,
          ));
    }

-- A receiver that holds `s`, given bytes that fit into its buffer, hands on the decoded messages that
-- zeros end in `s ++ bytes`, in order, and holds the bytes behind the last zero, if no message there
-- is empty. In particular its loop ends.
pub handle_rx-Delivers :
    (r : Receiver) (s bytes : List ℕ) (size : ℕ)
    → Keeps r s size
    → length s + length bytes ≤ size
    → Solid (messages (s ++ bytes))
    → (r' : Receiver) × (handle_rx r bytes ≡ handled r' (map decoding (messages (s ++ bytes))))
      × Keeps r' (pending (s ++ bytes)) size
unfolding handle_rx
handle_rx-Delivers r s bytes size k fits solid =
    rw
      (le→ltb (length r.rx_buffer - r.rx_used) (length bytes) (omega (arith, k.used_is, k.size_is)))
      (deliver-Delivers (suc (r.rx_used + length bytes)) (s ++ bytes) _ [] size
        (omega (arith, k.used_is, length-append s bytes)) (fill-Keeps r s bytes size k fits) solid)

-- Bytes that do not fit abort the program.
handle_rx-aborts :
    (r : Receiver) (s bytes : List ℕ) (size : ℕ)
    → Keeps r s size
    → size < length s + length bytes
    → handle_rx r bytes ≡ aborted
unfolding handle_rx
handle_rx-aborts r s bytes size k over = rw (
    lt→ltb (length r.rx_buffer - r.rx_used) (length bytes)
      (omega (arith, k.used_is, k.size_is, ap length k.buffer_is, length-append s k.free)))

-- An empty message, two zeros in a row or a 0 while nothing is pending, makes the code decode no
-- bytes at all, which is undefined.
pub handle_rx-undefined :
    (r : Receiver) (s bytes : List ℕ) (size : ℕ)
    → Keeps r s size
    → length s + length bytes ≤ size
    → Hollow (messages (s ++ bytes))
    → handle_rx r bytes ≡ undefined
unfolding handle_rx
handle_rx-undefined r s bytes size k fits hollow =
    rw
      (le→ltb (length r.rx_buffer - r.rx_used) (length bytes) (omega (arith, k.used_is, k.size_is)))
      (deliver-undefined (suc (r.rx_used + length bytes)) (s ++ bytes) _ [] size
        (omega (arith, k.used_is, length-append s bytes)) (fill-Keeps r s bytes size k fits) hollow)
