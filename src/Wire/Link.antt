-- ===== src/Wire/Link.antt =====
-- Both ends of a connection: src/client.cpp reads what `cobs_send` wrote, in pieces of any size.
use trctl.Base.{
  ℕ, ◌+◌, ◌≤◌, ◌≡◌, refl, sym, ap, ap₂, ◌∙◌, List, [], ◌∷◌, ◌++◌, map, append-nil, append_assoc,
  map-append, length,
}
use trctl.Cobs.Format.{encoding, decoding}
use trctl.Cobs.RoundTrip.{encoding-nonzero, encoding-pos, decoding-encoding}
use trctl.Wire.Send.{frame}
use trctl.Wire.Receiver.{Receiver, Rx, handled, aborted, undefined, stuck, receiver, handle_rx}
use trctl.Wire.Receiver.Frames.{
  frames, frames-zero, frames-nonzero, messages, pending, messages-append, pending-append,
  messages-nil, pending-nil, cut-pending,
}
use trctl.Wire.Receiver.Deliver.{Keeps, Solid, fresh-Keeps, handle_rx-Delivers}

-- What `uv_read_start` reports: `nread > 0` bytes, `nread == 0`, or `nread < 0`, an error or the end.
pub data Read : Type 0 where
  bytes : List ℕ → Read
  nothing failed : Read

-- `client_read`: after an error the connection is closed, and `client_close` aborts.
unfoldable pub client_read : Receiver → Read → Rx
client_read r (bytes b) = handle_rx r b
client_read r nothing = handled r []
client_read r failed = aborted

-- The messages handed on before those of a later read.
unfoldable pub behind : List (List ℕ) → Rx → Rx
behind ms (handled r ns) = handled r (ms ++ ns)
behind ms aborted = aborted
behind ms undefined = undefined
behind ms stuck = stuck

-- The reads of a connection, one after the other.
unfoldable pub client_reads : Receiver → List Read → Rx
unfolding behind
client_reads r [] = handled r []
client_reads r (c ∷ cs) = elim (client_read r c) [
  | handled r' ms ↦ behind ms (client_reads r' cs)
  | aborted ↦ aborted
  | undefined ↦ undefined
  | stuck ↦ stuck
]

-- The bytes of the reads, in order.
abbrev pub received : List Read → List ℕ
received [] = []
received (bytes b ∷ cs) = b ++ received cs
received (nothing ∷ cs) = received cs
received (failed ∷ cs) = received cs

-- No read fails, and each finds room behind the bytes that are pending.
abbrev pub Fits : ℕ → List ℕ → List Read → Type 0
Fits size s [] = Unit {0}
Fits size s (bytes b ∷ cs) = (length s + length b ≤ size) × Fits size (pending (s ++ b)) cs
Fits size s (nothing ∷ cs) = Fits size s cs
Fits size s (failed ∷ cs) = ⊥

-- The bytes of a list of messages on the wire.
abbrev pub wire : List (List ℕ) → List ℕ
wire [] = []
wire (m ∷ ms) = frame m ++ wire ms

messages-frame :
    (m rest : List ℕ)
    → (messages (frame m ++ rest) ≡ encoding [] m ∷ messages rest)
      × (pending (frame m ++ rest) ≡ pending rest)
unfolding messages pending frame
messages-frame m rest =
    let e : frames [] (frame m ++ rest) ≡ (encoding [] m ∷ (frames [] rest).0, (frames [] rest).1) =
      ap (λ t. frames [] t) (append_assoc (encoding [] m) (0 ∷ []) rest)
      ∙ frames-nonzero [] (encoding [] m) (0 ∷ rest) (encoding-nonzero m)
      ∙ frames-zero (encoding [] m) rest in
    (ap (λ t. t.0) e, ap (λ t. t.1) e)

messages-wire : (ms : List (List ℕ)) → messages (wire ms) ≡ map (λ m. encoding [] m) ms
messages-wire [] = messages-nil
messages-wire (m ∷ ms) =
    (messages-frame m (wire ms)).0 ∙ ap (λ t. encoding [] m ∷ t) (messages-wire ms)

pending-wire : (ms : List (List ℕ)) → pending (wire ms) ≡ []
pending-wire [] = pending-nil
pending-wire (m ∷ ms) = (messages-frame m (wire ms)).1 ∙ pending-wire ms

decodings : (ms : List (List ℕ)) → map decoding (map (λ m. encoding [] m) ms) ≡ ms
decodings [] = refl
decodings (m ∷ ms) = ap₂ ◌∷◌ (decoding-encoding m) (decodings ms)

Solid-encodings : (ms : List (List ℕ)) → Solid (map (λ m. encoding [] m) ms)
Solid-encodings [] = tt
Solid-encodings (m ∷ ms) = (encoding-pos m, Solid-encodings ms)

Solid-append : (xs ys : List (List ℕ)) → Solid (xs ++ ys) → Solid xs × Solid ys
Solid-append [] ys h = (tt, h)
Solid-append (x ∷ xs) ys h = let r = Solid-append xs ys h.1 in ((h.0, r.0), r.1)

-- However a byte stream with no empty message is split into reads that fit, a receiver hands on the
-- same messages, the decoded pieces between the zeros.
client_reads-Delivers :
    (cs : List Read) (r : Receiver) (s : List ℕ) (size : ℕ)
    → Keeps r s size
    → Fits size s cs
    → messages s ≡ []
    → pending s ≡ s
    → Solid (messages (s ++ received cs))
    → (r' : Receiver) × (client_reads r cs
        ≡ handled r' (map decoding (messages (s ++ received cs))))
      × Keeps r' (pending (s ++ received cs)) size
unfolding client_reads client_read
client_reads-Delivers [] r s size k fits m p solid = rw (append-nil s, m, p) (r, refl, k)
client_reads-Delivers (bytes b ∷ cs) r s size k fits m p solid =
    let q = pending (s ++ b) in
    let whole : s ++ (b ++ received cs) ≡ (s ++ b) ++ received cs = sym (append_assoc s b _) in
    let split : messages (s ++ (b ++ received cs))
        ≡ messages (s ++ b) ++ messages (q ++ received cs) =
      ap messages whole ∙ messages-append (s ++ b) (received cs) in
    let (one, rest) =
      Solid-append (messages (s ++ b)) (messages (q ++ received cs)) (rw split at solid) in
    let (r', now, k') = handle_rx-Delivers r s b size k fits.0 one in
    let (r'', later, k'') =
      client_reads-Delivers cs r' q size k' fits.1 (cut-pending (s ++ b)).0 (cut-pending (s ++ b)).1
        rest in
    (
      r'',
      rw (now, client_reads, later, split)
          (ap (λ t. handled r'' t)
            (sym (map-append decoding (messages (s ++ b)) (messages (q ++ received cs))))),
      rw (whole, pending-append (s ++ b) (received cs)) k'',
    )
client_reads-Delivers (nothing ∷ cs) r s size k fits m p solid =
    let (r', later, k') = client_reads-Delivers cs r s size k fits m p solid in (r', rw later, k')
client_reads-Delivers (failed ∷ cs) r s size k fits m p solid = absurd fits

-- If the reads of a fresh receiver carry the frames of some messages, cut into pieces of any size
-- that fit into its buffer, then exactly these messages are handed on, in order, and no byte is left.
pub client_reads-wire :
    (buffer : List ℕ) (cs : List Read) (ms : List (List ℕ))
    → received cs ≡ wire ms
    → Fits (length buffer) [] cs
    → (r : Receiver) × (client_reads (receiver buffer) cs ≡ handled r ms) × (r.rx_used ≡ 0)
client_reads-wire buffer cs ms e fits =
    let coded : messages (received cs) ≡ map (λ m. encoding [] m) ms =
      ap messages e ∙ messages-wire ms in
    let (r, run, k) =
      client_reads-Delivers cs (receiver buffer) [] (length buffer) (fresh-Keeps buffer) fits
        messages-nil pending-nil (rw coded (Solid-encodings ms)) in
    (
      r,
      run ∙ ap (λ t. handled r (map decoding t)) coded ∙ ap (λ t. handled r t) (decodings ms),
      k.used_is ∙ ap length (ap pending e ∙ pending-wire ms),
    )
