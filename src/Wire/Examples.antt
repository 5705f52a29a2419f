-- ===== src/Wire/Examples.antt =====
-- The theorems on the connection at a receiver with a small buffer.
use trctl.Base.{
  ℕ, zero, suc, ◌≡◌, refl, inl, Bool, false, Option, some, List, [], ◌∷◌, map, arith, length,
}
use trctl.Cobs.Format.{encoding, decoding}
use trctl.Wire.Send.{frame}
use trctl.Wire.Receiver.{Receiver, receiver, handled, undefined, handle_rx}
use trctl.Wire.Receiver.Frames.{messages, pending, frames}
use trctl.Wire.Receiver.Deliver.{
  Keeps, Solid, Hollow, fresh-Keeps, handle_rx-Delivers, handle_rx-undefined,
}
use trctl.Wire.Link.{Read, bytes, nothing, client_reads, received, wire, Fits, client_reads-wire}

abbrev zeros : ℕ → List ℕ
zeros zero = []
zeros (suc n) = 0 ∷ zeros n

abbrev three : List ℕ
three = 1 ∷ 0 ∷ 2 ∷ []

abbrev allocate : ℕ → Option (List ℕ)
allocate n = some (zeros n)

abbrev write_succeeds : List ℕ → Bool
write_succeeds bs = false

abbrev eight : List ℕ
eight = zeros 8

-- One message, and the first byte of the next.
abbrev piece : List ℕ
piece = 2 ∷ 7 ∷ 0 ∷ 3 ∷ []

piece-Solid : Solid (messages piece)
unfolding messages frames
piece-Solid = (omega arith, tt)

handle_rx-Delivers_example :
    (r' : Receiver) × (handle_rx (receiver eight) piece
      ≡ handled r' (map decoding (messages piece)))
    × Keeps r' (pending piece) (length eight)
handle_rx-Delivers_example =
    handle_rx-Delivers (receiver eight) [] piece (length eight) (fresh-Keeps eight) (omega arith)
      piece-Solid

zero-Hollow : Hollow (messages (0 ∷ []))
unfolding messages frames
zero-Hollow = inl refl

handle_rx-undefined_example : handle_rx (receiver eight) (0 ∷ []) ≡ undefined
handle_rx-undefined_example =
    handle_rx-undefined (receiver eight) [] (0 ∷ []) (length eight) (fresh-Keeps eight)
      (omega arith) zero-Hollow

-- The frame of `three` in two pieces.
abbrev reads : List Read
reads = bytes (2 ∷ 1 ∷ []) ∷ nothing ∷ bytes (2 ∷ 2 ∷ 0 ∷ []) ∷ []

reads-wire : received reads ≡ wire (three ∷ [])
unfolding frame encoding
reads-wire = refl

reads-Fits : Fits (length eight) [] reads
unfolding pending frames
reads-Fits = (omega arith, (omega arith, tt))

client_reads-wire_example :
    (r : Receiver) × (client_reads (receiver eight) reads ≡ handled r (three ∷ []))
    × (r.rx_used ≡ 0)
client_reads-wire_example = client_reads-wire eight reads (three ∷ []) reads-wire reads-Fits
