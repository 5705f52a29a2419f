-- ===== src/Wire/Receiver.antt =====
-- `cobs_receiver` of src/util.hpp: bytes are gathered in a buffer, and each 0 ends a message.
pub mod Frames
pub mod Deliver
use trctl.Base.{
  ℕ, zero, suc, ◌+◌, ◌-◌, Bool, true, false, Option, none, some, List, [], ◌∷◌, ◌++◌, ◌==◌, ltb,
  if◌then◌else◌, length, take, drop,
}
use trctl.Cobs.{Decoded, decode_cobs}

pub record Receiver : Type 0 where
  pub rx_buffer : List ℕ
  pub rx_used : ℕ

pub receiver : List ℕ → Receiver
receiver buffer = record { rx_buffer = buffer; rx_used = 0 }

-- `aborted`: std::abort, the message is too large. `undefined`: an empty message was decoded.
-- `stuck` is no outcome of the code: the loop ran out of fuel.
pub data Rx : Type 0 where
  handled : Receiver → List (List ℕ) → Rx
  aborted undefined stuck : Rx

-- `std::copy` to the place `at`: what stood there is overwritten.
unfoldable pub overwrite : List ℕ → ℕ → List ℕ → List ℕ
overwrite buf at xs = take at buf ++ (xs ++ drop (at + length xs) buf)

-- `std::ranges::find( buff, 0 )`: the distance to the first 0, `none` for `buff.end()`.
unfoldable pub find_zero : List ℕ → Option ℕ
find_zero [] = none
find_zero (b ∷ bs) = elim (b == 0) [
  | true ↦ some 0
  | false ↦ elim (find_zero bs) [ none ↦ none | some n ↦ some (suc n) ]
]

-- The end of a round: the bytes behind the message of length `n` move to the front.
pub shift : Receiver → ℕ → List ℕ → Receiver
unfolding overwrite
shift r n mem = record {
  rx_buffer = overwrite mem 0 (drop (n + 1) (take r.rx_used mem));
  rx_used = r.rx_used - (n + 1);
}

-- The loop of `_handle_rx`; `acc` are the messages handed to `f` so far.
pub deliver : ℕ → Receiver → List (List ℕ) → Rx
deliver zero r acc = stuck
deliver (suc fuel) r acc = elim (find_zero (take r.rx_used r.rx_buffer)) [
  | none ↦ handled r acc
  | some n ↦ elim (decode_cobs r.rx_buffer 0 n 0 n) [
    | none ↦ undefined
    | some d ↦ deliver fuel (shift r n d.mem) (acc ++ (take d.used d.mem ∷ []))
  ]
]

-- Each round takes a byte at least, so one round more than there are bytes is enough.
pub handle_rx : Receiver → List ℕ → Rx
unfolding overwrite
handle_rx r bytes =
    if ltb (length r.rx_buffer - r.rx_used) (length bytes)
    then aborted
    else deliver (suc (r.rx_used + length bytes))
        (record {
          rx_buffer = overwrite r.rx_buffer r.rx_used bytes;
          rx_used = r.rx_used + length bytes;
        })
        []
