-- ===== src/Wire/Send.antt =====
-- `cobs_send` of src/util.cpp.
-- The circular buffer (`ecor`) and `uv_write` (`libuv`) are arguments: `make_span n` is the memory that
-- the buffer hands out for `n` bytes, and `write_fails` says whether `uv_write` reports an error.
use trctl.Base.{
  ℕ, ◌+◌, ◌-◌, ◌*◌, ◌/◌, ◌%◌, ◌^◌, ◌≡◌, Bool, Option, none, some, List, [], ◌∷◌, ◌++◌,
  if◌then◌else◌, length, take, drop, All,
}
use trctl.Cobs.{encode_cobs}
use trctl.Cobs.Format.{encoding}

-- `send_status`
pub data SendStatus : Type 0 where
  encoding_error write_error success : SendStatus

-- The status, and the bytes that `uv_write` took over.
pub record Sent : Type 0 where
  pub status : SendStatus
  pub wire : Option (List ℕ)

-- `3 + data.size() * 258 / 255` in `size_t`.
unfoldable pub span_size : ℕ → ℕ
span_size n = (3 + n * 258 % 2 ^ 64 / 255) % 2 ^ 64

module _ (make_span : ℕ → Option (List ℕ)) (write_fails : List ℕ → Bool) where
  -- The frame is encoded into all but the last byte of the span, and sent with the byte behind it.
  write_frame : List ℕ → Option (List ℕ × ℕ) → Sent
  write_frame last none = record { status = encoding_error; wire = none }
  write_frame last (some (mem, used)) =
      let frame = take (used + 1) (mem ++ last) in
      if write_fails frame
      then record { status = write_error; wire = none }
      else record { status = success; wire = some frame }

  -- `none`: the buffer is exhausted, and the code follows a null pointer.
  pub cobs_send : List ℕ → Option Sent
  unfolding write_frame
  cobs_send source = elim (make_span (span_size (length source))) [
    | none ↦ none
    | some span ↦ some (
        write_frame (drop (length span - 1) span)
          (encode_cobs source (take (length span - 1) span)))
  ]

-- A span of the size asked for, with every byte 0. That the memory is 0 is what the code relies on: it writes no 0
-- behind the encoding, and sends the byte that is there.
pub record Zeroed (make_span : ℕ → Option (List ℕ)) (n : ℕ) : Type 0 where
  pub span : List ℕ
  pub given : make_span n ≡ some span
  pub length_is : length span ≡ n
  pub all_zero : All (λ b. b ≡ 0) span

-- The frame of a message: its encoding, and the 0 that ends it.
unfoldable pub frame : List ℕ → List ℕ
frame source = encoding [] source ++ (0 ∷ [])
