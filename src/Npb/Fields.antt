-- ===== src/Npb/Fields.antt =====
-- The field callbacks of src/npb.hpp. nanopb and the circular buffer are arguments: `allocate` gives as many
-- bytes as it is asked for, with what stands in them, or nothing; the other functions are `none` for false.
-- What a message holds after its decoding has failed is not looked at by the program.
pub mod RoundTrip
use trctl.Base.{ℕ, zero, suc, ◌+◌, Option, none, some, List, [], ◌∷◌, ◌++◌, length, drop}
use trctl.Str.{str}

-- nanopb, with the streams `S` to read from and `O` to write to, and the memory `M`.
pub record Nanopb (M S O : Type 0) : Type 0 where
  pub allocate : M → ℕ → Option (List ℕ × M)
  pub bytes_left : S → ℕ
  pub pb_read : S → ℕ → Option (List ℕ × S)
  pub pb_encode_tag_for_field : O → Option O
  pub pb_encode_string : O → List ℕ → Option O

-- The streams that a callback gets: `ostream` is not null, or only `istream` is not, or both are.
pub data Streams (S O : Type 0) : Type 0 where
  ostream : O → Streams S O
  istream : S → Streams S O
  no_stream : Streams S O

-- After a callback that returned true: the streams, the memory and the field.
pub record Handled (M S O F : Type 0) : Type 0 where
  pub streams : Streams S O
  pub mem : M
  pub field : F

-- `size_t` zeros, `memset`.
zeros : ℕ → List ℕ
zeros zero = []
zeros (suc n) = 0 ∷ zeros n

module _ {M S O : Type 0} (pb : Nanopb M S O) where
  -- The tag of the field, and a string.
  encode_tagged : O → List ℕ → Option O
  encode_tagged o bytes = elim (pb.pb_encode_tag_for_field o) [
    | none ↦ none
    | some o' ↦ pb.pb_encode_string o' bytes
  ]

  -- Memory for the rest of the stream and a final 0, cleared, and the rest of the stream.
  read_string : M → S → Option (List ℕ × M × S)
  unfolding zeros
  read_string mem s = elim (pb.allocate mem (pb.bytes_left s + 1)) [
    | none ↦ none
    | some (raw, mem') ↦ elim (pb.pb_read s (pb.bytes_left s)) [
      | none ↦ none
      | some (bytes, s') ↦
          some (bytes ++ drop (length bytes) (zeros (pb.bytes_left s + 1)), mem', s')
    ]
  ]

  -- `npb_handle_string_field`; the field is a pointer to the memory of a string, or null.
  pub handle_string_field :
      Streams S O → M → Option (List ℕ) → Option (Handled M S O (Option (List ℕ)))
  unfolding encode_tagged read_string
  handle_string_field (ostream o) mem none =
      some (record { streams = ostream o; mem = mem; field = none })
  handle_string_field (ostream o) mem (some text) = elim (encode_tagged o (str text)) [
    | none ↦ none
    | some o' ↦ some (record { streams = ostream o'; mem = mem; field = some text })
  ]
  handle_string_field (istream s) mem field = elim (read_string mem s) [
    | none ↦ none
    | some (text, mem', s') ↦ some (record { streams = istream s'; mem = mem'; field = some text })
  ]
  handle_string_field no_stream mem field = none

  -- The loop over the strings of a repeated field.
  encode_strings : O → List (List ℕ) → Option O
  unfolding encode_tagged
  encode_strings o [] = some o
  encode_strings o (text ∷ texts) = elim (encode_tagged o (str text)) [
    | none ↦ none
    | some o' ↦ encode_strings o' texts
  ]

  -- `npb_handle_repeated_string_field`; the field is the list of the strings. When it reads, it makes a
  -- node, of `node_size` bytes, at the end of the list.
  pub handle_repeated_string_field :
      ℕ → Streams S O → M → List (List ℕ) → Option (Handled M S O (List (List ℕ)))
  unfolding encode_strings read_string
  handle_repeated_string_field node_size (ostream o) mem field = elim (encode_strings o field) [
    | none ↦ none
    | some o' ↦ some (record { streams = ostream o'; mem = mem; field = field })
  ]
  handle_repeated_string_field node_size (istream s) mem field = elim (pb.allocate mem node_size) [
    | none ↦ none
    | some (raw, mem') ↦ elim (read_string mem' s) [
      | none ↦ none
      | some (text, mem'', s') ↦
          some (record { streams = istream s'; mem = mem''; field = field ++ (text ∷ []) })
    ]
  ]
  handle_repeated_string_field node_size no_stream mem field = none

  -- `npb_handle_data_field`; the field is the bytes.
  pub handle_data_field : Streams S O → M → List ℕ → Option (Handled M S O (List ℕ))
  unfolding encode_tagged
  handle_data_field (ostream o) mem field = elim (encode_tagged o field) [
    | none ↦ none
    | some o' ↦ some (record { streams = ostream o'; mem = mem; field = field })
  ]
  handle_data_field (istream s) mem field = elim (pb.allocate mem (pb.bytes_left s)) [
    | none ↦ none
    | some (raw, mem') ↦ elim (pb.pb_read s (pb.bytes_left s)) [
      | none ↦ none
      | some (bytes, s') ↦
          some
            (record { streams = istream s'; mem = mem'; field = bytes ++ drop (length bytes) raw })
    ]
  ]
  handle_data_field no_stream mem field = none
