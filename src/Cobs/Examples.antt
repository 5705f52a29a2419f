-- ===== src/Cobs/Examples.antt =====
-- The theorems on src/cobs.hpp at a source of three bytes.
use trctl.Base.{
  ℕ, ◌+◌, ◌≡◌, refl, true, some, none, List, [], ◌∷◌, ◌++◌, arith, ltb, if◌then◌else◌, length, take,
  drop,
}
use trctl.Cobs.{
  Decoded, encode_cobs, decode_cobs, encoder, insert_all, insert, store, roll_over, commit,
}
use trctl.Cobs.Format.{encoding, decoding}
use trctl.Cobs.Encode.{encode_cobs-encoding}
use trctl.Cobs.Decode.{decode_cobs-in_place}
use trctl.Cobs.RoundTrip.{decode_cobs-encode_cobs}

abbrev three : List ℕ
three = 1 ∷ 0 ∷ 2 ∷ []

abbrev six : List ℕ
six = 9 ∷ 9 ∷ 9 ∷ 9 ∷ 9 ∷ 9 ∷ []

abbrev written : List ℕ
written = 2 ∷ 1 ∷ 2 ∷ 2 ∷ 9 ∷ 9 ∷ []

three_encoded : encode_cobs three six ≡ some (written, 4)
unfolding encode_cobs insert_all insert store roll_over commit encoder
three_encoded = refl

three_full : encode_cobs three (9 ∷ 9 ∷ 9 ∷ 9 ∷ []) ≡ none
unfolding encode_cobs insert_all insert store roll_over commit encoder
three_full = refl

decode_cobs-encode_cobs_example :
    (r : Decoded) × (decode_cobs (take 4 written ++ (7 ∷ [])) 0 4 0 4 ≡ some r)
    × (r.success ≡ true)
    × (take r.used r.mem ≡ three)
decode_cobs-encode_cobs_example =
    decode_cobs-encode_cobs three six written (7 ∷ []) 4 (omega arith) three_encoded

encode_cobs-encoding_example : encode_cobs three six ≡ (
    if ltb (length (encoding [] three)) (length six)
    then some
        (encoding [] three ++ drop (length (encoding [] three)) six, length (encoding [] three))
    else none)
encode_cobs-encoding_example = encode_cobs-encoding three six (omega arith)

decode_cobs-in_place_example :
    (r : Decoded) × (gap : List ℕ) × (decode_cobs
        (written ++ (7 ∷ []))
        0
        (length written)
        0
        (length written)
      ≡ some r)
    × (r.success ≡ true)
    × (r.used ≡ length (decoding written))
    × (r.mem ≡ decoding written ++ (gap ++ (7 ∷ [])))
    × (length (decoding written) + length gap ≡ length written)
decode_cobs-in_place_example = decode_cobs-in_place written (7 ∷ []) (omega arith)
