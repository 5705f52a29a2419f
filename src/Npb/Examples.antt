-- ===== src/Npb/Examples.antt =====
-- Streams and fields at small sizes.
use trctl.Base.{ℕ, ◌+◌, ◌≡◌, refl, none, some, List, [], ◌∷◌, ◌++◌, length, arith}
use trctl.Npb.Streams.{Ctx, ctx_from}
use trctl.Npb.Streams.RoundTrip.{writes, reads, reads-writes}
use trctl.Npb.Fields.{Nanopb, ostream, handle_repeated_string_field}
use trctl.Npb.Fields.RoundTrip.{
  Holds, Arrive, none_left, next, texts, decode_all, encode_each,
  handle_repeated_string_field-again,
}

abbrev four : List ℕ
four = 9 ∷ 9 ∷ 9 ∷ 9 ∷ []

abbrev pieces : List (List ℕ)
pieces = (1 ∷ 2 ∷ []) ∷ [] ∷ (3 ∷ []) ∷ []

reads-writes_example :
    (ctx : Ctx) × (writes (ctx_from four) pieces ≡ some ctx)
    × (reads (ctx_from ctx.buff) pieces ≡ some pieces)
reads-writes_example = reads-writes four pieces (omega arith) (omega arith)

-- Memory is a number of bytes used, a stream the bytes that are left, and writing appends.
abbrev plain : Nanopb ℕ (List ℕ) (List ℕ)
plain = record {
  allocate = λ mem n. some ([], mem + n);
  bytes_left = λ s. length s;
  pb_read = λ s n. some (s, []);
  pb_encode_tag_for_field = λ o. some (o ++ (10 ∷ []));
  pb_encode_string = λ o bytes. some (o ++ (length bytes ∷ bytes));
}

abbrev hi : List ℕ
hi = 104 ∷ 105 ∷ []

abbrev arriving : List (List ℕ × List ℕ)
arriving = (hi, hi) ∷ []

abbrev hi-Holds : Holds plain 16 hi hi
hi-Holds = record { raw = []; mem' = 19; s' = []; left_is = refl; allocated = refl; read = refl }

arriving-Arrive : Arrive plain 0 arriving 16
arriving-Arrive =
    next 0 16 [] hi hi [] 16 refl hi-Holds (omega arith, (omega arith, tt)) (none_left 19 16)

handle_repeated_string_field-again_example :
    (field : List (List ℕ)) × (decode_all plain 16 0 arriving [] ≡ some field)
    × (handle_repeated_string_field plain 16 (ostream []) 0 field
        ≡ (elim (encode_each plain [] (texts plain arriving)) [
          | none ↦ none
          | some o' ↦ some (record { streams = ostream o'; mem = 0; field = field })
        ]))
handle_repeated_string_field-again_example =
    handle_repeated_string_field-again plain 16 0 0 arriving [] arriving-Arrive
