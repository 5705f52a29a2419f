-- ===== src/Npb/Streams.antt =====
-- The stream callbacks of src/npb.hpp.
pub mod RoundTrip
use trctl.Base.{
  ℕ, ◌+◌, ◌%◌, ◌^◌, Option, none, some, List, [], ◌∷◌, ◌++◌, ltb, if◌then◌else◌, length, take, drop,
}

-- `npb_istream_ctx`, and `npb_ostream_ctx`.
pub record Ctx : Type 0 where
  pub buff : List ℕ
  pub pos : ℕ

-- `npb_istream_from` and `npb_ostream_from`: the callback gets this state.
unfoldable pub ctx_from : List ℕ → Ctx
ctx_from buff = record { buff = buff; pos = 0 }

-- `npb_istream_cb`: the bytes copied to `buf`, or `none` for `false`, with nothing changed. The sum is one of
-- `size_t`.
pub istream_cb : Ctx → ℕ → Option (List ℕ × Ctx)
istream_cb ctx count =
    if ltb (length ctx.buff) ((ctx.pos + count) % 2 ^ 64)
    then none
    else some (take count (drop ctx.pos ctx.buff), record ctx { pos = (ctx.pos + count) % 2 ^ 64 })

-- `std::copy_n` to the place `at`.
copy_to : List ℕ → ℕ → List ℕ → List ℕ
copy_to buff at buf = take at buff ++ (buf ++ drop (at + length buf) buff)

-- `npb_ostream_cb`
pub ostream_cb : Ctx → List ℕ → Option Ctx
unfolding copy_to
ostream_cb ctx buf =
    if ltb (length ctx.buff) ((ctx.pos + length buf) % 2 ^ 64)
    then none
    else some
        (record { buff = copy_to ctx.buff ctx.pos buf; pos = (ctx.pos + length buf) % 2 ^ 64 })
