-- ===== src/Str.antt =====
-- `fixed_str` of src/str.hpp: paths built piece by piece in one buffer of characters.
-- Pointers into the buffer are indices; `e` is the end of the buffer.
pub mod Path
mod Examples
use trctl.Base.{
  ℕ, suc, ◌+◌, ◌-◌, ltb, if◌then◌else◌, List, [], ◌∷◌, ◌++◌, length, take, drop, get_or, set,
}

-- The buffer is the shared object of all nodes; it is passed along.
abbrev pub Buffer : Type 0
Buffer = List ℕ

-- `std::memcpy` of the first `n` bytes of `sv` to the place `at`.
memcpy : Buffer → ℕ → List ℕ → ℕ → Buffer
memcpy buf at sv n = take at buf ++ (take n sv ++ drop (at + length (take n sv)) buf)

-- `node::operator()` at the end `p` of the text so far: the new text is appended, cut to the buffer,
-- and ended by 0. The result is the buffer and the new end.
unfoldable pub append : Buffer → ℕ → List ℕ → Buffer × ℕ
unfolding memcpy
append buf p sv =
    let pp = p + length sv + 1 in
    let pp' = if ltb (length buf) pp then length buf else pp in
    (set (memcpy buf p sv (pp' - p - 1)) (pp' - 1) 0, pp' - 1)

-- `fixed_str::operator()` starts over, at the front of the buffer.
unfoldable pub start : Buffer → List ℕ → Buffer × ℕ
unfolding append
start buf sv = append buf 0 sv

-- `node::end`: the character at the end of the text.
unfoldable pub end_char : Buffer → ℕ → ℕ
end_char buf p = get_or buf p 0

-- `node::set_end`
unfoldable pub set_end : Buffer → ℕ → Buffer
set_end buf p = set buf p 0

-- `node::str`: the characters up to the first 0, as a C string.
unfoldable pub str : Buffer → List ℕ
str [] = []
str (c ∷ cs) = if ltb 0 c then c ∷ str cs else []
