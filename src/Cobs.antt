-- ===== src/Cobs.antt =====
-- src/cobs.hpp: consistent overhead byte stuffing over caller-provided memory.
-- A span is a list of bytes, a pointer into it an index. `uint8_t` arithmetic is modulo 256.
pub mod Format
pub mod Encode
pub mod Decode
pub mod RoundTrip
mod Examples
use trctl.Base.{
  ℕ, zero, suc, ◌+◌, ◌%◌, Bool, true, false, not, ◌&&◌, Option, none, some, List, [], ◌∷◌, ◌==◌,
  if◌then◌else◌, length, get_or, set,
}

-- `cobs_encoder`; `last_p` is where the code of the open block will stand.
pub record Encoder : Type 0 where
  pub target : List ℕ
  pub last_p : ℕ
  pub p : ℕ
  pub count : ℕ

pub encoder : List ℕ → Encoder
encoder target = record { target = target; last_p = 0; p = 1; count = 1 }

-- The first half of `insert`: store the byte, or close the block at a zero; then `++p`.
pub store : Encoder → ℕ → Encoder
store e b =
    if not (b == 0)
    then record e { target = set e.target e.p b; p = e.p + 1; count = (e.count + 1) % 256 }
    else record e { target = set e.target e.last_p e.count; last_p = e.p; p = e.p + 1; count = 1 }

-- The second half: at the end of the target stop; after 254 bytes open a new block.
pub roll_over : Encoder → Bool × Encoder
roll_over e =
    if e.p == length e.target
    then (false, e)
    else if e.count == 255
    then (
      not (e.p + 1 == length e.target),
      record e { target = set e.target e.last_p 255; last_p = e.p; p = e.p + 1; count = 1 },
    )
    else (true, e)

pub insert : Encoder → ℕ → Bool × Encoder
unfolding store roll_over
insert e b = roll_over (store e b)

-- `commit`: the target, and how many of its bytes are used.
pub commit : Encoder → List ℕ × ℕ
commit e = (set e.target e.last_p e.count, e.p)

insert_all : Encoder → List ℕ → Option Encoder
insert_all e [] = some e
insert_all e (b ∷ bs) =
    let r = insert e b in let rest = insert_all r.1 bs in if r.0 then rest else none

-- `encode_cobs`: `none` is the failure `{false, {}}`.
pub encode_cobs : List ℕ → List ℕ → Option (List ℕ × ℕ)
encode_cobs source target = elim (insert_all (encoder target) source) [
  | none ↦ none
  | some e ↦ some (commit e)
]

-- `cobs_decoder`
pub record Decoder : Type 0 where
  pub nonzero : Bool
  pub offset : ℕ

pub decoder : ℕ → Decoder
decoder b = record { nonzero = b == 255; offset = b }

pub get : Decoder → ℕ → Option ℕ
get d inpt = if d.offset == 1 then (if d.nonzero then none else some 0) else some inpt

pub non_value_byte : Decoder → Bool
non_value_byte d = (d.offset == 1) && d.nonzero

-- `offset--` on a `uint8_t`: 0 wraps to 255.
pub advance : Decoder → ℕ → Decoder
advance d inpt =
    if d.offset == 1
    then record { nonzero = inpt == 255; offset = inpt }
    else record d { offset = (d.offset + 255) % 256 }

pub iter : Decoder → ℕ → Option ℕ × Decoder
unfolding get advance
iter d inpt = (get d inpt, advance d inpt)

-- What a decoding leaves: the flag, the memory and the number of bytes written to the target.
pub record Decoded : Type 0 where
  pub success : Bool
  pub mem : List ℕ
  pub used : ℕ

-- The loop of `decode_cobs`, `rounds` bytes from its end: it reads the source at `i`, and writes the
-- target at `j`. Source and target are places `src` and `dst` of one memory, so that they may overlap.
pub decode_from : ℕ → List ℕ → Decoder → ℕ → ℕ → ℕ → ℕ → Decoded
decode_from zero mem d i j dst size = record { success = true; mem = mem; used = j }
decode_from (suc rounds) mem d i j dst size =
    let r = iter d (get_or mem i 0) in
    elim r.0 [
      | none ↦ decode_from rounds mem r.1 (i + 1) j dst size
      | some v ↦ elim (j + 1 == size) [
        | true ↦ record { success = false; mem = set mem (dst + j) v; used = size }
        | false ↦ decode_from rounds (set mem (dst + j) v) r.1 (i + 1) (j + 1) dst size
      ]
    ]

-- `decode_cobs` of `n` bytes at `src` into `size` bytes at `dst`. It reads `source.front()`, so for
-- `n = 0` its behaviour is undefined: `none`.
pub decode_cobs : List ℕ → ℕ → ℕ → ℕ → ℕ → Option Decoded
decode_cobs mem src zero dst size = none
decode_cobs mem src (suc rounds) dst size =
    some (decode_from rounds mem (decoder (get_or mem src 0)) (src + 1) 0 dst size)
