-- ===== src/Transfer.antt =====
-- src/unit/fs_transfer.hpp: files that a client sends in pieces. The files of the work directory and libuv
-- are a `Disk`. The work on one slot goes through its fifo `workers`, one operation at a time, as
-- Async/Fifo has it; the operations stand here as they run.
pub mod Hash
pub mod Bounds
pub mod Handles
pub mod Upload
mod Examples
use trctl.Base.{
  ℕ, zero, suc, ◌+◌, ◌%◌, ◌^◌, Bool, true, false, not, Option, none, some, List, [], ◌∷◌, ◌++◌,
  ◌==◌, ltb, if◌then◌else◌, length,
}
use trctl.Util.{Error, none_error, input_error, of_error, unify, fnv_offset, fnv1a}
use trctl.Fs.Disk.{Disk, Outcome, value, failure, fs_open, fs_close, fs_write, fs_read, fs_unlink}
use trctl.Async.Storage.{AsyncMap, emplace_at, erase, release, acquire, clear}
use trctl.Async.Storage.Map.{nat_key, find}

-- `file_transfer_slot`; a handle of 0 is no open file.
pub record Slot : Type 0 where
  pub fh : ℕ
  pub filesize : ℕ
  pub written_bytes : ℕ
  pub path : List ℕ

-- The constructor.
pub slot : ℕ → List ℕ → Slot
slot filesize path = record { fh = 0; filesize = filesize; written_bytes = 0; path = path }

-- `std::size( buffer )`
abbrev pub chunk : ℕ
chunk = 4096

-- The slot of a core is stored back.
pub stored : AsyncMap ℕ Slot → ℕ → Slot → AsyncMap ℕ Slot
stored m c s = record m { item = λ j. if c == j then s else m.item j }

module _ {W : Type 0} (disk : Disk W) where
  -- `start`
  pub start : W → Slot → W × Slot × Outcome (Unit {0})
  start w s =
      let (w', opened) = fs_open disk w s.path in
      elim opened [
        | failure e ↦ (w', s, failure e)
        | value fh ↦ (w', record s { fh = fh }, value tt)
      ]

  -- `write`; `written_bytes` is a `uint64_t`.
  pub write : W → Slot → ℕ → List ℕ → W × Slot × Outcome (Unit {0})
  write w s offset bytes =
      let (w', written) = fs_write disk w s.fh offset bytes in
      elim written [
        | failure e ↦ (w', s, failure e)
        | value u ↦
            (w', record s { written_bytes = (s.written_bytes + length bytes) % 2 ^ 64 }, value tt)
      ]

  -- The loop of `end` that hashes the file, with its `uint32_t offset`. `none`: it still runs when the
  -- rounds are used up.
  pub hash_from : ℕ → W → Slot → ℕ → ℕ → Option (W × Outcome ℕ)
  hash_from zero w s offset hash = none
  hash_from (suc rounds) w s offset hash = elim (ltb offset s.filesize) [
    | false ↦ some (w, value hash)
    | true ↦
        let (w', got) = fs_read disk w s.fh offset chunk in
        elim got [
          | failure e ↦ some (w', failure e)
          | value bytes ↦ hash_from rounds w' s ((offset + chunk) % 2 ^ 32) (fnv1a hash bytes)
        ]
  ]

  -- The rest of `end`: compare the hash, and close the file.
  finish : Slot → ℕ → W → Outcome ℕ → W × Slot × Outcome (Unit {0})
  finish s expected w (failure e) = (w, s, failure e)
  finish s expected w (value hash) =
      if not (hash == expected)
      then (w, s, failure input_error)
      else let (w', closed) = fs_close disk w s.fh in
        elim closed [
          | failure e ↦ (w', s, failure e)
          | value u ↦ (w', record s { fh = 0 }, value tt)
        ]

  -- `end`
  pub end_slot : ℕ → W → Slot → ℕ → Option (W × Slot × Outcome (Unit {0}))
  unfolding finish
  end_slot rounds w s expected =
      if not (s.written_bytes == s.filesize)
      then some (w, s, failure input_error)
      else elim (hash_from rounds w s 0 fnv_offset) [
        | none ↦ none
        | some (w', hashed) ↦ some (finish s expected w' hashed)
      ]

  -- `destroy`, and the last part of `shutdown`: an open file is closed and removed.
  pub destroy : W → Slot → W × Slot × Outcome (Unit {0})
  destroy w s =
      if s.fh == 0
      then (w, s, value tt)
      else let (w', closed) = fs_close disk w s.fh in
        elim closed [
          | failure e ↦ (w', s, failure e)
          | value u ↦
              let (w'', removed) = fs_unlink disk w' s.path in
              elim removed [
                | failure e ↦ (w'', s, failure e)
                | value u ↦ (w'', record s { fh = 0 }, value tt)
              ]
        ]

  -- `shutdown` of the slot of the core `c`: its entry in the map is cleared, while a pointer keeps it.
  -- `none`: the search of `clear` still runs when the rounds are used up.
  pub shutdown : ℕ → W → AsyncMap ℕ Slot → ℕ → Option (W × AsyncMap ℕ Slot × Outcome (Unit {0}))
  unfolding stored
  shutdown rounds w m c = elim (clear rounds (acquire m c) c) [
    | none ↦ none
    | some m' ↦
        let (w', s', destroyed) = destroy w (m'.item c) in
        some (w', release (stored m' c s') c, destroyed)
  ]

  -- `start_transfer`: a core for the transfer, held by the map and by the task while it opens the file. The
  -- constructor of the slot links it to `deps`, the dependencies of the folder.
  pub start_transfer :
      W
      → AsyncMap ℕ Slot
      → List ℕ
      → ℕ
      → List ℕ
      → ℕ
      → W × AsyncMap ℕ Slot × List ℕ × Outcome (Unit {0})
  unfolding stored
  start_transfer w m deps id filename filesize = elim (find id m.m) [
    | some c ↦ (w, m, deps, failure input_error)
    | none ↦
        let (m', c) = emplace_at m id (slot filesize filename) in
        let (w', s', started) = start w (slot filesize filename) in
        (w', release (stored m' c s') c, deps ++ (c ∷ []), started)
  ]

  -- `transfer_data`; the sum is one of `uint64_t`.
  pub transfer_data :
      W → AsyncMap ℕ Slot → ℕ → ℕ → List ℕ → W × AsyncMap ℕ Slot × Outcome (Unit {0})
  unfolding stored
  transfer_data w m id offset bytes = elim (find id m.m) [
    | none ↦ (w, m, failure input_error)
    | some c ↦
        if ltb (m.item c).filesize ((offset + length bytes) % 2 ^ 64)
        then (w, m, failure input_error)
        else let (w', s', written) = write w (m.item c) offset bytes in (w', stored m c s', written)
  ]

  -- `end_transfer`: the entry is erased in any case, and an error is the answer.
  pub end_transfer : ℕ → W → AsyncMap ℕ Slot → ℕ → ℕ → Option (W × AsyncMap ℕ Slot × Outcome Error)
  unfolding stored
  end_transfer rounds w m id expected = elim (find id m.m) [
    | none ↦ some (w, m, failure input_error)
    | some c ↦ elim (end_slot rounds w (m.item c) expected) [
      | none ↦ none
      | some (w', s', failure e) ↦ some (w', erase (stored m c s') id, value (unify (of_error e)))
      | some (w', s', value u) ↦ some (w', erase (stored m c s') id, value none_error)
    ]
  ]
