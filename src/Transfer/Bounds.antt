-- ===== src/Transfer/Bounds.antt =====
-- `transfer_data` of src/unit/fs_transfer.hpp: which pieces of a file are written.
use trctl.Base.{
  ℕ, ◌+◌, ◌%◌, ◌^◌, ◌≤◌, ◌<◌, ◌≡◌, refl, ap, ◌∙◌, some, List, eq→==, le→ltb, if◌then◌else◌, length,
  arith,
}
use trctl.Fs.Ops.{Request, on_write, done}
use trctl.Fs.Disk.{Disk, value, fs_write, resumed}
use trctl.Async.Storage.{AsyncMap}
use trctl.Async.Storage.Map.{nat_key, find}
use trctl.Transfer.{Slot, write, transfer_data, stored}

module _ {W : Type 0} (disk : Disk W) where
  abbrev pub counted : Slot → List ℕ → Slot
  counted s bytes = record s { written_bytes = (s.written_bytes + length bytes) % 2 ^ 64 }

  fs_write-done :
      (w w' : W) (fh offset n : ℕ) (bytes : List ℕ) (fs : Request)
      → disk.write w fh offset bytes ≡ (w', fs)
      → fs.result ≡ done n
      → fs_write disk w fh offset bytes ≡ (w', value tt)
  unfolding fs_write resumed on_write
  fs_write-done w w' fh offset n bytes fs e ok =
      let after : (disk.write w fh offset bytes).0 ≡ w' = ap (λ t. t.0) e in
      let wrote : (disk.write w fh offset bytes).1 ≡ fs = ap (λ t. t.1) e in
      rw (wrote, ok, on_write, after) refl

  pub write-done :
      (w w' : W) (s : Slot) (offset n : ℕ) (bytes : List ℕ) (fs : Request)
      → disk.write w s.fh offset bytes ≡ (w', fs)
      → fs.result ≡ done n
      → write disk w s offset bytes ≡ (w', counted s bytes, value tt)
  unfolding write
  write-done w w' s offset n bytes fs e ok =
      let wrote = fs_write-done w w' s.fh offset n bytes fs e ok in
      let after : (fs_write disk w s.fh offset bytes).0 ≡ w' = ap (λ t. t.0) wrote in
      let answer : (fs_write disk w s.fh offset bytes).1 ≡ value tt = ap (λ t. t.1) wrote in
      rw (answer, write, after) refl

  pub transfer_data-passes :
      (w w' : W) (m : AsyncMap ℕ Slot) (id offset c : ℕ) (bytes : List ℕ) (s : Slot)
      → find id m.m ≡ some c
      → (offset + length bytes) % 2 ^ 64 ≤ (m.item c).filesize
      → write disk w (m.item c) offset bytes ≡ (w', s, value tt)
      → transfer_data disk w m id offset bytes ≡ (w', stored m c s, value tt)
  unfolding transfer_data
  transfer_data-passes w w' m id offset c bytes s e fits wrote =
      let test = le→ltb (m.item c).filesize ((offset + length bytes) % 2 ^ 64) fits in
      rw (e, transfer_data, test) (ap (λ t. (t.0, stored m c t.1, t.2)) wrote)

  -- The test wraps: a piece whose end is 2^64 or more, but at most 2^64 and the declared size of the file, is not
  -- refused. It is handed to libuv with its offset, and if libuv reports success it is counted as written.
  pub transfer_data-wraps :
      (w w' : W) (m : AsyncMap ℕ Slot) (id offset c n : ℕ) (bytes : List ℕ) (fs : Request)
      → find id m.m ≡ some c
      → 2 ^ 64 ≤ offset + length bytes
      → offset + length bytes < 2 ^ 65
      → offset + length bytes ≤ 2 ^ 64 + (m.item c).filesize
      → disk.write w (m.item c).fh offset bytes ≡ (w', fs)
      → fs.result ≡ done n
      → let (w'', m', answer) = transfer_data disk w m id offset bytes in
        (w'' ≡ w')
        × (answer ≡ value tt)
        × ((m'.item c).written_bytes ≡ ((m.item c).written_bytes + length bytes) % 2 ^ 64)
  unfolding stored
  transfer_data-wraps w w' m id offset c n bytes fs e long few small wrote ok =
      let passed =
        transfer_data-passes w w' m id offset c bytes (counted (m.item c) bytes) e (omega arith)
          (write-done w w' (m.item c) offset n bytes fs wrote ok) in
      (
        ap (λ t. t.0) passed,
        ap (λ t. t.2) passed,
        ap (λ t. (t.1.item c).written_bytes) passed
            ∙ ap (λ b. (if b then counted (m.item c) bytes else m.item c).written_bytes)
                (eq→== c c refl),
      )
