-- ===== src/Transfer/Upload.antt =====
-- A whole transfer of src/unit/fs_transfer.hpp: its start, its pieces one after the other, and its end.
pub mod Steps
pub mod Whole
mod Examples
use trctl.Base.{
  ℕ, zero, ◌+◌, ◌*◌, ◌%◌, ◌^◌, ◌≤◌, ◌<◌, ◌≡◌, refl, subst, sym, ap, ◌∙◌, inl, inr, true, Option,
  none, some, List, [], ◌∷◌, ◌++◌, ◌==◌, eq→==, if◌then◌else◌, length, arith, append-nil,
  append_assoc, length-append, Bool-cases,
}
use trctl.Util.{Error, none_error, input_error, of_error, unify, fnv_offset, fnv1a}
use trctl.Fs.Ops.{Request, done, on_open}
use trctl.Fs.Disk.{Disk, Outcome, value, failure, fs_open, resumed}
use trctl.Async.Storage.{AsyncMap, emplace_at, erase, release}
use trctl.Async.Storage.Map.{nat_key, find, insert, remove, find-insert, remove-insert}
use trctl.Async.Storage.Entries.{release-entries, emplace_at-entries, erase-entries}
use trctl.Transfer.{
  Slot, slot, chunk, stored, start, end_slot, start_transfer, transfer_data, end_transfer,
}
use trctl.Transfer.Hash.{Reads, end_slot-hash}
use trctl.Transfer.Bounds.{counted, write-done, transfer_data-passes}

-- The bytes of the pieces, in order.
abbrev pub joined : List (List ℕ) → List ℕ
joined [] = []
joined (p ∷ ps) = p ++ joined ps

-- An open file `h` holds the bytes `file w h`: a write at its end appends, reads give what it holds, and it can
-- be closed.
pub record FileStore {W : Type 0} (disk : Disk W) (file : W → ℕ → List ℕ) : Type 0 where
  pub appends :
      (w : W) (h : ℕ) (bytes : List ℕ)
      → (w' : W) × (fs : Request) × (n : ℕ) × (disk.write w h (length (file w h)) bytes ≡ (w', fs))
        × (fs.result ≡ done n)
        × (file w' h ≡ file w h ++ bytes)
  pub reads : (w : W) (h o : ℕ) → Reads disk w h (file w h) o
  pub closes :
      (w : W) (h : ℕ)
      → (w' : W) × (fs : Request) × (n : ℕ) × (disk.close w h ≡ (w', fs)) × (fs.result ≡ done n)

module _ {W : Type 0} (disk : Disk W) where
  -- The requests with the pieces, the first at `offset`. `none`: one of them failed.
  unfoldable pub send : W → AsyncMap ℕ Slot → ℕ → ℕ → List (List ℕ) → Option (W × AsyncMap ℕ Slot)
  send w m id offset [] = some (w, m)
  send w m id offset (p ∷ ps) =
      let (w', m', answer) = transfer_data disk w m id offset p in
      elim answer [ failure e ↦ none | value u ↦ send w' m' id (offset + length p) ps ]
