-- ===== src/Fs/Disk.antt =====
-- The operations of src/fs.hpp as the tasks await them: a request to libuv, and its callback.
use trctl.Base.{ℕ, List, [], ◌∷◌}
use trctl.Util.{Error, internal_error}
use trctl.Fs.Ops.{
  Result, Request, Signal, set_value, set_error, cleanup, on_open, on_access, on_close, on_write,
  on_read, on_mkdir, on_unlink, on_opendir, on_readdir, on_closedir,
}

-- `uv_dirent_type_t`, as far as the code tells the types apart.
pub data DirentType : Type 0 where
  dirent_dir dirent_file dirent_other : DirentType

pub record Dirent : Type 0 where
  pub name : List ℕ
  pub dirent_type : DirentType

-- How a task or an operation ends.
pub data Outcome {ℓ} (A : Type ℓ) : Type ℓ where
  value : A → Outcome A
  failure : Error → Outcome A

-- libuv and the file system, whose state is a `W`. `read` and `readdir` also give
-- the buffer that they filled.
pub record Disk (W : Type 0) : Type 0 where
  pub open_file : W → List ℕ → W × Request
  pub access : W → List ℕ → W × Request
  pub close : W → ℕ → W × Request
  pub write : W → ℕ → ℕ → List ℕ → W × Request
  pub read : W → ℕ → ℕ → ℕ → W × (Request × List ℕ)
  pub mkdir : W → List ℕ → W × Request
  pub unlink : W → List ℕ → W × Request
  pub opendir : W → List ℕ → W × Request
  pub readdir : W → ℕ → ℕ → W × (Request × List Dirent)
  pub closedir : W → ℕ → W × Request

-- The first call on the receiver is what the task resumes with; a callback makes one.
unfoldable pub resumed {ℓ} : {A : Type ℓ} → List (Signal A) → Outcome A
resumed [] = failure internal_error
resumed (set_value a ∷ more) = value a
resumed (set_error e ∷ more) = failure e
resumed (cleanup ∷ more) = resumed more

module _ {W : Type 0} (disk : Disk W) where
  unfoldable pub fs_open : W → List ℕ → W × Outcome ℕ
  unfolding resumed on_open
  fs_open w path = let (w', fs) = disk.open_file w path in (w', resumed (on_open fs))

  unfoldable pub fs_access : W → List ℕ → W × Outcome Result
  unfolding resumed on_access
  fs_access w path = let (w', fs) = disk.access w path in (w', resumed (on_access fs))

  unfoldable pub fs_close : W → ℕ → W × Outcome (Unit {0})
  unfolding resumed on_close
  fs_close w fh = let (w', fs) = disk.close w fh in (w', resumed (on_close fs))

  -- `uv_fs_write` takes the offset as an `int64_t`; the number here is that of its 64 bits, so an offset from 2^63
  -- on is a negative one, which libuv takes as the current position of the file. What `write` does with such an
  -- offset is left to it.
  unfoldable pub fs_write : W → ℕ → ℕ → List ℕ → W × Outcome (Unit {0})
  unfolding resumed on_write
  fs_write w fh offset bytes =
      let (w', fs) = disk.write w fh offset bytes in (w', resumed (on_write fs))

  -- `size` is the size of the buffer.
  unfoldable pub fs_read : W → ℕ → ℕ → ℕ → W × Outcome (List ℕ)
  unfolding resumed on_read
  fs_read w fh offset size =
      let (w', (fs, buffer)) = disk.read w fh offset size in (w', resumed (on_read buffer fs))

  unfoldable pub fs_mkdir : W → List ℕ → W × Outcome (Unit {0})
  unfolding resumed on_mkdir
  fs_mkdir w path = let (w', fs) = disk.mkdir w path in (w', resumed (on_mkdir fs))

  unfoldable pub fs_unlink : W → List ℕ → W × Outcome (Unit {0})
  unfolding resumed on_unlink
  fs_unlink w path = let (w', fs) = disk.unlink w path in (w', resumed (on_unlink fs))

  unfoldable pub fs_opendir : W → List ℕ → W × Outcome ℕ
  unfolding resumed on_opendir
  fs_opendir w path = let (w', fs) = disk.opendir w path in (w', resumed (on_opendir fs))

  -- `size` entries at most.
  unfoldable pub fs_readdir : W → ℕ → ℕ → W × Outcome (List Dirent)
  unfolding resumed on_readdir
  fs_readdir w dir size =
      let (w', (fs, dirs)) = disk.readdir w dir size in (w', resumed (on_readdir dirs fs))

  unfoldable pub fs_closedir : W → ℕ → W × Outcome (Unit {0})
  unfolding resumed on_closedir
  fs_closedir w dir = let (w', fs) = disk.closedir w dir in (w', resumed (on_closedir fs))
