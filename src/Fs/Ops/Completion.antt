-- ===== src/Fs/Ops/Completion.antt =====
-- How the operations of src/fs.hpp end.
use trctl.Base.{ℕ, suc, ◌≡◌, refl, List, [], arith, ◌∷◌}
use trctl.Fs.Ops.{
  negative, Request, Signal, set_value, set_error, cleanup, on_open, on_access, on_close, on_write,
  on_read, on_mkdtemp, on_opendir, on_readdir, on_closedir, on_mkdir, on_unlink, on_rmdir,
}

module _ {ℓ} {A : Type ℓ} where
  -- How often the receiver is told of the end.
  abbrev pub completions : List (Signal A) → ℕ
  completions [] = 0
  completions (set_value a ∷ ss) = suc (completions ss)
  completions (set_error e ∷ ss) = suc (completions ss)
  completions (cleanup ∷ ss) = completions ss

  -- How often the request is cleaned up.
  abbrev pub cleanups : List (Signal A) → ℕ
  cleanups [] = 0
  cleanups (set_value a ∷ ss) = cleanups ss
  cleanups (set_error e ∷ ss) = cleanups ss
  cleanups (cleanup ∷ ss) = suc (cleanups ss)

-- Whatever libuv reports, each operation tells its receiver of the end exactly once.
callbacks_complete :
    (fs : Request) (buffer : List ℕ)
    → (completions (on_open fs) ≡ 1)
      × (completions (on_access fs) ≡ 1)
      × (completions (on_close fs) ≡ 1)
      × (completions (on_write fs) ≡ 1)
      × (completions (on_read buffer fs) ≡ 1)
      × (completions (on_mkdtemp buffer fs).1 ≡ 1)
      × (completions (on_opendir fs) ≡ 1)
      × (completions (on_readdir buffer fs) ≡ 1)
      × (completions (on_closedir fs) ≡ 1)
      × (completions (on_mkdir fs) ≡ 1)
      × (completions (on_unlink fs) ≡ 1)
      × (completions (on_rmdir fs) ≡ 1)
unfolding on_open on_access on_close on_write on_read on_mkdtemp on_opendir on_readdir on_closedir
    on_mkdir on_unlink on_rmdir
callbacks_complete fs buffer = (
  ground arith,
  refl,
  ground arith,
  ground arith,
  ground arith,
  ground arith,
  ground arith,
  ground arith,
  ground arith,
  ground arith,
  ground arith,
  ground arith,
)

-- A request that failed is never cleaned up by the operation, unless it was an access check; the path that
-- libuv copied for it is lost.
failures-leak :
    (fs : Request) (buffer : List ℕ) (e : ℕ)
    → fs.result ≡ negative e
    → (cleanups (on_open fs) ≡ 0)
      × (cleanups (on_access fs) ≡ 1)
      × (cleanups (on_close fs) ≡ 0)
      × (cleanups (on_write fs) ≡ 0)
      × (cleanups (on_read buffer fs) ≡ 0)
      × (cleanups (on_mkdtemp buffer fs).1 ≡ 0)
      × (cleanups (on_opendir fs) ≡ 0)
      × (cleanups (on_readdir buffer fs) ≡ 0)
      × (cleanups (on_closedir fs) ≡ 0)
      × (cleanups (on_mkdir fs) ≡ 0)
      × (cleanups (on_unlink fs) ≡ 0)
      × (cleanups (on_rmdir fs) ≡ 0)
unfolding on_open on_access on_close on_write on_read on_mkdtemp on_opendir on_readdir on_closedir
    on_mkdir on_unlink on_rmdir
failures-leak fs buffer e h = (
  ground arith,
  refl,
  ground arith,
  ground arith,
  ground arith,
  ground arith,
  ground arith,
  ground arith,
  ground arith,
  ground arith,
  ground arith,
  ground arith,
)
