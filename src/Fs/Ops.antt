-- ===== src/Fs/Ops.antt =====
-- The callbacks of the operations of src/fs.hpp: what each does with the request that libuv has
-- finished. The effect of a callback is the list of its calls, in order.
pub mod Completion
use trctl.Base.{ℕ, suc, ◌+◌, ◌-◌, min, List, [], ◌∷◌, ◌++◌, length, take, drop}
use trctl.Util.{Error, libuv_error}

-- `fs->result`, a number, or below 0 the code of an error.
pub data Result : Type 0 where
  negative : ℕ → Result
  done : ℕ → Result

-- What libuv leaves in a `uv_fs_t`; `ptr` is an address.
pub record Request : Type 0 where
  pub result : Result
  pub path : List ℕ
  pub ptr : ℕ

-- The calls of a callback: on the receiver, and `uv_fs_req_cleanup`, which frees what the request holds.
pub data Signal {ℓ} (A : Type ℓ) : Type ℓ where
  set_value : A → Signal A
  set_error : Error → Signal A
  cleanup : Signal A

unfoldable pub on_open : Request → List (Signal ℕ)
on_open fs = elim fs.result [
  | negative e ↦ set_error libuv_error ∷ []
  | done fh ↦ set_value fh ∷ cleanup ∷ []
]

unfoldable pub on_access : Request → List (Signal Result)
on_access fs = set_value fs.result ∷ cleanup ∷ []

unfoldable pub on_close : Request → List (Signal (Unit {0}))
on_close fs = elim fs.result [
  | negative e ↦ set_error libuv_error ∷ []
  | done n ↦ set_value tt ∷ cleanup ∷ []
]

unfoldable pub on_write : Request → List (Signal (Unit {0}))
on_write fs = elim fs.result [
  | negative e ↦ set_error libuv_error ∷ []
  | done n ↦ set_value tt ∷ cleanup ∷ []
]

-- `buffer` holds what libuv has read into it.
unfoldable pub on_read : List ℕ → Request → List (Signal (List ℕ))
on_read buffer fs = elim fs.result [
  | negative e ↦ set_error libuv_error ∷ []
  | done n ↦ set_value (take n buffer) ∷ cleanup ∷ []
]

-- `std::memcpy` of `n` bytes of the path and its final 0.
copied_path : List ℕ → List ℕ → ℕ → List ℕ
copied_path buffer path n = take n (path ++ (0 ∷ [])) ++ drop n buffer

-- The buffer, and the calls.
pub on_mkdtemp : List ℕ → Request → List ℕ × List (Signal (List ℕ))
unfolding copied_path
on_mkdtemp buffer fs = elim fs.result [
  | negative e ↦ (buffer, set_error libuv_error ∷ [])
  | done r ↦
      let n = min (length buffer) (length fs.path + 1) in
      let buffer' = copied_path buffer fs.path n in
      (buffer', set_value (take (n - 1) buffer') ∷ cleanup ∷ [])
]

unfoldable pub on_opendir : Request → List (Signal ℕ)
on_opendir fs = elim fs.result [
  | negative e ↦ set_error libuv_error ∷ []
  | done n ↦ set_value fs.ptr ∷ cleanup ∷ []
]

-- The entries that were read; a guard that goes with them cleans the request up when it ends.
unfoldable pub on_readdir {ℓ} : {A : Type ℓ} → List A → Request → List (Signal (List A))
on_readdir dirs fs = elim fs.result [
  | negative e ↦ set_error libuv_error ∷ []
  | done n ↦ set_value (take n dirs) ∷ []
]

unfoldable pub on_closedir : Request → List (Signal (Unit {0}))
on_closedir fs = elim fs.result [
  | negative e ↦ set_error libuv_error ∷ []
  | done n ↦ set_value tt ∷ cleanup ∷ []
]

unfoldable pub on_mkdir : Request → List (Signal (Unit {0}))
on_mkdir fs = elim fs.result [
  | negative e ↦ set_error libuv_error ∷ []
  | done n ↦ set_value tt ∷ cleanup ∷ []
]

unfoldable pub on_unlink : Request → List (Signal (Unit {0}))
on_unlink fs = elim fs.result [
  | negative e ↦ set_error libuv_error ∷ []
  | done n ↦ set_value tt ∷ cleanup ∷ []
]

pub on_rmdir : Request → List (Signal (Unit {0}))
on_rmdir fs = elim fs.result [
  | negative e ↦ set_error libuv_error ∷ []
  | done n ↦ set_value tt ∷ cleanup ∷ []
]
