-- ===== src/Transfer/Handles.antt =====
-- The open files of the slots of src/unit/fs_transfer.hpp.
use trctl.Base.{ℕ, ◌≡◌, some, arith}
use trctl.Fs.Disk.{Disk, value}
use trctl.Transfer.{Slot, destroy, end_slot, finish}

module _ {W : Type 0} (disk : Disk W) where
  -- A slot that was destroyed without an error has no open file.
  destroy-Closed :
      (w : W) (s : Slot) → (destroy disk w s).2 ≡ value tt → (destroy disk w s).1.fh ≡ 0
  unfolding destroy
  destroy-Closed w s h = ground arith

  -- The same holds of a slot whose transfer ended without an error.
  pub end_slot-Closed :
      (rounds : ℕ) (w w' : W) (s s' : Slot) (expected : ℕ)
      → end_slot disk rounds w s expected ≡ some (w', s', value tt)
      → s'.fh ≡ 0
  unfolding end_slot finish
  end_slot-Closed rounds w w' s s' expected h = ground arith
