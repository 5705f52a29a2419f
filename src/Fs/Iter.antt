-- ===== src/Fs/Iter.antt =====
-- `dir_iter` of src/fs.hpp: a task for each entry of a directory. The entries are read in batches of 16.
pub mod Order
pub mod Recursive
mod Examples
use trctl.Base.{ℕ, zero, suc, Option, none, some, List, [], ◌∷◌}
use trctl.Fs.Disk.{Disk, Dirent, Outcome, value, failure, fs_opendir, fs_readdir, fs_closedir}

-- The loop over a batch; `f` is the task, on a state of its own.
unfoldable pub each :
    {X : Type 0} → (X → Dirent → X × Outcome (Unit {0})) → X → List Dirent → X × Outcome (Unit {0})
each f x [] = (x, value tt)
each f x (ent ∷ more) =
    let (x', ended) = f x ent in
    elim ended [ failure e ↦ (x', failure e) | value u ↦ each f x' more ]

module _ {W X : Type 0} (disk : Disk W) (f : X → Dirent → X × Outcome (Unit {0})) where
  -- The loop over the batches. `none`: it still runs when the rounds are used up.
  unfoldable pub batches : ℕ → W → ℕ → X → Option (W × X × Outcome (Unit {0}))
  batches zero w dir x = none
  batches (suc rounds) w dir x =
      let (w', got) = fs_readdir disk w dir 16 in
      elim got [
        | failure e ↦ some (w', x, failure e)
        | value [] ↦ let (w'', closed) = fs_closedir disk w' dir in some (w'', x, closed)
        | value (ent ∷ more) ↦
            let (x', ended) = each f x (ent ∷ more) in
            elim ended [ failure e ↦ some (w', x', failure e) | value u ↦ batches rounds w' dir x' ]
      ]

  unfoldable pub dir_iter : ℕ → W → List ℕ → X → Option (W × X × Outcome (Unit {0}))
  unfolding batches
  dir_iter rounds w path x =
      let (w', opened) = fs_opendir disk w path in
      elim opened [ failure e ↦ some (w', x, failure e) | value dir ↦ batches rounds w' dir x ]
