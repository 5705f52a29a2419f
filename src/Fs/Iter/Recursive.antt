-- ===== src/Fs/Iter/Recursive.antt =====
-- `recursive_dir_iter` of src/fs.hpp: a task for each entry of a directory, and for each entry of the directories in
-- it. The paths are nodes of one `fixed_str`: the buffer and the end of a node.
mod Examples
use trctl.Base.{ℕ, zero, suc, Option, none, some, List, [], ◌∷◌}
use trctl.Str.{Buffer, append, str}
use trctl.Fs.Disk.{
  Disk, Dirent, dirent_dir, dirent_file, dirent_other, Outcome, value, failure, fs_opendir,
  fs_readdir, fs_closedir,
}

-- How an iteration ends: libuv, the buffer, the state of the tasks, and the result. `none`: it still runs
-- when the depth or the rounds are used up.
abbrev Iteration : Type 0 → Type 0 → Type 0
Iteration W X = Option (W × Buffer × X × Outcome (Unit {0}))

module _ {W X : Type 0} (disk : Disk W)
    (f : X → Buffer → ℕ → Dirent → X × Buffer × Outcome (Unit {0})) where
  -- The loop over a batch, in the directory whose path ends at `e`; `again` iterates over a directory in it.
  each : (W → Buffer → ℕ → X → Iteration W X) → W → Buffer → ℕ → X → List Dirent → Iteration W X
  each again w buf e x [] = some (w, buf, x, value tt)
  each again w buf e x (ent ∷ more) =
      let (x', buf', ended) = f x buf e ent in
      elim ended [
        | failure err ↦ some (w, buf', x', failure err)
        | value u ↦ elim ent.dirent_type [
          | dirent_file ↦ each again w buf' e x' more
          | dirent_other ↦ each again w buf' e x' more
          | dirent_dir ↦
              let (buf1, slash_end) = append buf' e (47 ∷ []) in
              let (buf2, name_end) = append buf1 slash_end ent.name in
              elim (again w buf2 name_end x') [
                | none ↦ none
                | some (w', buf3, x'', failure err) ↦ some (w', buf3, x'', failure err)
                | some (w', buf3, x'', value u') ↦ each again w' buf3 e x'' more
              ]
        ]
      ]

  -- The loop over the batches.
  batches : (W → Buffer → ℕ → X → Iteration W X) → ℕ → W → ℕ → Buffer → ℕ → X → Iteration W X
  unfolding each
  batches again zero w dir buf e x = none
  batches again (suc rounds) w dir buf e x =
      let (w', got) = fs_readdir disk w dir 16 in
      elim got [
        | failure err ↦ some (w', buf, x, failure err)
        | value [] ↦ let (w'', closed) = fs_closedir disk w' dir in some (w'', buf, x, closed)
        | value (ent ∷ more) ↦ elim (each again w' buf e x (ent ∷ more)) [
          | none ↦ none
          | some (w'', buf', x', failure err) ↦ some (w'', buf', x', failure err)
          | some (w'', buf', x', value u) ↦ batches again rounds w'' dir buf' e x'
        ]
      ]

  -- At most `depth` directories in one another, and `rounds` batches in each.
  pub recursive_dir_iter : ℕ → ℕ → W → Buffer → ℕ → X → Iteration W X
  unfolding batches
  recursive_dir_iter zero rounds w buf e x = none
  recursive_dir_iter (suc depth) rounds w buf e x =
      let (w', opened) = fs_opendir disk w (str buf) in
      elim opened [
        | failure err ↦ some (w', buf, x, failure err)
        | value dir ↦ batches (recursive_dir_iter depth rounds) rounds w' dir buf e x
      ]
