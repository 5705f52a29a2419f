-- ===== src/Fs/Iter/Examples.antt =====
-- A directory with three entries, in two batches.
use trctl.Base.{ℕ, ◌+◌, ◌==◌, refl, List, [], ◌∷◌, arith, if◌then◌else◌}
use trctl.Fs.Ops.{Request, done}
use trctl.Fs.Disk.{Disk, Dirent, dirent_file, dirent_dir, Outcome, value}
use trctl.Fs.Iter.{each, dir_iter}
use trctl.Fs.Iter.Order.{entries, Lists, at_end, batch, Iterated, dir_iter-Iterated}

abbrev request : ℕ → Request
request n = record { result = done n; path = []; ptr = 5 }

abbrev file_a : Dirent
file_a = record { name = 97 ∷ []; dirent_type = dirent_file }

abbrev dir_b : Dirent
dir_b = record { name = 98 ∷ []; dirent_type = dirent_dir }

-- The state is how many requests were made.
abbrev disk : Disk ℕ
disk = record {
  open_file = λ w path. (w + 1, request 3);
  access = λ w path. (w + 1, request 0);
  close = λ w fh. (w + 1, request 0);
  write = λ w fh offset bytes. (w + 1, request 0);
  read = λ w fh offset size. (w + 1, (request 0, []));
  mkdir = λ w path. (w + 1, request 0);
  unlink = λ w path. (w + 1, request 0);
  opendir = λ w path. (w + 1, request 0);
  readdir = λ w dir size.
      if w == 1
      then (w + 1, (request 2, file_a ∷ dir_b ∷ []))
      else if w == 2
      then (w + 1, (request 1, file_a ∷ []))
      else (w + 1, (request 0, []));
  closedir = λ w dir. (w + 1, request 0);
}

abbrev found : List (List Dirent)
found = (file_a ∷ dir_b ∷ []) ∷ (file_a ∷ []) ∷ []

found-Lists : Lists disk 5 1 found 4
found-Lists =
    batch 1 2 4 (request 2) (file_a ∷ dir_b ∷ []) 2 file_a (dir_b ∷ []) ((file_a ∷ []) ∷ []) refl
      refl refl
      (batch 2 3 4 (request 1) (file_a ∷ []) 1 file_a [] [] refl refl refl
        (at_end 3 4 (request 0) [] refl refl))

-- The task notes the names.
abbrev note : List (List ℕ) → Dirent → List (List ℕ) × Outcome (Unit {0})
note names ent = (ent.name ∷ names, value tt)

dir_iter-Iterated_example :
    Iterated disk 4 5 (each note [] (entries found)) (dir_iter disk note 3 0 (119 ∷ []) [])
dir_iter-Iterated_example =
    dir_iter-Iterated disk note 0 1 4 (119 ∷ []) (request 0) 0 3 found [] refl refl found-Lists
      (omega arith)
