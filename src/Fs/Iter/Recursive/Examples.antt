-- ===== src/Fs/Iter/Recursive/Examples.antt =====
-- A directory "w" with an empty directory "b" and a file "a": what a task is told of the path.
use trctl.Base.{ℕ, ◌+◌, ◌==◌, ◌≡◌, refl, some, List, [], ◌∷◌, if◌then◌else◌}
use trctl.Str.{Buffer, append, str}
use trctl.Fs.Ops.{Request, done}
use trctl.Fs.Disk.{
  Disk, Dirent, dirent_file, dirent_dir, Outcome, value, fs_opendir, fs_readdir, fs_closedir,
}
use trctl.Fs.Iter.Recursive.{recursive_dir_iter, batches, each}

abbrev request : ℕ → Request
request n = record { result = done n; path = []; ptr = 5 }

abbrev file_a : Dirent
file_a = record { name = 97 ∷ []; dirent_type = dirent_file }

abbrev dir_b : Dirent
dir_b = record { name = 98 ∷ []; dirent_type = dirent_dir }

-- The state is how many requests were made.
abbrev disk : Disk ℕ
disk = record {
  open_file = λ w path. (w + 1, request 3);
  access = λ w path. (w + 1, request 0);
  close = λ w fh. (w + 1, request 0);
  write = λ w fh offset bytes. (w + 1, request 0);
  read = λ w fh offset size. (w + 1, (request 0, []));
  mkdir = λ w path. (w + 1, request 0);
  unlink = λ w path. (w + 1, request 0);
  opendir = λ w path. (w + 1, request 0);
  readdir = λ w dir size.
      if w == 1 then (w + 1, (request 2, dir_b ∷ file_a ∷ [])) else (w + 1, (request 0, []));
  closedir = λ w dir. (w + 1, request 0);
}

-- The task notes the name of the entry, and the text of the path.
abbrev note :
    List (List ℕ × List ℕ)
    → Buffer
    → ℕ
    → Dirent
    → List (List ℕ × List ℕ) × Buffer × Outcome (Unit {0})
note seen buf e ent = ((ent.name, str buf) ∷ seen, buf, value tt)

-- The path of the file "a" is said to be "w/b", and not "w", since the buffer still holds the path of the directory
-- that was read before it.
path_after :
    recursive_dir_iter disk note 2 3 0 (119 ∷ 0 ∷ 0 ∷ 0 ∷ 0 ∷ 0 ∷ []) 1 []
    ≡ some (
      7,
      119 ∷ 47 ∷ 98 ∷ 0 ∷ 0 ∷ 0 ∷ [],
      (97 ∷ [], 119 ∷ 47 ∷ 98 ∷ []) ∷ (98 ∷ [], 119 ∷ []) ∷ [],
      value tt,
    )
unfolding recursive_dir_iter batches each fs_opendir fs_readdir fs_closedir append str
path_after = refl
