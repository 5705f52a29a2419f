-- ===== src/Fs/RmRf/Tree.antt =====
-- What `_fs_rm_rf` of src/fs.hpp asks of libuv when it removes a tree of files.
pub mod Walk
pub mod Descent
pub mod Order
use trctl.Base.{ℕ, suc, ◌+◌, ◌<◌, ◌≡◌, ◌∙◌, refl, ap, List, [], ◌∷◌, ◌++◌, length}
use trctl.Fs.Disk.{Dirent, dirent_dir, dirent_file}
use trctl.Fs.Ops.{done}
use trctl.Str.Path.{Text}
use trctl.Fs.RmRf.{Call, opendir, readdir, unlink, closedir, rmdir, Reply}

-- What is in a directory, in the order in which libuv lists it: files, and directories with the address that
-- libuv gives them when they are opened.
pub data Items : Type 0 where
  nothing : Items
  file : List ℕ → Items → Items
  dir : ℕ → List ℕ → Items → Items → Items

-- The answers when all goes well.
abbrev pub no_entry : Dirent
no_entry = record { name = []; dirent_type = dirent_file }

abbrev pub ok : ℕ → Reply
ok handle = record { result = done 0; ptr = handle; entry = no_entry }

abbrev pub found : Dirent → Reply
found ent = record { result = done 1; ptr = 0; entry = ent }

-- The answers from the first `readdir` of a directory to its `rmdir`.
abbrev pub replies : Items → List Reply
replies nothing = ok 0 ∷ ok 0 ∷ ok 0 ∷ []
replies (file n more) = found (record { name = n; dirent_type = dirent_file }) ∷ ok 0 ∷ replies more
replies (dir h n sub more) =
    found (record { name = n; dirent_type = dirent_dir }) ∷ ok h ∷ (replies sub ++ replies more)

-- The path of a directory in the directory `t`; both end with a slash.
abbrev pub below : List ℕ → List ℕ → List ℕ
below t n = (t ++ n) ++ (47 ∷ [])

-- The requests that these answer, for the directory `t` with the address `h`.
abbrev pub requests : ℕ → List ℕ → Items → List Call
requests h t nothing = readdir h ∷ closedir h ∷ rmdir t ∷ []
requests h t (file n more) = readdir h ∷ unlink (t ++ n) ∷ requests h t more
requests h t (dir k n sub more) =
    readdir h ∷ opendir (below t n) ∷ (requests k (below t n) sub ++ requests h t more)

-- The stack has an entry for each directory, and the buffer room for each path, where the entry `p` is that of
-- the directory `t`. Names have no 0.
abbrev pub Fits : ℕ → ℕ → ℕ → List ℕ → Items → Type 0
Fits entries size p t nothing = Unit {0}
Fits entries size p t (file n more) =
    Text n × (length t + length n < size) × Fits entries size p t more
Fits entries size p t (dir k n sub more) =
    Text n
    × (length t + length n + 1 < size)
    × (p + 1 < entries)
    × Fits entries size (p + 1) (below t n) sub
    × Fits entries size p t more
