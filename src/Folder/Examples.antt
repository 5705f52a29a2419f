-- ===== src/Folder/Examples.antt =====
-- Folders of a unit with one folder "a" in the work directory "w".
use trctl.Base.{
  ◌==◌, ◌||◌, ℕ, zero, suc, ◌+◌, ◌≡◌, refl, false, none, some, List, [], ◌∷◌, if◌then◌else◌, arith,
}
use trctl.Str.{str, Buffer}
use trctl.Fs.Ops.{Request, done}
use trctl.Fs.Disk.{Disk, Dirent, dirent_dir, dirent_file, value, fs_closedir}
use trctl.Fs.Iter.Order.{entries, Lists, at_end, batch}
use trctl.Folder.Entries.{named, Loadable}
use trctl.Folder.Load.{is_there, folder_init-find}
use trctl.Async.Storage.{AsyncMap}
use trctl.Folder.{Folder, folder_init, folder_create, joined, has_slash}
use trctl.Folder.Names.{same_text, strcmp, is_ended, found, missing, all_after, find_name}
use trctl.Folder.Names.Search.{lookup, Plain}
use trctl.Folder.{folder_name, returns}
use trctl.Folder.Create.{folder_create-find}

abbrev request : Request
request = record { result = done 0; path = []; ptr = 0 }

-- Its state is how many requests changed it.
abbrev disk : Disk ℕ
disk = record {
  open_file = λ w path. (w + 1, request);
  access = λ w path. (w, request);
  close = λ w fh. (w + 1, request);
  write = λ w fh offset bytes. (w + 1, request);
  read = λ w fh offset size. (w, (request, []));
  mkdir = λ w path. (w + 1, request);
  unlink = λ w path. (w + 1, request);
  opendir = λ w path. (w, request);
  readdir = λ w dir size. (w, (request, []));
  closedir = λ w dir. (w, request);
}

abbrev nulls : ℕ → List ℕ
nulls zero = []
nulls (suc n) = 0 ∷ nulls n

abbrev letters : ℕ → List ℕ
letters zero = []
letters (suc n) = 98 ∷ letters n

abbrev folders : AsyncMap (List ℕ) Folder
folders = record {
  m = (97 ∷ nulls 31, 0) ∷ [];
  cnt = λ c. 1;
  item = λ c. record { path = 119 ∷ 47 ∷ 97 ∷ []; deps = [] };
  next = 1;
  to_del = [];
  to_erase = none;
  destroy_task = none;
  deleted = [];
  woken = 0;
}

abbrev workdir : List ℕ
workdir = 119 ∷ []

abbrev name_b : List ℕ
name_b = 98 ∷ []

b_free : find_name name_b folders.m ≡ missing
unfolding find_name all_after strcmp is_ended str
b_free = refl

b_plain : has_slash name_b ≡ false
unfolding has_slash
b_plain = refl

folders-Plain : Plain folders.m
unfolding folder_name str
folders-Plain = (
  record {
    text_of = 97 ∷ [];
    junk_of = 0;
    key_is = refl;
    ascii = ((omega arith, omega arith), tt);
    short = omega arith;
    str_is = refl;
  },
  tt,
  tt,
)

folder_create-find_example :
    (flds : AsyncMap (List ℕ) Folder) × (folder_create disk workdir 7 0 folders name_b
      ≡ returns (1, flds) (value tt))
    × ((j : List ℕ)
        → find_name j flds.m
          ≡ (if same_text name_b j then found folders.next else find_name j folders.m))
    × ((flds.item folders.next).path ≡ joined workdir name_b)
    × Plain flds.m
folder_create-find_example =
    folder_create-find disk workdir 7 0 0 1 folders name_b request folders-Plain b_free b_plain
      ((omega arith, omega arith), tt) (omega arith) refl refl

abbrev answer : ℕ → Request
answer n = record { result = done n; path = []; ptr = 5 }

-- The work directory holds the directory "b" and a file.
abbrev content : List Dirent
content =
    record { name = 98 ∷ []; dirent_type = dirent_dir }
    ∷ record { name = 99 ∷ []; dirent_type = dirent_file }
    ∷ []

abbrev listed : Disk ℕ
listed = record disk {
  access = λ w path. (w + 1, request);
  opendir = λ w path. (w + 1, answer 0);
  readdir = λ w dir size. if w == 2 then (w + 1, (answer 2, content)) else (w + 1, (answer 0, []));
  closedir = λ w dir. (w + 1, request);
}

abbrev batch_one : List (List Dirent)
batch_one = content ∷ []

batch_one-Lists : Lists listed 5 2 batch_one 4
batch_one-Lists =
    batch 2 3 4 (answer 2) content 2 _ _ [] refl refl refl (at_end 3 4 (answer 0) [] refl refl)

batch_one-Loadable : Loadable folders.m (entries batch_one)
unfolding lookup same_text str
batch_one-Loadable = ((refl, ((omega arith, omega arith), tt), omega arith, refl), (tt, tt))

abbrev buffer : Buffer
buffer = nulls 8

folder_init-find_example :
    (flds : AsyncMap (List ℕ) Folder) × (folder_init listed 2 buffer workdir 7 0 folders
      ≡ (let (w, closed) = fs_closedir listed 4 5 in some (w, flds, closed)))
    × ((j : List ℕ)
        → is_there (find_name j flds.m)
          ≡ (is_there (find_name j folders.m) || named j (entries batch_one)))
    × Plain flds.m
folder_init-find_example =
    folder_init-find listed 2 buffer workdir 7 0 0 0 1 2 4 folders request (answer 0) batch_one refl
      refl refl refl batch_one-Lists (omega arith) folders-Plain batch_one-Loadable
