-- ===== src/Fs/RmRf.antt =====
-- `_fs_rm_rf` of src/fs.hpp: the removal of a directory and what is in it, one request at a time. The state
-- is a stack of open directories; the paths are pieces of one `fixed_str`.
pub mod Balance
pub mod Slash
pub mod Tree
mod Examples
use trctl.Base.{
  ℕ, zero, suc, ◌+◌, ◌-◌, Bool, true, false, Option, none, some, List, [], ◌∷◌, ◌==◌, if◌then◌else◌,
}
use trctl.Util.{Error, libuv_error}
use trctl.Str.{Buffer, append, end_char, set_end, str}
use trctl.Fs.Disk.{Dirent, dirent_dir, dirent_file, dirent_other}
use trctl.Fs.Ops.{Result, negative, done}

-- `fs_rm_rf_buff_entry`: the address of the open directory, and the end of its path.
pub record Entry : Type 0 where
  pub dir : ℕ
  pub path : ℕ

-- `_fs_rm_rf`; `dirs` is the memory of `size` entries, and `p` points to one of them. `buf` is the buffer of
-- the `fixed_str`, and `path` the end of the path to remove.
pub record RmRf : Type 0 where
  pub buf : Buffer
  pub path : ℕ
  pub dirs : ℕ → Entry
  pub size : ℕ
  pub p : ℕ

-- A request to libuv.
pub data Call : Type 0 where
  opendir : List ℕ → Call
  readdir : ℕ → Call
  unlink : List ℕ → Call
  closedir : ℕ → Call
  rmdir : List ℕ → Call

-- What libuv answers: the result, the directory that was opened, or the entry that was read.
pub record Reply : Type 0 where
  pub result : Result
  pub ptr : ℕ
  pub entry : Dirent

-- After a callback: a request is under way, or the receiver was told of success or of an error, or
-- the code followed a null pointer.
pub data Next : Type 0 where
  waits : RmRf → Call → Next
  succeeded : Next
  ended : Error → Next
  crashed : Next

abbrev slash : List ℕ
slash = 47 ∷ []

abbrev pub at : (ℕ → Entry) → ℕ → Entry → ℕ → Entry
at dirs i e j = if i == j then e else dirs j

-- The constructor appends a slash, unless the path ends with one.
pub construct : Buffer → ℕ → (ℕ → Entry) → ℕ → RmRf
construct buf e dirs size =
    if end_char buf e == 47
    then record { buf = buf; path = e; dirs = dirs; size = size; p = 0 }
    else let (buf', e') = append buf e slash in
      record { buf = buf'; path = e'; dirs = dirs; size = size; p = 0 }

-- `dirs.data()` is null for an empty span.
pub start : RmRf → Next
start s = elim s.size [
  | zero ↦ ended libuv_error
  | suc n ↦
      waits
        (record s { p = 0; dirs = at s.dirs 0 (record { dir = (s.dirs 0).dir; path = s.path }) })
        (opendir (str s.buf))
]

incr_entry : RmRf → Option ℕ
incr_entry s = if s.p + 1 == s.size then none else some (s.p + 1)

decr_entry : RmRf → Option ℕ
decr_entry s = if s.p == 0 then none else some (s.p - 1)

pub do_readdir : RmRf → Next
do_readdir s = waits s (readdir (s.dirs s.p).dir)

on_opendir : RmRf → Reply → Next
unfolding do_readdir
on_opendir s fs = elim fs.result [
  | negative e ↦ ended libuv_error
  | done n ↦
      do_readdir
        (record s { dirs = at s.dirs s.p (record { dir = fs.ptr; path = (s.dirs s.p).path }) })
]

-- `e->path = fullpath` for the next entry of the stack, and the request to open it.
descend : RmRf → Buffer → ℕ → Next
unfolding incr_entry
descend s buf fullpath = elim (incr_entry s) [
  | none ↦ crashed
  | some e ↦
      waits
        (record s {
          buf = buf;
          p = e;
          dirs = at s.dirs e (record { dir = (s.dirs e).dir; path = fullpath });
        })
        (opendir (str buf))
]

-- An entry was read.
pub on_entry : RmRf → Dirent → Next
unfolding descend
on_entry s ent =
    let (buf, name_end) = append s.buf (s.dirs s.p).path ent.name in
    elim ent.dirent_type [
      | dirent_dir ↦ let (buf', fullpath) = append buf name_end slash in descend s buf' fullpath
      | dirent_file ↦ waits (record s { buf = buf }) (unlink (str buf))
      | dirent_other ↦ ended libuv_error
    ]

on_readdir : RmRf → Reply → Next
unfolding on_entry
on_readdir s fs = elim fs.result [
  | negative e ↦ ended libuv_error
  | done zero ↦ waits s (closedir (s.dirs s.p).dir)
  | done (suc n) ↦ on_entry s fs.entry
]

pub on_unlink : RmRf → Reply → Next
unfolding do_readdir
on_unlink s fs = elim fs.result [
  | negative e ↦ ended libuv_error
  | done n ↦ do_readdir (record s { buf = set_end s.buf (s.dirs s.p).path })
]

on_closedir : RmRf → Reply → Next
on_closedir s fs = elim fs.result [
  | negative e ↦ ended libuv_error
  | done n ↦ waits s (rmdir (str s.buf))
]

pub on_rmdir : RmRf → Reply → Next
unfolding decr_entry do_readdir
on_rmdir s fs = elim fs.result [
  | negative e ↦ ended libuv_error
  | done n ↦ elim (decr_entry s) [
    | none ↦ succeeded
    | some e ↦ do_readdir (record s { p = e; buf = set_end s.buf (s.dirs e).path })
  ]
]

-- Each request names the callback that gets the answer.
pub answer : RmRf → Call → Reply → Next
unfolding on_opendir on_readdir on_unlink on_closedir on_rmdir
answer s (opendir path) fs = on_opendir s fs
answer s (readdir dir) fs = on_readdir s fs
answer s (unlink path) fs = on_unlink s fs
answer s (closedir dir) fs = on_closedir s fs
answer s (rmdir path) fs = on_rmdir s fs
