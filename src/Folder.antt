-- ===== src/Folder.antt =====
-- src/unit/folder.hpp: the folders of a unit, directories of its work directory.
pub mod Names
pub mod Create
pub mod Entries
pub mod Load
mod Examples
use trctl.Base.{
  ℕ, zero, suc, ◌-◌, ◌+◌, Bool, true, false, not, ◌&&◌, Option, none, some, List, [], ◌∷◌, ◌++◌,
  ◌==◌, ltb, if◌then◌else◌, length, take,
}
use trctl.Util.{Error, input_error, libuv_error}
use trctl.Str.{str, start, append, Buffer}
use trctl.Fs.Ops.{Result, negative, done}
use trctl.Fs.Disk.{
  Disk, Dirent, dirent_dir, dirent_file, dirent_other, Outcome, value, failure, fs_access, fs_mkdir,
}
use trctl.Fs.Iter.{dir_iter}
use trctl.Fs.RmRf.{Reply, Entry, construct}
use trctl.Fs.RmRf as Removal
use trctl.Fs.RmRf.Balance.{run}
use trctl.Async.Storage.{AsyncMap, emplace, erase, release}
use trctl.Async.Storage.Map.{find}
use trctl.Transfer.{Slot}
use trctl.Transfer as Transfers
use Names.{name_key, is_ended, Lookup, found, missing, unspecified, find_name, find_key}

-- `folder_ctx`; the dependencies are the cores of the transfers into the folder.
pub record Folder : Type 0 where
  pub path : List ℕ
  pub deps : List ℕ

-- `strncpy( name, n, 31 )` into an array of 32 characters, of which the last one is `junk`: it is not set.
pub zeros_to : ℕ → List ℕ → List ℕ
zeros_to zero cs = []
zeros_to (suc n) [] = 0 ∷ zeros_to n []
zeros_to (suc n) (c ∷ cs) = c ∷ zeros_to n cs

unfoldable pub folder_name : List ℕ → ℕ → List ℕ
unfolding zeros_to
folder_name n junk = zeros_to 31 n ++ (junk ∷ [])

-- `sv.find_first_of( "/" ) != npos`
unfoldable pub has_slash : List ℕ → Bool
has_slash [] = false
has_slash (c ∷ cs) = let rest = has_slash cs in if c == 47 then true else rest

-- `path / name` for a name with no slash.
ends_in_slash : List ℕ → Bool
ends_in_slash [] = true
ends_in_slash (c ∷ []) = c == 47
ends_in_slash (c ∷ (d ∷ cs)) = ends_in_slash (d ∷ cs)

unfoldable pub joined : List ℕ → List ℕ → List ℕ
unfolding ends_in_slash
joined path name = if ends_in_slash path then path ++ name else path ++ (47 ∷ name)

-- How a request on folders ends: a task that returns, with the state it leaves; one that never does, in an
-- endless loop or on a request without an answer; or a crash.
pub data Ended (S : Type 0) : Type 0 where
  returns : S → Outcome (Unit {0}) → Ended S
  never_returns crashes : Ended S

-- The state: libuv and the files, the folders, and the transfers.
pub record Folders (W : Type 0) : Type 0 where
  pub w : W
  pub flds : AsyncMap (List ℕ) Folder
  pub transfers : AsyncMap ℕ Slot

-- `fs_rm_rf` with a buffer of 256 characters and 32 entries, and the answers to its requests. The world after
-- the answers is `w'`.
remove_all : Buffer → (ℕ → Entry) → List ℕ → List Reply → Removal.Next
remove_all buf dirs path replies =
    let (buf', e) = start buf path in run (Removal.start (construct buf' e dirs 32)) replies

-- The pointer that `emplace` returns is dropped.
pub add_folder : AsyncMap (List ℕ) Folder → List ℕ → List ℕ → AsyncMap (List ℕ) Folder
add_folder flds key path =
    let (flds', made) = emplace flds key (record { path = path; deps = [] }) in
    elim made [ none ↦ flds' | some c ↦ release flds' c ]

-- `erase( iter )` for the entry that `find` of a C string found.
erase_name : AsyncMap (List ℕ) Folder → List ℕ → AsyncMap (List ℕ) Folder
erase_name flds n = elim (find_key n flds.m) [ none ↦ flds | some key ↦ erase flds key ]

-- What `fs_rm_rf` ends with, and what follows.
after_removal : {S : Type 0} → Removal.Next → S → (S → Ended S) → Ended S
after_removal (Removal.waits s call) x next = never_returns
after_removal Removal.succeeded x next = next x
after_removal (Removal.ended e) x next = returns x (failure e)
after_removal Removal.crashed x next = crashes

-- The task for each entry of the work directory in `folder_init`; `e` is the end of the directory's path in
-- the buffer.
pub load_entry :
    ℕ
    → ℕ
    → Buffer × AsyncMap (List ℕ) Folder
    → Dirent
    → (Buffer × AsyncMap (List ℕ) Folder) × Outcome (Unit {0})
unfolding add_folder
load_entry e junk (buf, flds) ent = elim ent.dirent_type [
  | dirent_file ↦ ((buf, flds), value tt)
  | dirent_other ↦ ((buf, flds), value tt)
  | dirent_dir ↦
      if not (ltb (length ent.name) 32)
      then ((buf, flds), failure input_error)
      else let (buf1, slash_end) = append buf e (47 ∷ []) in
        let (buf2, name_end) = append buf1 slash_end ent.name in
        elim (find (folder_name ent.name junk) flds.m) [
          | some c ↦ ((buf2, flds), failure input_error)
          | none ↦ ((buf2, add_folder flds (folder_name ent.name junk) (str buf2)), value tt)
        ]
]

-- `UV_ENOENT`
abbrev enoent : ℕ
enoent = 2

module _ {W : Type 0} (disk : Disk W) where
  -- `folder_create`; reading an array that has no 0 is undefined.
  unfoldable pub folder_create :
      List ℕ → ℕ → W → AsyncMap (List ℕ) Folder → List ℕ → Ended (W × AsyncMap (List ℕ) Folder)
  unfolding add_folder
  folder_create workdir junk w flds n = elim (find_name n flds.m) [
    | unspecified ↦ crashes
    | found c ↦ returns (w, flds) (failure input_error)
    | missing ↦
        if has_slash n
        then returns (w, flds) (failure input_error)
        else if not (ltb (length n) 32)
        then returns (w, flds) (failure input_error)
        else if not (is_ended (folder_name n junk))
        then crashes
        else let path = joined workdir (str (folder_name n junk)) in
          let (w', made) = fs_mkdir disk w path in
          elim made [
            | failure e ↦ returns (w', flds) (failure e)
            | value u ↦ returns (w', add_folder flds (folder_name n junk) path) (value tt)
          ]
  ]

  -- The dependencies of a folder are shut down, one after the other.
  shutdown_deps : ℕ → W → AsyncMap ℕ Slot → List ℕ → Ended (W × AsyncMap ℕ Slot)
  shutdown_deps rounds w transfers [] = returns (w, transfers) (value tt)
  shutdown_deps rounds w transfers (d ∷ ds) = elim (Transfers.shutdown disk rounds w transfers d) [
    | none ↦ never_returns
    | some (w', transfers', failure e) ↦ returns (w', transfers') (failure e)
    | some (w', transfers', value u) ↦ shutdown_deps rounds w' transfers' ds
  ]

  -- `folder_delete`; the removal gets `replies`, and leaves the world `w'`.
  pub folder_delete :
      ℕ → Buffer → (ℕ → Entry) → (W → W) → List Reply → Folders W → List ℕ → Ended (Folders W)
  unfolding shutdown_deps remove_all after_removal erase_name
  folder_delete rounds buf dirs removing replies s n = elim (find_name n s.flds.m) [
    | unspecified ↦ crashes
    | missing ↦ returns s (failure input_error)
    | found c ↦ elim (shutdown_deps rounds s.w s.transfers (s.flds.item c).deps) [
      | never_returns ↦ never_returns
      | crashes ↦ crashes
      | returns (w', transfers') (failure e) ↦
          returns (record s { w = w'; transfers = transfers' }) (failure e)
      | returns (w', transfers') (value u) ↦
          after_removal (remove_all buf dirs (s.flds.item c).path replies)
            (record s { w = removing w'; transfers = transfers' })
            (λ s'. returns (record s' { flds = erase_name s'.flds n }) (value tt))
    ]
  ]

  -- `folder_clear`
  pub folder_clear :
      Buffer → (ℕ → Entry) → (W → W) → List Reply → Folders W → List ℕ → Ended (Folders W)
  unfolding remove_all after_removal
  folder_clear buf dirs removing replies s n = elim (find_name n s.flds.m) [
    | unspecified ↦ crashes
    | missing ↦ returns s (failure input_error)
    | found c ↦
        after_removal (remove_all buf dirs (s.flds.item c).path replies)
          (record s { w = removing s.w })
          (λ s'.
            let (w', made) = fs_mkdir disk s'.w (s.flds.item c).path in
            returns (record s' { w = w' }) made)
  ]

  -- `folder_init`, with a buffer of 256 characters. `none`: the iteration still runs when the rounds are used
  -- up.
  unfoldable pub folder_init :
      ℕ
      → Buffer
      → List ℕ
      → ℕ
      → W
      → AsyncMap (List ℕ) Folder
      → Option (W × AsyncMap (List ℕ) Folder × Outcome (Unit {0}))
  unfolding load_entry
  folder_init rounds buf workdir junk w flds =
      let (w', res) = fs_access disk w workdir in
      elim res [
        | failure e ↦ some (w', flds, failure e)
        | value (done n) ↦
            let (buf', end) = start buf workdir in
            elim (dir_iter disk (load_entry end junk) rounds w' (str buf') (buf', flds)) [
              | none ↦ none
              | some (w'', (buf'', flds'), ended) ↦ some (w'', flds', ended)
            ]
        | value (negative e) ↦
            let (w'', made) = fs_mkdir disk w' workdir in
            if e == enoent then some (w'', flds, made) else some (w', flds, failure libuv_error)
      ]
