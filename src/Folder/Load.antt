-- ===== src/Folder/Load.antt =====
-- Which folders are found after `folder_init` of src/unit/folder.hpp.
use trctl.Base.{
  Bool, true, false, Option, none, sym, ◌∙◌, ℕ, ◌≡◌, ◌<◌, refl, ap, subst, ◌||◌, some, List, length,
}
use trctl.Str.{str, Buffer, start}
use trctl.Fs.Ops.{Request, done, on_access}
use trctl.Fs.Disk.{Disk, Dirent, Outcome, value, fs_access, fs_closedir, resumed}
use trctl.Fs.Iter.{dir_iter}
use trctl.Fs.Iter.Order.{entries, Lists, Iterated, dir_iter-Iterated}
use trctl.Async.Storage.{AsyncMap}
use trctl.Folder.{Folder, load_entry, folder_init}
use trctl.Folder.Names.{name_key, Lookup, found, missing, unspecified, find_name}
use trctl.Folder.Names.Search.{lookup, of, Plain, find_name-lookup}
use trctl.Folder.Entries.{is_found, named, Loadable, each-Loads}

abbrev pub is_there : Lookup → Bool
is_there (found c) = true
is_there missing = false
is_there unspecified = false

there-of : (o : Option ℕ) → is_there (of o) ≡ is_found o
there-of none = refl
there-of (some c) = refl

module _ {W : Type 0} (disk : Disk W) where
  -- The iteration, and what follows, in the buffer `buf` with the work directory at its front.
  folder_init-accessed :
      (rounds : ℕ) (buf : Buffer) (workdir : List ℕ) (junk n : ℕ) (w w' : W)
      (flds : AsyncMap (List ℕ) Folder) (fs : Request) (w'' : W)
      (s : Buffer × AsyncMap (List ℕ) Folder) (ended : Outcome (Unit {0}))
      → disk.access w workdir ≡ (w', fs)
      → fs.result ≡ done n
      → (let (buf', end) = start buf workdir in
          dir_iter disk (load_entry end junk) rounds w' (str buf') (buf', flds)
          ≡ some (w'', s, ended))
      → folder_init disk rounds buf workdir junk w flds ≡ some (w'', s.1, ended)
  unfolding folder_init fs_access resumed on_access
  folder_init-accessed rounds buf workdir junk n w w' flds fs w'' s ended e ok run =
      let after : (disk.access w workdir).0 ≡ w' = ap (λ t. t.0) e in
      let got : (disk.access w workdir).1 ≡ fs = ap (λ t. t.1) e in
      rw (got, ok, on_access, folder_init, after, run) refl

  -- When a unit starts in a work directory that exists and whose entries come in batches, none of them empty,
  -- `folder_init` ends, with more rounds than there are batches; the result is that of closing the directory.
  -- A folder is found from then on under the names of the directories among the entries, under those it was
  -- found before, and under no other name; and all folders still have ASCII names of at most 30 characters, in order.
  -- This holds if they had before, and if no directory has a name of more than 30 characters, or one that
  -- is not ASCII, or that another has, or that was found before.
  pub folder_init-find :
      (rounds : ℕ) (buf : Buffer) (workdir : List ℕ) (junk n k : ℕ) (w w' w0 w1 : W)
      (flds : AsyncMap (List ℕ) Folder) (fs opened : Request) (bs : List (List Dirent))
      → disk.access w workdir ≡ (w', fs)
      → fs.result ≡ done n
      → disk.opendir w' (str (start buf workdir).0) ≡ (w0, opened)
      → opened.result ≡ done k
      → Lists disk opened.ptr w0 bs w1
      → length bs < rounds
      → Plain flds.m
      → Loadable flds.m (entries bs)
      → (flds' : AsyncMap (List ℕ) Folder) × (folder_init disk rounds buf workdir junk w flds
          ≡ (let (w2, closed) = fs_closedir disk w1 opened.ptr in some (w2, flds', closed)))
        × ((j : List ℕ)
            → is_there (find_name j flds'.m)
              ≡ (is_there (find_name j flds.m) || named j (entries bs)))
        × Plain flds'.m
  folder_init-find rounds buf workdir junk n k w w' w0 w1 flds fs opened bs e ok o ok' l lt p h =
      let (buf', end) = start buf workdir in
      let (buf'', flds', run, finds, plain) = each-Loads end junk (entries bs) buf' flds p h in
      let (w2, closed) = fs_closedir disk w1 opened.ptr in
      let iterated : Iterated disk w1 opened.ptr ((buf'', flds'), value tt)
          (dir_iter disk (load_entry end junk) rounds w' (str buf') (buf', flds)) =
        subst
          (λ t.
            Iterated disk w1 opened.ptr t
              (dir_iter disk (load_entry end junk) rounds w' (str buf') (buf', flds)))
          run
          (dir_iter-Iterated disk (load_entry end junk) w' w0 w1 (str buf') opened k rounds bs
            (buf', flds) o ok' l lt) in
      (
        flds',
        folder_init-accessed rounds buf workdir junk n w w' flds fs w2 (buf'', flds') closed e ok
            iterated,
        λ j.
            ap is_there (find_name-lookup j flds'.m plain)
            ∙ there-of (lookup j flds'.m)
            ∙ finds j
            ∙ ap (λ b. b || named j (entries bs))
                (sym (ap is_there (find_name-lookup j flds.m p) ∙ there-of (lookup j flds.m))),
        plain,
      )
