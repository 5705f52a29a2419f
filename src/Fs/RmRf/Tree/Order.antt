-- ===== src/Fs/RmRf/Tree/Order.antt =====
-- The order of the requests with which `_fs_rm_rf` of src/fs.hpp removes a tree of files.
use trctl.Base.{ℕ, suc, ◌+◌, ◌-◌, ◌<◌, ◌≡◌, ◌∙◌, refl, ap, eq→==, List, ◌∷◌, length, arith}
use trctl.Str.{str}
use trctl.Str.Path.{Holds, str-Holds}
use trctl.Fs.RmRf.{
  RmRf, Call, opendir, Reply, Next, succeeded, at, answer, on_opendir, decr_entry, do_readdir,
  on_rmdir,
}
use trctl.Fs.RmRf.Balance.{run, calls}
use trctl.Fs.RmRf.Tree.{Items, nothing, file, dir, ok, replies, below, requests, Fits}
use trctl.Fs.RmRf.{start}
use trctl.Fs.RmRf.Tree.Walk.{Steps, stop, go, At, Walked, walk-nothing, walk-file}
use trctl.Fs.RmRf.Tree.Descent.{walk-dir}

-- What is in a directory is removed, whatever it is.
walk :
    (s : RmRf) (entries p : ℕ) (t : List ℕ) (h size : ℕ) (items : Items)
    → At s entries p t h size
    → Fits entries size p t items
    → Walked s entries p t h size items
walk s entries p t h size nothing at_t fits = walk-nothing s entries p t h size at_t
walk s entries p t h size (file n more) at_t fits =
    walk-file s entries p t h size n more at_t fits.0 fits.1
      (λ s' at_t'. walk s' entries p t h size more at_t' fits.2)
walk s entries p t h size (dir k n sub more) at_t fits =
    walk-dir s entries p t h size k n sub more at_t fits.0 fits.1 fits.2
      (λ s' at_n. walk s' entries (p + 1) (below t n) k size sub at_n fits.3)
      (λ s' at_t'. walk s' entries p t h size more at_t' fits.4)

Steps-run :
    (n n' : Next) (rs : List Reply) (cs : List Call)
    → Steps n rs cs n'
    → n' ≡ succeeded
    → run n rs ≡ succeeded
unfolding run
Steps-run n n' rs cs (stop _) e = rw (e, run) refl
Steps-run n n' rs cs (go s c c' fs m _ qs ds same next rest) e =
    ap (λ m. run m qs) next ∙ Steps-run m n' qs ds rest e

Steps-calls :
    (n n' : Next) (rs : List Reply) (cs : List Call)
    → Steps n rs cs n'
    → n' ≡ succeeded
    → calls n rs ≡ cs
unfolding calls
Steps-calls n n' rs cs (stop _) e = rw (e, calls) refl
Steps-calls n n' rs cs (go s c c' fs m _ qs ds same next rest) e =
    ap (λ d. d ∷ calls (answer s c fs) qs) same
    ∙ ap (λ ds. c' ∷ ds) (ap (λ m. calls m qs) next ∙ Steps-calls m n' qs ds rest e)

-- The state in which the root is read.
rooted : RmRf → ℕ → RmRf
rooted s h =
    let dirs = at s.dirs 0 (record { dir = (s.dirs 0).dir; path = s.path }) in
    record s { p = 0; dirs = at dirs 0 (record { dir = h; path = (dirs 0).path }) }

start-Steps :
    (s : RmRf) (h n : ℕ) (t : List ℕ) (rs : List Reply) (cs : List Call) (fin : Next)
    → s.size ≡ suc n
    → opendir (str s.buf) ≡ opendir t
    → Steps (do_readdir (rooted s h)) rs cs fin
    → Steps (start s) (ok h ∷ rs) (opendir t ∷ cs) fin
unfolding start answer on_opendir rooted do_readdir
start-Steps s h n t rs cs fin sized named rest =
    let dirs = at s.dirs 0 (record { dir = (s.dirs 0).dir; path = s.path }) in
    let s1 : RmRf = record s { p = 0; dirs = dirs } in
    rw (sized, start)
      (go s1 (opendir (str s.buf)) (opendir t) (ok h) (do_readdir (rooted s h)) fin rs cs named refl
        rest)

rooted-At :
    (s : RmRf) (t : List ℕ) (h size : ℕ)
    → Holds s.buf t size
    → s.path ≡ length t
    → At (rooted s h) s.size 0 t h size
unfolding rooted
rooted-At s t h size holds path_is = record {
  p_is = refl;
  entries_is = refl;
  path_is = path_is;
  dir_is = refl;
  holds = holds;
}

-- Only the root is left in the stack, so the removal has succeeded.
on_rmdir-succeeded :
    (s : RmRf) (entries : ℕ) (t : List ℕ) (h size : ℕ)
    → At s entries 0 t h size
    → on_rmdir s (ok 0) ≡ succeeded
unfolding on_rmdir decr_entry
on_rmdir-succeeded s entries t h size at_t = rw (eq→== s.p 0 at_t.p_is, on_rmdir, decr_entry) refl

-- A whole tree is removed, however deep, if the stack has an entry for each open directory, the buffer room
-- for each path, and libuv refuses nothing: the run succeeds, and the requests are to open the root, and for
-- each directory to read each entry, to remove a file at once, to open a directory, remove what is in it
-- in the same way and then the directory itself, and at the end to close and to remove the directory.
pub start-walk :
    (s : RmRf) (t : List ℕ) (h size : ℕ) (items : Items)
    → Holds s.buf t size
    → s.path ≡ length t
    → 0 < s.size
    → Fits s.size size 0 t items
    → (run (start s) (ok h ∷ replies items) ≡ succeeded)
      × (calls (start s) (ok h ∷ replies items) ≡ opendir t ∷ requests h t items)
start-walk s t h size items holds path_is room fits =
    let walked =
      walk (rooted s h) s.size 0 t h size items (rooted-At s t h size holds path_is) fits in
    let fin = on_rmdir walked.last (ok 0) in
    let won = on_rmdir-succeeded walked.last s.size t h size walked.last-At in
    let sized : s.size ≡ suc (s.size - 1) = omega (arith, room) in
    let steps =
      start-Steps s h (s.size - 1) t (replies items) (requests h t items) fin sized
        (ap opendir (str-Holds s.buf t size holds)) walked.steps in
    (
      Steps-run (start s) fin (ok h ∷ replies items) (opendir t ∷ requests h t items) steps won,
      Steps-calls (start s) fin (ok h ∷ replies items) (opendir t ∷ requests h t items) steps won,
    )
