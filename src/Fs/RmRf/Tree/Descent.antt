-- ===== src/Fs/RmRf/Tree/Descent.antt =====
-- The removal by `_fs_rm_rf` of src/fs.hpp of a directory in a directory.
use trctl.Base.{
  ℕ, suc, ◌+◌, ◌-◌, ◌<◌, ◌≡◌, ◌∙◌, refl, sym, ap, subst, ne→==, eq→==, false, List, ◌∷◌, ◌++◌, ◌==◌,
  length, arith, length-append, append_assoc,
}
use trctl.Fs.Disk.{Dirent, dirent_dir}
use trctl.Str.{append, set_end, str}
use trctl.Str.Path.{Text, Holds, str-Holds, set_end-Holds}
use trctl.Fs.RmRf.{
  Entry, RmRf, Call, opendir, readdir, Reply, Next, waits, slash, at, answer, on_opendir,
  on_readdir, on_entry, descend, incr_entry, decr_entry, do_readdir, on_rmdir,
}
use trctl.Fs.RmRf.Tree.{Items, dir, ok, found, replies, below, requests}
use trctl.Fs.RmRf.Tree.Walk.{Steps, go, Steps-append, append-whole, At, Walked}

at-same : (dirs : ℕ → Entry) (i : ℕ) (e : Entry) → at dirs i e i ≡ e
at-same dirs i e = rw (eq→== i i refl) refl

at-other : (dirs : ℕ → Entry) (i : ℕ) (e : Entry) (j : ℕ) → j < i → at dirs i e j ≡ dirs j
at-other dirs i e j lt = rw (ne→== i j (λ e. absurd (omega (arith, e)))) refl

-- The memory of the entries after the request, and after the answer.
pushed : RmRf → ℕ → ℕ → Entry
pushed s fullpath = at s.dirs (s.p + 1) (record { dir = (s.dirs (s.p + 1)).dir; path = fullpath })

filled : RmRf → ℕ → ℕ → ℕ → Entry
filled s k fullpath =
    at (pushed s fullpath) (s.p + 1) (record { dir = k; path = (pushed s fullpath (s.p + 1)).path })

filled-same :
    (s : RmRf) (k fullpath : ℕ)
    → filled s k fullpath (s.p + 1) ≡ record { dir = k; path = fullpath }
unfolding filled pushed
filled-same s k fullpath =
    at-same (pushed s fullpath) (s.p + 1)
      (record { dir = k; path = (pushed s fullpath (s.p + 1)).path })
    ∙ ap (λ e. record { dir = k; path = e.path })
        (at-same s.dirs (s.p + 1) (record { dir = (s.dirs (s.p + 1)).dir; path = fullpath }))

filled-other : (s : RmRf) (k fullpath j : ℕ) → j < s.p + 1 → filled s k fullpath j ≡ s.dirs j
unfolding filled pushed
filled-other s k fullpath j lt =
    at-other (pushed s fullpath) (s.p + 1)
      (record { dir = k; path = (pushed s fullpath (s.p + 1)).path }) j lt
    ∙ at-other s.dirs (s.p + 1) (record { dir = (s.dirs (s.p + 1)).dir; path = fullpath }) j lt

-- The state with the request to open a directory, and that in which the directory is read.
entering : RmRf → List ℕ → RmRf
entering s n =
    let (buf, name_end) = append s.buf (s.dirs s.p).path n in
    let (buf', fullpath) = append buf name_end slash in
    record s { buf = buf'; p = s.p + 1; dirs = pushed s fullpath }

opened : RmRf → ℕ → List ℕ → RmRf
opened s k n =
    let (buf, name_end) = append s.buf (s.dirs s.p).path n in
    let (buf', fullpath) = append buf name_end slash in
    record s { buf = buf'; p = s.p + 1; dirs = filled s k fullpath }

opened-At :
    (s : RmRf) (entries p : ℕ) (t : List ℕ) (h size k : ℕ) (n : List ℕ)
    → At s entries p t h size
    → Text n
    → length t + length n + 1 < size
    → At (opened s k n) entries (p + 1) (below t n) k size
unfolding opened
opened-At s entries p t h size k n at_t text room =
    let appended =
      append-whole s.buf t n size (s.dirs s.p).path at_t.holds at_t.path_is text
        (omega (arith, room)) in
    let (buf, name_end) = append s.buf (s.dirs s.p).path n in
    let whole =
      append-whole buf (t ++ n) slash size name_end appended.0 appended.1 (omega arith, tt)
        (omega (arith, room, length-append t n)) in
    let same = filled-same s k (append buf name_end slash).1 in
    record {
      p_is = ap (λ i. i + 1) at_t.p_is;
      entries_is = at_t.entries_is;
      path_is = ap (λ e. e.path) same ∙ whole.1;
      dir_is = ap (λ e. e.dir) same;
      holds = whole.0;
    }

opened-dirs :
    (s : RmRf) (k : ℕ) (n : List ℕ) (j : ℕ) → j < s.p + 1 → (opened s k n).dirs j ≡ s.dirs j
unfolding opened
opened-dirs s k n j lt =
    let (buf, name_end) = append s.buf (s.dirs s.p).path n in
    filled-other s k (append buf name_end slash).1 j lt

-- The state in which the directory above is read further.
up : RmRf → RmRf
up s = record s { p = s.p - 1; buf = set_end s.buf (s.dirs (s.p - 1)).path }

on_rmdir-up : (s : RmRf) (p : ℕ) → s.p ≡ p + 1 → on_rmdir s (ok 0) ≡ do_readdir (up s)
unfolding on_rmdir decr_entry do_readdir up
on_rmdir-up s p e = rw (ne→== s.p 0 (λ z. absurd (omega (arith, e, z))), on_rmdir, decr_entry) refl

up-dirs : (s : RmRf) (j : ℕ) → (up s).dirs j ≡ s.dirs j
unfolding up
up-dirs s j = refl

up-At :
    (s s' : RmRf) (entries p : ℕ) (t : List ℕ) (h size k : ℕ) (n : List ℕ)
    → At s entries p t h size
    → At s' entries (p + 1) (below t n) k size
    → s'.dirs p ≡ s.dirs p
    → At (up s') entries p t h size
unfolding up
up-At s s' entries p t h size k n at_t at_n same =
    let down : s'.p - 1 ≡ p = omega (arith, at_n.p_is) in
    let entry : s'.dirs (s'.p - 1) ≡ s.dirs s.p =
      ap s'.dirs down ∙ same ∙ ap s.dirs (sym at_t.p_is) in
    let path_is : (s'.dirs (s'.p - 1)).path ≡ length t = ap (λ e. e.path) entry ∙ at_t.path_is in
    record {
      p_is = down;
      entries_is = at_n.entries_is;
      path_is = path_is;
      dir_is = ap (λ e. e.dir) entry ∙ at_t.dir_is;
      holds =
          subst (λ i. Holds (set_end s'.buf i) t size) (sym path_is)
            (set_end-Holds s'.buf t (n ++ slash) size
              (subst (λ r. Holds s'.buf r size) (append_assoc t n slash) at_n.holds));
    }

-- The request to open the directory that was found.
entering-step :
    (s : RmRf) (entries p : ℕ) (t : List ℕ) (h size k : ℕ) (n : List ℕ) (rs : List Reply)
    (cs : List Call) (fin : Next)
    → At s entries p t h size
    → Text n
    → length t + length n + 1 < size
    → p + 1 < entries
    → Steps (do_readdir (opened s k n)) rs cs fin
    → Steps
        (do_readdir s)
        (found (record { name = n; dirent_type = dirent_dir }) ∷ ok k ∷ rs)
        (readdir h ∷ opendir (below t n) ∷ cs)
        fin
unfolding answer on_readdir on_entry descend incr_entry on_opendir do_readdir opened entering filled
    pushed
entering-step s entries p t h size k n rs cs fin at_t text room deep rest =
    let s1 = entering s n in
    let s2 = opened s k n in
    let dir = (s.dirs s.p).dir in
    let ent : Dirent = record { name = n; dirent_type = dirent_dir } in
    let holds = (opened-At s entries p t h size k n at_t text room).holds in
    let named : opendir (str s1.buf) ≡ opendir (below t n) =
      ap opendir (str-Holds s1.buf (below t n) size holds) in
    let room_left : (s.p + 1 == s.size) ≡ false =
      ne→== (s.p + 1) s.size (λ e. absurd (omega (arith, e, deep, at_t.p_is, at_t.entries_is))) in
    let asked : answer s (readdir dir) (found ent) ≡ waits s1 (opendir (str s1.buf)) =
      rw (room_left, answer, on_readdir, on_entry, descend, incr_entry) refl in
    go s (readdir dir) (readdir h) (found ent) (waits s1 (opendir (str s1.buf))) fin (ok k ∷ rs)
      (opendir (below t n) ∷ cs) (ap readdir at_t.dir_is) asked
      (go s1 (opendir (str s1.buf)) (opendir (below t n)) (ok k) (do_readdir s2) fin rs cs named
        refl rest)

-- A directory is opened, read to its end and removed, and the one above is read further.
pub walk-dir :
    (s : RmRf) (entries p : ℕ) (t : List ℕ) (h size k : ℕ) (n : List ℕ) (sub more : Items)
    → At s entries p t h size
    → Text n
    → length t + length n + 1 < size
    → p + 1 < entries
    → ((s' : RmRf)
        → At s' entries (p + 1) (below t n) k size
        → Walked s' entries (p + 1) (below t n) k size sub)
    → ((s' : RmRf) → At s' entries p t h size → Walked s' entries p t h size more)
    → Walked s entries p t h size (dir k n sub more)
walk-dir s entries p t h size k n sub more at_t text room deep walk_sub walk_more =
    let inner = walk_sub (opened s k n) (opened-At s entries p t h size k n at_t text room) in
    let kept : (j : ℕ) → j < suc p → inner.last.dirs j ≡ s.dirs j = λ j lt.
      inner.dirs_are j (omega (arith, lt)) ∙ opened-dirs s k n j (omega (arith, lt, at_t.p_is)) in
    let outer =
      walk_more (up inner.last)
        (up-At s inner.last entries p t h size k n at_t inner.last-At (kept p (omega arith))) in
    let fin = on_rmdir outer.last (ok 0) in
    let seen : Steps (on_rmdir inner.last (ok 0)) (replies more) (requests h t more) fin =
      subst (λ m. Steps m (replies more) (requests h t more) fin)
        (sym (on_rmdir-up inner.last p inner.last-At.p_is)) outer.steps in
    record {
      last = outer.last;
      steps =
          entering-step s entries p t h size k n (replies sub ++ replies more)
            (requests k (below t n) sub ++ requests h t more) fin at_t text room deep
            (Steps-append (do_readdir (opened s k n)) (on_rmdir inner.last (ok 0)) fin (replies sub)
              (replies more) (requests k (below t n) sub) (requests h t more) inner.steps seen);
      last-At = outer.last-At;
      dirs_are = λ j lt. outer.dirs_are j lt ∙ up-dirs inner.last j ∙ kept j lt;
    }
