-- ===== src/Fs/RmRf/Tree/Walk.antt =====
-- The removal of a tree by `_fs_rm_rf` of src/fs.hpp, request by request.
use trctl.Base.{
  ℕ, suc, ◌+◌, ◌-◌, ◌<◌, ◌≡◌, refl, sym, ap, subst, List, [], ◌∷◌, ◌++◌, length, take, arith,
}
use trctl.Fs.Disk.{Dirent, dirent_file}
use trctl.Str.{Buffer, append, set_end, str}
use trctl.Str.Path.{Text, Holds, str-Holds, append-Holds, set_end-Holds, take-all}
use trctl.Fs.RmRf.{
  RmRf, Call, readdir, unlink, closedir, rmdir, Reply, Next, waits, answer, on_readdir, on_entry,
  do_readdir, on_unlink, on_closedir, on_rmdir,
}
use trctl.Fs.RmRf.Tree.{Items, nothing, file, ok, found, replies, requests}

-- From a point of a run the replies lead to another point, over some requests.
pub data Steps : Next → List Reply → List Call → Next → Type 0 where
  stop : (n : Next) → Steps n [] [] n
  go :
      (s : RmRf) (c c' : Call) (fs : Reply) (n n' : Next) (rs : List Reply) (cs : List Call)
      → c ≡ c'
      → answer s c fs ≡ n
      → Steps n rs cs n'
      → Steps (waits s c) (fs ∷ rs) (c' ∷ cs) n'

pub Steps-append :
    (n n' n'' : Next) (rs rs' : List Reply) (cs cs' : List Call)
    → Steps n rs cs n'
    → Steps n' rs' cs' n''
    → Steps n (rs ++ rs') (cs ++ cs') n''
Steps-append n n' n'' rs rs' cs cs' (stop _) more = more
Steps-append n n' n'' rs rs' cs cs' (go s c c' fs m _ qs ds e a rest) more =
    go s c c' fs m n'' (qs ++ rs') (ds ++ cs') e a (Steps-append m n' n'' qs rs' ds cs' rest more)

-- A piece for which there is room is appended whole.
pub append-whole :
    (buf : Buffer) (t sv : List ℕ) (size e : ℕ)
    → Holds buf t size
    → e ≡ length t
    → Text sv
    → length t + length sv < size
    → Holds (append buf e sv).0 (t ++ sv) size × ((append buf e sv).1 ≡ length (t ++ sv))
append-whole buf t sv size e h at_end g room =
    let kept : take (size - length t - 1) sv ≡ sv =
      take-all (size - length t - 1) sv (omega (arith, room)) in
    subst (λ k. Holds (append buf k sv).0 (t ++ sv) size × ((append buf k sv).1 ≡ length (t ++ sv)))
      (sym at_end) (rw kept at (append-Holds buf t sv size h g))

-- The entry `p` is the top of a stack of `entries`, and that of the open directory `t` with the address `h`.
pub record At (s : RmRf) (entries p : ℕ) (t : List ℕ) (h size : ℕ) : Type 0 where
  pub p_is : s.p ≡ p
  pub entries_is : s.size ≡ entries
  pub path_is : (s.dirs s.p).path ≡ length t
  pub dir_is : (s.dirs s.p).dir ≡ h
  pub holds : Holds s.buf t size

-- The directory is read to its end and removed; the entries up to `p` are as they were.
pub record Walked (s : RmRf) (entries p : ℕ) (t : List ℕ) (h size : ℕ) (items : Items)
    : Type 0 where
  pub last : RmRf
  pub steps : Steps (do_readdir s) (replies items) (requests h t items) (on_rmdir last (ok 0))
  pub last-At : At last entries p t h size
  pub dirs_are : (j : ℕ) → j < suc p → last.dirs j ≡ s.dirs j

pub walk-nothing :
    (s : RmRf) (entries p : ℕ) (t : List ℕ) (h size : ℕ)
    → At s entries p t h size
    → Walked s entries p t h size nothing
unfolding answer on_readdir on_closedir do_readdir
walk-nothing s entries p t h size at_t =
    let dir = (s.dirs s.p).dir in
    let same = ap readdir at_t.dir_is in
    let closed = ap closedir at_t.dir_is in
    let removed = ap rmdir (str-Holds s.buf t size at_t.holds) in
    let last = on_rmdir s (ok 0) in
    let end = stop last in
    let remove = go s (rmdir (str s.buf)) (rmdir t) (ok 0) last last [] [] removed refl end in
    let close =
      go s (closedir dir) (closedir h) (ok 0) (waits s (rmdir (str s.buf))) last (ok 0 ∷ [])
        (rmdir t ∷ []) closed refl remove in
    record {
      last = s;
      steps =
          go s (readdir dir) (readdir h) (ok 0) (waits s (closedir dir)) last (ok 0 ∷ ok 0 ∷ [])
            (closedir h ∷ rmdir t ∷ []) same refl close;
      last-At = at_t;
      dirs_are = λ j lt. refl;
    }

-- A file is removed, and the text cut to the directory's again.
pub walk-file :
    (s : RmRf) (entries p : ℕ) (t : List ℕ) (h size : ℕ) (n : List ℕ) (more : Items)
    → At s entries p t h size
    → Text n
    → length t + length n < size
    → ((s' : RmRf) → At s' entries p t h size → Walked s' entries p t h size more)
    → Walked s entries p t h size (file n more)
unfolding answer on_readdir on_entry on_unlink do_readdir
walk-file s entries p t h size n more at_t text room rest =
    let e = (s.dirs s.p).path in
    let appended = append-whole s.buf t n size e at_t.holds at_t.path_is text room in
    let buf = (append s.buf e n).0 in
    let s1 : RmRf = record s { buf = buf } in
    let s2 : RmRf = record s { buf = set_end buf e } in
    let back : Holds (set_end buf e) t size =
      subst (λ k. Holds (set_end buf k) t size) (sym at_t.path_is)
        (set_end-Holds buf t n size appended.0) in
    let at_t' : At s2 entries p t h size = record {
      p_is = at_t.p_is;
      entries_is = at_t.entries_is;
      path_is = at_t.path_is;
      dir_is = at_t.dir_is;
      holds = back;
    } in
    let walked = rest s2 at_t' in
    let dir = (s.dirs s.p).dir in
    let named : unlink (str buf) ≡ unlink (t ++ n) =
      ap unlink (str-Holds buf (t ++ n) size appended.0) in
    let fin = on_rmdir walked.last (ok 0) in
    let ent : Dirent = record { name = n; dirent_type = dirent_file } in
    let remove =
      go s1 (unlink (str buf)) (unlink (t ++ n)) (ok 0) (do_readdir s2) fin (replies more)
        (requests h t more) named refl walked.steps in
    record {
      last = walked.last;
      steps =
          go s (readdir dir) (readdir h) (found ent) (waits s1 (unlink (str buf))) fin
            (ok 0 ∷ replies more) (unlink (t ++ n) ∷ requests h t more) (ap readdir at_t.dir_is)
            refl remove;
      last-At = walked.last-At;
      dirs_are = walked.dirs_are;
    }
