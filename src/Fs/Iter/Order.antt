-- ===== src/Fs/Iter/Order.antt =====
-- `dir_iter` of src/fs.hpp against one loop over all entries.
use trctl.Base.{
  ℕ, zero, suc, ◌<◌, ◌≡◌, refl, sym, ap, subst, ◌∙◌, ◌⊎◌, inl, inr, Option, some, List, [], ◌∷◌,
  ◌++◌, length, take, arith,
}
use trctl.Util.{Error}
use trctl.Fs.Ops.{Request, done, on_readdir, on_opendir}
use trctl.Fs.Disk.{
  Disk, Dirent, Outcome, value, failure, resumed, fs_opendir, fs_readdir, fs_closedir,
}
use trctl.Fs.Iter.{each, batches, dir_iter}

-- The entries of the batches, in order.
abbrev pub entries : List (List Dirent) → List Dirent
entries [] = []
entries (b ∷ bs) = b ++ entries bs

-- Reading a directory from `w` on gives some batches, none of them empty, and then the end, at `w'`.
pub data Lists {W : Type 0} (disk : Disk W) (dir : ℕ) : W → List (List Dirent) → W → Type 0 where
  at_end :
      (w w' : W) (fs : Request) (dirs : List Dirent)
      → disk.readdir w dir 16 ≡ (w', (fs, dirs))
      → fs.result ≡ done 0
      → Lists disk dir w [] w'
  batch :
      (w w1 w' : W) (fs : Request) (dirs : List Dirent) (n : ℕ) (e : Dirent) (es : List Dirent)
      (bs : List (List Dirent))
      → disk.readdir w dir 16 ≡ (w1, (fs, dirs))
      → fs.result ≡ done n
      → take n dirs ≡ e ∷ es
      → Lists disk dir w1 bs w'
      → Lists disk dir w ((e ∷ es) ∷ bs) w'

Outcome-cases : (o : Outcome (Unit {0})) → (o ≡ value tt) ⊎ ((e : Error) × (o ≡ failure e))
Outcome-cases (value u) = inl refl
Outcome-cases (failure e) = inr (e, refl)

module _ {W : Type 0} (disk : Disk W) where
  -- How the iteration ends, if the tasks on all entries end so: the directory is closed if they all succeed.
  abbrev pub Iterated :
      {X : Type 0} → W → ℕ → X × Outcome (Unit {0}) → Option (W × X × Outcome (Unit {0})) → Type 0
  Iterated w dir (x, value u) got =
      got ≡ (let (w', closed) = fs_closedir disk w dir in some (w', x, closed))
  Iterated w dir (x, failure e) got = (v : W) × (got ≡ some (v, x, failure e))

  fs_readdir-done :
      (w w' : W) (dir n : ℕ) (fs : Request) (dirs : List Dirent)
      → disk.readdir w dir 16 ≡ (w', (fs, dirs))
      → fs.result ≡ done n
      → fs_readdir disk w dir 16 ≡ (w', value (take n dirs))
  unfolding fs_readdir resumed on_readdir
  fs_readdir-done w w' dir n fs dirs e ok =
      let after : (disk.readdir w dir 16).0 ≡ w' = ap (λ t. t.0) e in
      let got : (disk.readdir w dir 16).1.0 ≡ fs = ap (λ t. t.1.0) e in
      let filled : (disk.readdir w dir 16).1.1 ≡ dirs = ap (λ t. t.1.1) e in
      rw (got, ok, on_readdir, after, filled) refl

module _ {W X : Type 0} (disk : Disk W) (f : X → Dirent → X × Outcome (Unit {0})) where
  -- The loop goes on, at some entries, after a task that ended so.
  abbrev goes_on : X → Outcome (Unit {0}) → List Dirent → X × Outcome (Unit {0})
  goes_on x o more = elim o [ failure e ↦ (x, failure e) | value u ↦ each f x more ]

  goes_on-append :
      (x : X) (o : Outcome (Unit {0})) (es more : List Dirent)
      → ((y : X) → each f y (es ++ more) ≡ (let r = each f y es in goes_on r.0 r.1 more))
      → goes_on x o (es ++ more) ≡ (let r = goes_on x o es in goes_on r.0 r.1 more)
  goes_on-append x (failure e) es more h = refl
  goes_on-append x (value u) es more h = h x

  each-append :
      (es more : List Dirent) (x : X)
      → each f x (es ++ more) ≡ (let r = each f x es in goes_on r.0 r.1 more)
  unfolding each
  each-append [] more x = refl
  each-append (e ∷ es) more x = goes_on-append (f x e).0 (f x e).1 es more (each-append es more)

  batches-at_end :
      (r : ℕ) (w w' : W) (dir : ℕ) (x : X) (fs : Request) (dirs : List Dirent)
      → disk.readdir w dir 16 ≡ (w', (fs, dirs))
      → fs.result ≡ done 0
      → batches disk f (suc r) w dir x
        ≡ (let (w'', closed) = fs_closedir disk w' dir in some (w'', x, closed))
  unfolding batches
  batches-at_end r w w' dir x fs dirs e ok =
      let got = fs_readdir-done disk w w' dir 0 fs dirs e ok in
      let after : (fs_readdir disk w dir 16).0 ≡ w' = ap (λ t. t.0) got in
      let nothing_left : (fs_readdir disk w dir 16).1 ≡ value [] = ap (λ t. t.1) got in
      rw (nothing_left, batches, after) refl

  batches-Iterated :
      (w w' : W) (dir rounds : ℕ) (bs : List (List Dirent)) (x : X)
      → Lists disk dir w bs w'
      → length bs < rounds
      → Iterated disk w' dir (each f x (entries bs)) (batches disk f rounds w dir x)
  unfolding batches each
  batches-Iterated w w' dir zero bs x l lt = absurd (omega arith)
  batches-Iterated w w' dir (suc r) ([] ∷ bs) x l lt = elim l [ ]
  batches-Iterated w w' dir (suc r) [] x (at_end _ _ fs dirs e ok) lt =
      batches-at_end r w w' dir x fs dirs e ok
  batches-Iterated w w' dir (suc r) ((ent ∷ es) ∷ bs) x
        (batch _ w1 _ fs dirs n _ _ _ e ok some_left l) lt =
      let got = fs_readdir-done disk w w1 dir n fs dirs e ok in
      let after : (fs_readdir disk w dir 16).0 ≡ w1 = ap (λ t. t.0) got in
      let listed : (fs_readdir disk w dir 16).1 ≡ value (ent ∷ es) =
        ap (λ t. t.1) got ∙ ap (λ t. value t) some_left in
      let y = each f x (ent ∷ es) in
      let all : each f x ((ent ∷ es) ++ entries bs) ≡ goes_on y.0 y.1 (entries bs) =
        each-append (ent ∷ es) (entries bs) x in
      elim (Outcome-cases y.1) [
        | inl ok' ↦
            let rest = batches-Iterated w1 w' dir r bs y.0 l (omega (arith, lt)) in
            let run : batches disk f (suc r) w dir x ≡ batches disk f r w1 dir y.0 =
              rw (listed, batches, ok', after) refl in
            subst (λ t. Iterated disk w' dir t (batches disk f (suc r) w dir x))
              (sym (all ∙ ap (λ o. goes_on y.0 o (entries bs)) ok'))
              (subst (λ t. Iterated disk w' dir (each f y.0 (entries bs)) t) (sym run) rest)
        | inr (err, no_more) ↦
            let stopped : batches disk f (suc r) w dir x ≡ some (w1, y.0, failure err) =
              rw (listed, batches, no_more, after) refl in
            subst (λ t. Iterated disk w' dir t (batches disk f (suc r) w dir x))
              (sym (all ∙ ap (λ o. goes_on y.0 o (entries bs)) no_more)) (w1, stopped)
      ]

  -- A directory that can be opened, and whose entries come in batches, none of them empty: with more rounds than
  -- there are batches the iteration ends. It leaves what one loop over all of the entries leaves: if no task
  -- fails, the directory is closed, and the closing decides the result; otherwise the error is that of the loop,
  -- the first of a task.
  pub dir_iter-Iterated :
      (w w0 w' : W) (path : List ℕ) (opened : Request) (n rounds : ℕ) (bs : List (List Dirent))
      (x : X)
      → disk.opendir w path ≡ (w0, opened)
      → opened.result ≡ done n
      → Lists disk opened.ptr w0 bs w'
      → length bs < rounds
      → Iterated disk w' opened.ptr (each f x (entries bs)) (dir_iter disk f rounds w path x)
  unfolding dir_iter fs_opendir resumed on_opendir
  dir_iter-Iterated w w0 w' path opened n rounds bs x e ok l lt =
      let after : (disk.opendir w path).0 ≡ w0 = ap (λ t. t.0) e in
      let got : (disk.opendir w path).1 ≡ opened = ap (λ t. t.1) e in
      let handle : (disk.opendir w path).1.ptr ≡ opened.ptr = ap (λ t. t.1.ptr) e in
      let run : dir_iter disk f rounds w path x ≡ batches disk f rounds w0 opened.ptr x =
        rw (got, ok, on_opendir, dir_iter, after, handle) refl in
      subst (λ t. Iterated disk w' opened.ptr (each f x (entries bs)) t) (sym run)
        (batches-Iterated w0 w' opened.ptr rounds bs x l lt)
