-- ===== src/Folder/Create.antt =====
-- Which folders are found after one is created.
use trctl.Base.{
  Bool, Option, true, sym, subst, ℕ, zero, suc, ◌≡◌, ◌<◌, ◌≤◌, refl, ap, ◌∙◌, inl, inr, false, none,
  some, List, [], ◌∷◌, ◌++◌, lt→ltb, if◌then◌else◌, length, arith, Option-cases,
}
use trctl.Str.{str}
use trctl.Str.Path.{Text}
use trctl.Fs.Ops.{Request, done, on_mkdir}
use trctl.Fs.Disk.{Disk, value, fs_mkdir, resumed}
use trctl.Async.Storage.{AsyncMap, emplace}
use trctl.Async.Storage.Map.{find, insert}
use trctl.Async.Storage.Entries.{release-entries, emplace-entries}
use trctl.Folder.{Folder, zeros_to, folder_name, has_slash, joined, add_folder, folder_create}
use trctl.Folder.Names.Search.{
  lookup, of, Ascii, Ascii-Text, IsName, Plain, find_name-lookup, insert-Plain, zeros_to-ended,
}
use trctl.Folder.{returns}
use trctl.Folder.Names.{name_key, same_text, same_text_iff, is_ended, found, missing, find_name}

str-zeros_to : (k : ℕ) (n rest : List ℕ) → Text n → length n < k → str (zeros_to k n ++ rest) ≡ n
unfolding zeros_to str
str-zeros_to zero n rest h lt = absurd (omega arith)
str-zeros_to (suc k) [] rest h lt = refl
str-zeros_to (suc k) (c ∷ cs) rest h lt =
    rw (lt→ltb 0 c h.0, str-zeros_to k cs rest h.1 (omega arith)) refl

pub str-folder_name :
    (n : List ℕ) (junk : ℕ) → Text n → length n ≤ 30 → str (folder_name n junk) ≡ n
unfolding folder_name
str-folder_name n junk h le = str-zeros_to 31 n (junk ∷ []) h (omega arith)

pub lookup-insert :
    (n j k : List ℕ) (c : ℕ) (m : List (List ℕ × ℕ))
    → lookup n m ≡ none
    → str k ≡ n
    → lookup j (insert k c m) ≡ (if same_text n j then some c else lookup j m)
unfolding lookup insert
lookup-insert n j k c [] h e = rw e refl
lookup-insert n j k c ((i, d) ∷ m) h e = ground (
  arith,
  e,
  same_text_iff n j,
  same_text_iff (str i) n,
  same_text_iff (str i) j,
  lookup-insert n j k c m,
)

pub find-lookup :
    (n k : List ℕ) (m : List (List ℕ × ℕ)) → lookup n m ≡ none → str k ≡ n → find k m ≡ none
unfolding lookup find
find-lookup n k [] h e = refl
find-lookup n k ((i, d) ∷ m) h e =
    ground (arith, e, same_text_iff i k, same_text_iff (str i) n, ap str, find-lookup n k m)

pub add_folder-new :
    (flds : AsyncMap (List ℕ) Folder) (key path : List ℕ)
    → find key flds.m ≡ none
    → let flds' = add_folder flds key path in
      (flds'.m ≡ insert key flds.next flds.m) × ((flds'.item flds.next).path ≡ path)
unfolding add_folder
add_folder-new flds key path e =
    let r = emplace-entries flds key (record { path = path; deps = [] }) e in
    let made = emplace flds key (record { path = path; deps = [] }) in
    let kept = release-entries made.0 flds.next in
    rw (r.1, add_folder) (kept.0 ∙ r.0, ap (λ f. (f flds.next).path) kept.1 ∙ ap (λ x. x.path) r.2)

-- The array of an ASCII name of at most 30 characters.
pub folder_name-IsName :
    (n : List ℕ) (junk : ℕ) → Ascii n → length n ≤ 30 → IsName (folder_name n junk)
folder_name-IsName n junk ascii short = record {
  text_of = n;
  junk_of = junk;
  key_is = refl;
  ascii = ascii;
  short = short;
  str_is = str-folder_name n junk (Ascii-Text n ascii) short;
}

folder_name-ended : (n : List ℕ) (junk : ℕ) → length n ≤ 30 → is_ended (folder_name n junk) ≡ true
unfolding folder_name
folder_name-ended n junk short = zeros_to-ended 31 n (junk ∷ []) (omega arith)

-- What is not found by the search is not there.
pub missing-lookup :
    (n : List ℕ) (m : List (List ℕ × ℕ)) → Plain m → find_name n m ≡ missing → lookup n m ≡ none
missing-lookup n m p e = elim (Option-cases (lookup n m)) [
  | inl f ↦ f
  | inr (c, f) ↦ let gone : found c ≡ missing = sym (find_name-lookup n m p ∙ ap of f) ∙ e in cc
]

-- The entries after a name is added, and the search among them.
pub added-Plain :
    (n : List ℕ) (junk : ℕ) (flds : AsyncMap (List ℕ) Folder) (path : List ℕ)
    → Plain flds.m
    → lookup n flds.m ≡ none
    → Ascii n
    → length n ≤ 30
    → Plain (add_folder flds (folder_name n junk) path).m
added-Plain n junk flds path p free ascii short =
    let name = folder_name-IsName n junk ascii short in
    let str_is = str-folder_name n junk (Ascii-Text n ascii) short in
    let new =
      add_folder-new flds (folder_name n junk) path
        (find-lookup n (folder_name n junk) flds.m free str_is) in
    subst (λ m. Plain m) (sym new.0)
      (insert-Plain (folder_name n junk) flds.next flds.m name
        (ap (λ t. lookup t flds.m) str_is ∙ free) p)

of-if :
    (b : Bool) (c : ℕ) (o : Option ℕ) → of (if b then some c else o) ≡ (if b then found c else of o)
of-if true c o = refl
of-if false c o = refl

module _ {W : Type 0} (disk : Disk W) where
  fs_mkdir-done :
      (w w' : W) (path : List ℕ) (fs : Request) (r : ℕ)
      → disk.mkdir w path ≡ (w', fs)
      → fs.result ≡ done r
      → fs_mkdir disk w path ≡ (w', value tt)
  unfolding fs_mkdir on_mkdir resumed
  fs_mkdir-done w w' path fs r e ok =
      let after : (disk.mkdir w path).0 ≡ w' = ap (λ t. t.0) e in
      let made : (disk.mkdir w path).1 ≡ fs = ap (λ t. t.1) e in rw (made, ok, on_mkdir, after) refl

  -- A name that is free, with no slash and not too long, of which the directory can be made.
  created :
      (workdir : List ℕ) (junk r : ℕ) (w w' : W) (flds : AsyncMap (List ℕ) Folder) (n : List ℕ)
      (fs : Request)
      → find_name n flds.m ≡ missing
      → has_slash n ≡ false
      → length n ≤ 30
      → disk.mkdir w (joined workdir (str (folder_name n junk))) ≡ (w', fs)
      → fs.result ≡ done r
      → folder_create disk workdir junk w flds n
        ≡ returns
            (w', add_folder flds (folder_name n junk) (joined workdir (str (folder_name n junk))))
            (value tt)
  unfolding folder_create
  created workdir junk r w w' flds n fs free plain short made ok =
      let call = fs_mkdir-done w w' (joined workdir (str (folder_name n junk))) fs r made ok in
      let after : (fs_mkdir disk w (joined workdir (str (folder_name n junk)))).0 ≡ w' =
        ap (λ t. t.0) call in
      let ended : (fs_mkdir disk w (joined workdir (str (folder_name n junk)))).1 ≡ value tt =
        ap (λ t. t.1) call in
      rw
        (
          free,
          plain,
          lt→ltb (length n) 32 (omega arith),
          folder_name-ended n junk short,
          folder_create,
          ended,
          after,
        )
        refl

  -- If a folder is created under an ASCII name of at most 30 characters that is free and has no slash, where all
  -- folders have such names, in the order of `strcmp`, and the directory can be made, then the request succeeds; the
  -- name is found from then on, at a directory of that name in the work directory, and every other name, of whatever
  -- characters, is found, or not, as before; and all folders still have such names, in order.
  pub folder_create-find :
      (workdir : List ℕ) (junk r : ℕ) (w w' : W) (flds : AsyncMap (List ℕ) Folder) (n : List ℕ)
      (fs : Request)
      → Plain flds.m
      → find_name n flds.m ≡ missing
      → has_slash n ≡ false
      → Ascii n
      → length n ≤ 30
      → disk.mkdir w (joined workdir n) ≡ (w', fs)
      → fs.result ≡ done r
      → (flds' : AsyncMap (List ℕ) Folder) × (folder_create disk workdir junk w flds n
          ≡ returns (w', flds') (value tt))
        × ((j : List ℕ)
            → find_name j flds'.m ≡ (if same_text n j then found flds.next else find_name j flds.m))
        × ((flds'.item flds.next).path ≡ joined workdir n)
        × Plain flds'.m
  folder_create-find workdir junk r w w' flds n fs p free plain ascii short made ok =
      let plainly = str-folder_name n junk (Ascii-Text n ascii) short in
      let made' : disk.mkdir w (joined workdir (str (folder_name n junk))) ≡ (w', fs) =
        ap (λ t. disk.mkdir w (joined workdir t)) plainly ∙ made in
      let path = joined workdir (str (folder_name n junk)) in
      let unknown = missing-lookup n flds.m p free in
      let new =
        add_folder-new flds (folder_name n junk) path
          (find-lookup n (folder_name n junk) flds.m unknown plainly) in
      let flds' = add_folder flds (folder_name n junk) path in
      let kept = added-Plain n junk flds path p unknown ascii short in
      (
        flds',
        created workdir junk r w w' flds n fs free plain short made' ok,
        λ j.
            find_name-lookup j flds'.m kept
            ∙ ap (λ m. of (lookup j m)) new.0
            ∙ ap of (lookup-insert n j (folder_name n junk) flds.next flds.m unknown plainly)
            ∙ of-if (same_text n j) flds.next (lookup j flds.m)
            ∙ ap (λ o. if same_text n j then found flds.next else o)
                (sym (find_name-lookup j flds.m p)),
        new.1 ∙ ap (λ t. joined workdir t) plainly,
        kept,
      )
