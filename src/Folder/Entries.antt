-- ===== src/Folder/Entries.antt =====
-- The tasks that `folder_init` runs on the entries of the work directory, src/unit/folder.hpp.
use trctl.Base.{
  ℕ, ◌≡◌, ◌≤◌, refl, ap, ◌∙◌, Bool, true, false, ◌||◌, Option, none, some, List, [], ◌∷◌, lt→ltb,
  if◌then◌else◌, length, arith,
}
use trctl.Str.{str, Buffer, append}
use trctl.Str.Path.{Text}
use trctl.Fs.Disk.{Dirent, DirentType, dirent_dir, dirent_file, dirent_other, value}
use trctl.Fs.Iter.{each}
use trctl.Async.Storage.{AsyncMap}
use trctl.Folder.{Folder, folder_name, add_folder, load_entry}
use trctl.Folder.Names.{name_key, same_text, same_text_iff}
use trctl.Folder.Names.Search.{lookup, Ascii, Ascii-Text, Plain}
use trctl.Folder.Create.{str-folder_name, lookup-insert, find-lookup, add_folder-new, added-Plain}

abbrev pub is_found : Option ℕ → Bool
is_found none = false
is_found (some c) = true

-- Some directory among the entries has the name `j`.
abbrev pub named : List ℕ → List Dirent → Bool
named j [] = false
named j (e ∷ es) = elim e.dirent_type [
  | dirent_dir ↦ (same_text e.name j) || named j es
  | dirent_file ↦ named j es
  | dirent_other ↦ named j es
]

-- No directory among the entries has a name of more than 30 characters, one that another has, or one that
-- is found already.
abbrev pub Loadable : List (List ℕ × ℕ) → List Dirent → Type 0
Loadable m [] = Unit {0}
Loadable m (e ∷ es) =
    (elim e.dirent_type [
      | dirent_dir ↦
          (lookup e.name m ≡ none) × Ascii e.name × (length e.name ≤ 30) × (named e.name es ≡ false)
      | dirent_file ↦ Unit {0}
      | dirent_other ↦ Unit {0}
    ])
    × Loadable m es

found_or :
    (b : Bool) (c : ℕ) (o o' : Option ℕ) (more : Bool)
    → o' ≡ (if b then some c else o)
    → (is_found o' || more) ≡ (is_found o || (b || more))
found_or true c none o' more e = rw e refl
found_or true c (some d) o' more e = rw e refl
found_or false c none o' more e = rw e refl
found_or false c (some d) o' more e = rw e refl

-- What the task does for a directory.
load_entry-dir :
    (e junk : ℕ) (buf : Buffer) (flds : AsyncMap (List ℕ) Folder) (n : List ℕ)
    → lookup n flds.m ≡ none
    → Text n
    → length n ≤ 30
    → (buf' : Buffer) × (path : List ℕ) × (load_entry e junk
          (buf, flds)
          (record { name = n; dirent_type = dirent_dir })
        ≡ ((buf', add_folder flds (folder_name n junk) path), value tt))
unfolding load_entry
load_entry-dir e junk buf flds n free text short =
    let (buf1, slash_end) = append buf e (47 ∷ []) in
    let (buf2, name_end) = append buf1 slash_end n in
    let unknown =
      find-lookup n (folder_name n junk) flds.m free (str-folder_name n junk text short) in
    (buf2, str buf2, rw (lt→ltb (length n) 32 (omega (arith, short)), load_entry, unknown) refl)

lookup-added :
    (junk : ℕ) (flds : AsyncMap (List ℕ) Folder) (n path j : List ℕ)
    → lookup n flds.m ≡ none
    → Text n
    → length n ≤ 30
    → lookup j (add_folder flds (folder_name n junk) path).m
      ≡ (if same_text n j then some flds.next else lookup j flds.m)
lookup-added junk flds n path j free text short =
    let plainly = str-folder_name n junk text short in
    ap (λ t. lookup j t)
      (add_folder-new flds (folder_name n junk) path
        (find-lookup n (folder_name n junk) flds.m free plainly)).0
    ∙ lookup-insert n j (folder_name n junk) flds.next flds.m free plainly

-- The entries `es` can all be loaded, from any state.
abbrev pub Loads : ℕ → ℕ → List Dirent → Type 0
Loads e junk es =
    (buf : Buffer) (flds : AsyncMap (List ℕ) Folder)
    → Plain flds.m
    → Loadable flds.m es
    → (buf' : Buffer) × (flds' : AsyncMap (List ℕ) Folder) × (each (load_entry e junk) (buf, flds)
          es
        ≡ ((buf', flds'), value tt))
      × ((j : List ℕ) → is_found (lookup j flds'.m) ≡ (is_found (lookup j flds.m) || named j es))
      × Plain flds'.m

same_text-sym : (n j : List ℕ) → same_text j n ≡ false → same_text n j ≡ false
same_text-sym n j h = ground (arith, same_text_iff n j, same_text_iff j n)

-- More folders are found, but none that an entry still has the name of.
Loadable-cons :
    (n : List ℕ) (m m' : List (List ℕ × ℕ)) (c : ℕ) (k : List ℕ) (d : DirentType) (es : List Dirent)
    → ((j : List ℕ) → lookup j m' ≡ (if same_text n j then some c else lookup j m))
    → named n ((record { name = k; dirent_type = d }) ∷ es) ≡ false
    → Loadable m ((record { name = k; dirent_type = d }) ∷ es)
    → (named n es ≡ false → Loadable m' es)
    → Loadable m' ((record { name = k; dirent_type = d }) ∷ es)
Loadable-cons n m m' c k dirent_file es same other h rest = (tt, rest other)
Loadable-cons n m m' c k dirent_other es same other h rest = (tt, rest other)
Loadable-cons n m m' c k dirent_dir es same other h rest =
    let (free, text, short, once) = h.0 in
    let differs : same_text k n ≡ false = ground arith in
    let others : named n es ≡ false = ground arith in
    (
      (
        same k ∙ ap (λ b. if b then some c else lookup k m) (same_text-sym n k differs) ∙ free,
        text,
        short,
        once,
      ),
      rest others,
    )

Loadable-more :
    (n : List ℕ) (m m' : List (List ℕ × ℕ)) (c : ℕ) (es : List Dirent)
    → ((j : List ℕ) → lookup j m' ≡ (if same_text n j then some c else lookup j m))
    → named n es ≡ false
    → Loadable m es
    → Loadable m' es
Loadable-more n m m' c [] same other h = tt
Loadable-more n m m' c (e ∷ es) same other h =
    Loadable-cons n m m' c e.name e.dirent_type es same other h
      (λ others. Loadable-more n m m' c es same others h.1)

each-after :
    (e junk : ℕ) (buf buf' : Buffer) (flds flds' : AsyncMap (List ℕ) Folder) (ent : Dirent)
    (es : List Dirent)
    → load_entry e junk (buf, flds) ent ≡ ((buf', flds'), value tt)
    → each (load_entry e junk) (buf, flds) (ent ∷ es) ≡ each (load_entry e junk) (buf', flds') es
unfolding each
each-after e junk buf buf' flds flds' ent es step =
    let ok : (load_entry e junk (buf, flds) ent).1 ≡ value tt = ap (λ t. t.1) step in
    let after : (load_entry e junk (buf, flds) ent).0 ≡ (buf', flds') = ap (λ t. t.0) step in
    rw (ok, each, after) refl

load_entry-skips :
    (e junk : ℕ) (buf : Buffer) (flds : AsyncMap (List ℕ) Folder) (n : List ℕ)
    → (load_entry e junk (buf, flds) (record { name = n; dirent_type = dirent_file })
        ≡ ((buf, flds), value tt))
      × (load_entry e junk (buf, flds) (record { name = n; dirent_type = dirent_other })
          ≡ ((buf, flds), value tt))
unfolding load_entry
load_entry-skips e junk buf flds n = (refl, refl)

each-step :
    (e junk : ℕ) (n : List ℕ) (d : DirentType) (es : List Dirent)
    → Loads e junk es
    → Loads e junk ((record { name = n; dirent_type = d }) ∷ es)
each-step e junk n dirent_file es rest buf flds p h =
    let (buf', flds', run, finds, plain) = rest buf flds p h.1 in
    (
      buf',
      flds',
      each-after e junk buf buf flds flds _ es (load_entry-skips e junk buf flds n).0 ∙ run,
      finds,
      plain,
    )
each-step e junk n dirent_other es rest buf flds p h =
    let (buf', flds', run, finds, plain) = rest buf flds p h.1 in
    (
      buf',
      flds',
      each-after e junk buf buf flds flds _ es (load_entry-skips e junk buf flds n).1 ∙ run,
      finds,
      plain,
    )
each-step e junk n dirent_dir es rest buf flds p h =
    let (free, ascii, short, once) = h.0 in
    let text = Ascii-Text n ascii in
    let (buf1, path, step) = load_entry-dir e junk buf flds n free text short in
    let flds1 = add_folder flds (folder_name n junk) path in
    let new : (j : List ℕ)
        → lookup j flds1.m ≡ (if same_text n j then some flds.next else lookup j flds.m) =
      λ j. lookup-added junk flds n path j free text short in
    let (buf', flds', run, finds, plain) =
      rest buf1 flds1 (added-Plain n junk flds path p free ascii short)
        (Loadable-more n flds.m flds1.m flds.next es new once h.1) in
    (
      buf',
      flds',
      each-after e junk buf buf1 flds flds1 _ es step ∙ run,
      λ j.
          finds j
          ∙ found_or (same_text n j) flds.next (lookup j flds.m) (lookup j flds1.m) (named j es)
              (new j),
      plain,
    )

pub each-Loads : (e junk : ℕ) (es : List Dirent) → Loads e junk es
unfolding each
each-Loads e junk [] buf flds p h = (buf, flds, refl, (λ j. ground arith), p)
each-Loads e junk (ent ∷ es) buf flds p h =
    each-step e junk ent.name ent.dirent_type es (each-Loads e junk es) buf flds p h
