-- ===== src/Folder/Names/Search.antt =====
-- The lookup of a folder by its name (src/unit/folder.hpp): where every name is of ASCII characters, the order of
-- the map agrees with `strcmp`, and the search finds what a look at each entry finds.
use trctl.Base.{
  ℕ, suc, zero, ◌<◌, ◌≤◌, ◌≡◌, refl, sym, ap, ◌∙◌, subst, ◌⊎◌, inl, inr, true, false, Option, none,
  some, List, [], ◌∷◌, ◌++◌, if◌then◌else◌, arith, length, All, Bool-cases,
}
use trctl.Str.{str}
use trctl.Str.Path.{Text}
use trctl.Async.Storage.Map.{insert}
use trctl.Folder.{zeros_to, folder_name}
use trctl.Folder.Names.{
  same_text, same_text_iff, signed, less_text, name_key, Order, lesser, equal, greater, strcmp,
  is_ended, Lookup, found, missing, all_after, find_name,
}

-- The first entry with the name.
unfoldable pub lookup : List ℕ → List (List ℕ × ℕ) → Option ℕ
lookup n [] = none
lookup n ((key, c) ∷ m) = let rest = lookup n m in if same_text (str key) n then some c else rest

abbrev pub of : Option ℕ → Lookup
of none = missing
of (some c) = found c

abbrev pub Ascii : List ℕ → Type 0
Ascii = All (λ c. (0 < c) × (c < 128))

pub Ascii-Text : (n : List ℕ) → Ascii n → Text n
Ascii-Text [] h = tt
Ascii-Text (c ∷ cs) h = (h.0.0, Ascii-Text cs h.1)

-- `strcmp` is a strict order.
strcmp-equal : (a b : List ℕ) → strcmp a b ≡ equal → same_text a b ≡ true
unfolding strcmp same_text
strcmp-equal [] [] h = refl
strcmp-equal [] (d ∷ ds) h = cc
strcmp-equal (c ∷ cs) [] h = cc
strcmp-equal (c ∷ cs) (d ∷ ds) h = ground (arith, strcmp-equal cs ds)

strcmp-other : (a b : List ℕ) → same_text a b ≡ true → strcmp a b ≡ equal
unfolding strcmp same_text
strcmp-other [] [] h = refl
strcmp-other [] (d ∷ ds) h = cc
strcmp-other (c ∷ cs) [] h = cc
strcmp-other (c ∷ cs) (d ∷ ds) h = ground (arith, strcmp-other cs ds)

strcmp-flip : (a b : List ℕ) → strcmp a b ≡ greater → strcmp b a ≡ lesser
unfolding strcmp
strcmp-flip [] [] h = cc
strcmp-flip [] (d ∷ ds) h = cc
strcmp-flip (c ∷ cs) [] h = refl
strcmp-flip (c ∷ cs) (d ∷ ds) h = ground (arith, strcmp-flip cs ds)

strcmp-flip' : (a b : List ℕ) → strcmp a b ≡ lesser → strcmp b a ≡ greater
unfolding strcmp
strcmp-flip' [] [] h = cc
strcmp-flip' [] (d ∷ ds) h = refl
strcmp-flip' (c ∷ cs) [] h = cc
strcmp-flip' (c ∷ cs) (d ∷ ds) h = ground (arith, strcmp-flip' cs ds)

strcmp_trans : (a b j : List ℕ) → strcmp a b ≡ lesser → strcmp b j ≡ lesser → strcmp a j ≡ lesser
unfolding strcmp
strcmp_trans [] [] j h k = cc
strcmp_trans [] (d ∷ ds) [] h k = cc
strcmp_trans [] (d ∷ ds) (e ∷ es) h k = refl
strcmp_trans (c ∷ cs) [] j h k = cc
strcmp_trans (c ∷ cs) (d ∷ ds) [] h k = cc
strcmp_trans (c ∷ cs) (d ∷ ds) (e ∷ es) h k = ground (arith, strcmp_trans cs ds es)

-- The keys are padded ASCII names, in the order of `strcmp`.
pub record IsName (key : List ℕ) : Type 0 where
  pub text_of : List ℕ
  pub junk_of : ℕ
  pub key_is : key ≡ folder_name text_of junk_of
  pub ascii : Ascii text_of
  pub short : length text_of ≤ 30
  pub str_is : str key ≡ text_of

abbrev pub Above : List ℕ → List (List ℕ × ℕ) → Type 0
Above t [] = Unit {0}
Above t ((key, c) ∷ m) = (strcmp t (str key) ≡ lesser) × Above t m

abbrev pub Plain : List (List ℕ × ℕ) → Type 0
Plain [] = Unit {0}
Plain ((key, c) ∷ m) = IsName key × Above (str key) m × Plain m

-- The order of the arrays is that of the texts.
padded-less :
    (k : ℕ) (a b rest rest' : List ℕ)
    → Ascii a
    → Ascii b
    → length a < k
    → length b < k
    → strcmp a b ≡ lesser
    → less_text (zeros_to k a ++ rest) (zeros_to k b ++ rest') ≡ true
unfolding strcmp less_text zeros_to signed
padded-less zero a b rest rest' p q x y h = absurd (omega arith)
padded-less (suc k) [] [] rest rest' p q x y h = cc
padded-less (suc k) [] (d ∷ ds) rest rest' p q x y h = ground arith
padded-less (suc k) (c ∷ cs) [] rest rest' p q x y h = cc
padded-less (suc k) (c ∷ cs) (d ∷ ds) rest rest' p q x y h =
    ground (arith, p.0, q.0, padded-less k cs ds rest rest' p.1 q.1)

padded-not_less :
    (k : ℕ) (a b rest rest' : List ℕ)
    → Ascii a
    → Ascii b
    → length a < k
    → length b < k
    → strcmp a b ≡ greater
    → less_text (zeros_to k a ++ rest) (zeros_to k b ++ rest') ≡ false
unfolding strcmp less_text zeros_to signed
padded-not_less zero a b rest rest' p q x y h = absurd (omega arith)
padded-not_less (suc k) [] [] rest rest' p q x y h = cc
padded-not_less (suc k) [] (d ∷ ds) rest rest' p q x y h = cc
padded-not_less (suc k) (c ∷ cs) [] rest rest' p q x y h = ground (arith, p.0)
padded-not_less (suc k) (c ∷ cs) (d ∷ ds) rest rest' p q x y h =
    ground (arith, p.0, q.0, padded-not_less k cs ds rest rest' p.1 q.1)

pub zeros_to-ended :
    (k : ℕ) (n rest : List ℕ) → length n < k → is_ended (zeros_to k n ++ rest) ≡ true
unfolding zeros_to is_ended
zeros_to-ended zero n rest h = absurd (omega arith)
zeros_to-ended (suc k) [] rest h = refl
zeros_to-ended (suc k) (c ∷ cs) rest h = ground (arith, zeros_to-ended k cs rest (omega arith))

IsName-ended : (key : List ℕ) → IsName key → is_ended key ≡ true
unfolding folder_name
IsName-ended key n =
    ap is_ended n.key_is ∙ zeros_to-ended 31 n.text_of (n.junk_of ∷ []) (omega (arith, n.short))

Above-trans : (j a : List ℕ) (m : List (List ℕ × ℕ)) → strcmp j a ≡ lesser → Above a m → Above j m
Above-trans j a [] h above = tt
Above-trans j a ((key, c) ∷ m) h above =
    (strcmp_trans j a (str key) h above.0, Above-trans j a m h above.1)

Above-all_after : (j : List ℕ) (m : List (List ℕ × ℕ)) → Plain m → Above j m → all_after j m ≡ true
unfolding all_after
Above-all_after j [] p above = refl
Above-all_after j ((key, c) ∷ m) p above =
    rw (IsName-ended key p.0, strcmp-flip' j (str key) above.0, all_after)
      (Above-all_after j m p.2 above.1)

no_match : (a b : List ℕ) (o : Order) → strcmp a b ≡ o → (o ≡ equal → ⊥) → same_text a b ≡ false
no_match a b o e differs = elim (Bool-cases (same_text a b)) [
  | inr h ↦ h
  | inl h ↦ absurd (differs (sym e ∙ strcmp-other a b h))
]

Above-lookup : (j : List ℕ) (m : List (List ℕ × ℕ)) → Above j m → lookup j m ≡ none
unfolding lookup
Above-lookup j [] above = refl
Above-lookup j ((key, c) ∷ m) above =
    rw (no_match (str key) j greater (strcmp-flip' j (str key) above.0) (λ e. cc), lookup)
      (Above-lookup j m above.1)

Order-cases : (o : Order) → (o ≡ lesser) ⊎ (o ≡ equal) ⊎ (o ≡ greater)
Order-cases lesser = inl refl
Order-cases equal = inr (inl refl)
Order-cases greater = inr (inr refl)

-- Among plain names the search finds what a look at each entry finds.
pub find_name-lookup :
    (j : List ℕ) (m : List (List ℕ × ℕ)) → Plain m → find_name j m ≡ of (lookup j m)
unfolding find_name lookup
find_name-lookup j [] p = refl
find_name-lookup j ((key, c) ∷ m) p = elim (Order-cases (strcmp (str key) j)) [
  | inl less ↦
      rw (IsName-ended key p.0, less, no_match (str key) j lesser less (λ e. cc), find_name, lookup)
        (find_name-lookup j m p.2)
  | inr (inl same) ↦
      let match = strcmp-equal (str key) j same in
      let here : str key ≡ j = (same_text_iff (str key) j).0 match in
      let after = Above-all_after j m p.2 (subst (λ t. Above t m) here p.1) in
      rw (IsName-ended key p.0, same, match, after, find_name, lookup) refl
  | inr (inr more) ↦
      let above = Above-trans j (str key) m (strcmp-flip (str key) j more) p.1 in
      rw
        (
          IsName-ended key p.0,
          more,
          no_match (str key) j greater more (λ e. cc),
          Above-all_after j m p.2 above,
          Above-lookup j m above,
          find_name,
          lookup,
        )
        refl
]

less_text-is :
    (a b : List ℕ)
    → IsName a
    → IsName b
    → ((strcmp (str a) (str b) ≡ lesser → less_text a b ≡ true)
        × (strcmp (str a) (str b) ≡ greater → less_text a b ≡ false))
unfolding folder_name
less_text-is a b x y =
    let texts : (o : Order) → strcmp (str a) (str b) ≡ o → strcmp x.text_of y.text_of ≡ o = λ o e.
      sym (ap (λ t. strcmp t (str b)) x.str_is ∙ ap (λ t. strcmp x.text_of t) y.str_is) ∙ e in
    (
      λ e.
          ap (λ t. less_text t b) x.key_is
          ∙ ap (λ t. less_text (folder_name x.text_of x.junk_of) t) y.key_is
          ∙ padded-less 31 x.text_of y.text_of (x.junk_of ∷ []) (y.junk_of ∷ []) x.ascii y.ascii
              (omega (arith, x.short)) (omega (arith, y.short)) (texts lesser e),
      λ e.
          ap (λ t. less_text t b) x.key_is
          ∙ ap (λ t. less_text (folder_name x.text_of x.junk_of) t) y.key_is
          ∙ padded-not_less 31 x.text_of y.text_of (x.junk_of ∷ []) (y.junk_of ∷ []) x.ascii y.ascii
              (omega (arith, x.short)) (omega (arith, y.short)) (texts greater e),
    )

Above-insert :
    (t k : List ℕ) (c : ℕ) (m : List (List ℕ × ℕ))
    → strcmp t (str k) ≡ lesser
    → Above t m
    → Above t (insert k c m)
unfolding insert
Above-insert t k c [] h above = (h, tt)
Above-insert t k c ((i, d) ∷ m) h above = elim (Bool-cases (less_text i k)) [
  | inl e ↦ rw (e, insert) (above.0, Above-insert t k c m h above.1)
  | inr e ↦ rw (e, insert) (h, above)
]

-- A new plain name goes to its place in the order.
pub insert-Plain :
    (k : List ℕ) (c : ℕ) (m : List (List ℕ × ℕ))
    → IsName k
    → lookup (str k) m ≡ none
    → Plain m
    → Plain (insert k c m)
unfolding insert lookup
insert-Plain k c [] n free p = (n, tt, tt)
insert-Plain k c ((i, d) ∷ m) n free p = elim (Order-cases (strcmp (str i) (str k))) [
  | inl less ↦
      let rest : lookup (str k) m ≡ none =
        ground (arith, no_match (str i) (str k) lesser less (λ e. cc)) in
      rw ((less_text-is i k p.0 n).0 less, insert)
        (p.0, Above-insert (str i) k c m less p.1, insert-Plain k c m n rest p.2)
  | inr (inl same) ↦
      let match = strcmp-equal (str i) (str k) same in
      let gone : some d ≡ none =
        sym (ap (λ b. if b then some d else lookup (str k) m) match) ∙ free in
      cc
  | inr (inr more) ↦
      let below = strcmp-flip (str i) (str k) more in
      rw ((less_text-is i k p.0 n).1 more, insert)
        (n, (below, Above-trans (str k) (str i) m below p.1), p)
]
