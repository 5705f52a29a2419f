-- ===== src/Npb/Fields/RoundTrip.antt =====
-- Strings that are read by the callbacks of src/npb.hpp are those that they would write.
use trctl.Base.{
  ℕ, zero, suc, ◌+◌, ◌≡◌, refl, sym, ap, ◌∙◌, Option, none, some, List, [], ◌∷◌, ◌++◌, length, drop,
  arith, append_assoc, append-nil, map, Option-cases, inl, inr,
}
use trctl.Str.{str}
use trctl.Str.Path.{Text, str-text}
use trctl.Npb.Fields.{
  Nanopb, ostream, istream, zeros, encode_tagged, read_string, encode_strings,
  handle_repeated_string_field,
}

drop-zeros_last : (n : ℕ) → drop n (zeros (suc n)) ≡ 0 ∷ []
unfolding zeros
drop-zeros_last zero = refl
drop-zeros_last (suc n) = drop-zeros_last n

drop-zeros : (n : ℕ) → drop n (zeros (n + 1)) ≡ 0 ∷ []
drop-zeros n =
    let one_more : n + 1 ≡ suc n = omega arith in
    ap (λ k. drop n (zeros k)) one_more ∙ drop-zeros_last n

-- The memory of a string.
abbrev terminated : List ℕ → List ℕ
terminated text = text ++ (0 ∷ [])

str-terminated : (text : List ℕ) → Text text → str (terminated text) ≡ text
str-terminated text h = str-text text [] h

module _ {M S O : Type 0} (pb : Nanopb M S O) where
  -- The stream `s` holds the bytes of `text`, there is memory for it, and it can be read.
  pub record Holds (mem : M) (s : S) (text : List ℕ) : Type 0 where
    pub raw : List ℕ
    pub mem' : M
    pub s' : S
    pub left_is : pb.bytes_left s ≡ length text
    pub allocated : pb.allocate mem (length text + 1) ≡ some (raw, mem')
    pub read : pb.pb_read s (length text) ≡ some (text, s')

  read_string-Holds :
      (mem : M) (s : S) (text : List ℕ)
      → (h : Holds mem s text) → read_string pb mem s ≡ some (text ++ (0 ∷ []), h.mem', h.s')
  unfolding read_string
  read_string-Holds mem s text h =
      rw
        (
          h.left_is,
          h.allocated,
          read_string,
          h.left_is,
          h.read,
          h.left_is,
          drop-zeros (length text),
        )
        refl

  -- Texts that come one by one, each with a node and memory for it.
  pub data Arrive : M → List (S × List ℕ) → ℕ → Type 0 where
    none_left : (mem : M) (node_size : ℕ) → Arrive mem [] node_size
    next :
        (mem mem' : M) (raw : List ℕ) (s : S) (text : List ℕ) (more : List (S × List ℕ))
        (node_size : ℕ)
        → pb.allocate mem node_size ≡ some (raw, mem')
        → (h : Holds mem' s text) → Text text
        → Arrive h.mem' more node_size
        → Arrive mem ((s, text) ∷ more) node_size

  -- The callback for each stream, as long as it returns true.
  unfoldable pub decode_all : ℕ → M → List (S × List ℕ) → List (List ℕ) → Option (List (List ℕ))
  decode_all node_size mem [] field = some field
  decode_all node_size mem ((s, text) ∷ more) field =
      elim (handle_repeated_string_field pb node_size (istream s) mem field) [
        | none ↦ none
        | some r ↦ decode_all node_size r.mem more r.field
      ]

  -- Each text with its tag.
  unfoldable pub encode_each : O → List (List ℕ) → Option O
  encode_each o [] = some o
  encode_each o (text ∷ texts) = elim (pb.pb_encode_tag_for_field o) [
    | none ↦ none
    | some o' ↦ elim (pb.pb_encode_string o' text) [
      | none ↦ none
      | some o'' ↦ encode_each o'' texts
    ]
  ]

  abbrev pub texts : List (S × List ℕ) → List (List ℕ)
  texts = map λ e. e.1

  decode_all-Arrive :
      (node_size : ℕ) (mem : M) (items : List (S × List ℕ)) (field : List (List ℕ))
      → Arrive mem items node_size
      → decode_all node_size mem items field ≡ some (field ++ map terminated (texts items))
  unfolding decode_all handle_repeated_string_field
  decode_all-Arrive node_size mem [] field (none_left _ _) = ap some (sym (append-nil field))
  decode_all-Arrive node_size mem ((s, text) ∷ more) field (next _ mem' raw _ _ _ _ e h t a) =
      rw (e, handle_repeated_string_field, read_string-Holds mem' s text h, decode_all)
        (decode_all-Arrive node_size h.mem' more (field ++ (terminated text ∷ [])) a
          ∙ ap some (append_assoc field (terminated text ∷ []) (map terminated (texts more))))

  encode_strings-terminated :
      (node_size : ℕ) (mem : M) (items : List (S × List ℕ)) (o : O)
      → Arrive mem items node_size
      → encode_strings pb o (map terminated (texts items)) ≡ encode_each o (texts items)
  unfolding encode_strings encode_tagged encode_each
  encode_strings-terminated node_size mem [] o (none_left _ _) = refl
  encode_strings-terminated node_size mem ((s, text) ∷ more) o (next _ mem' raw _ _ _ _ e h t a) =
      let plain = str-terminated text t in
      elim (Option-cases (pb.pb_encode_tag_for_field o)) [
        | inl e1 ↦ rw (e1, encode_strings, encode_tagged) refl
        | inr (o1, e1) ↦ elim (Option-cases (pb.pb_encode_string o1 text)) [
          | inl e2 ↦ rw (e1, encode_strings, encode_tagged, plain, e2) refl
          | inr (o2, e2) ↦
              rw (e1, encode_strings, encode_tagged, plain, e2)
                (encode_strings-terminated node_size h.mem' more o2 a)
        ]
      ]

  -- If texts without a 0 arrive for a repeated field one by one, with memory for each, the callback reads all
  -- of them; and when it writes what it has read, it writes these texts, in order, each with the tag.
  pub handle_repeated_string_field-again :
      (node_size : ℕ) (mem mem2 : M) (items : List (S × List ℕ)) (o : O)
      → Arrive mem items node_size
      → (field : List (List ℕ)) × (decode_all node_size mem items [] ≡ some field)
        × (handle_repeated_string_field pb node_size (ostream o) mem2 field
            ≡ (elim (encode_each o (texts items)) [
              | none ↦ none
              | some o' ↦ some (record { streams = ostream o'; mem = mem2; field = field })
            ]))
  unfolding handle_repeated_string_field
  handle_repeated_string_field-again node_size mem mem2 items o a = (
    map terminated (texts items),
    decode_all-Arrive node_size mem items [] a,
    rw (encode_strings-terminated node_size mem items o a, handle_repeated_string_field) refl,
  )
