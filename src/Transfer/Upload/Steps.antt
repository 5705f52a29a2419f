-- ===== src/Transfer/Upload/Steps.antt =====
-- The pieces of a transfer of src/unit/fs_transfer.hpp.
use trctl.Base.{
  ℕ, ◌+◌, ◌^◌, ◌≤◌, ◌<◌, ◌≡◌, refl, subst, sym, ap, ◌∙◌, none, some, List, [], ◌∷◌, ◌++◌, eq→==,
  if◌then◌else◌, length, arith, append-nil, append_assoc, length-append,
}
use trctl.Fs.Disk.{Disk, value}
use trctl.Async.Storage.{AsyncMap}
use trctl.Async.Storage.Map.{nat_key, find, insert, find-insert}
use trctl.Transfer.{Slot, stored, transfer_data}
use trctl.Transfer.Bounds.{counted, write-done, transfer_data-passes}
use trctl.Transfer.Upload.{joined, FileStore, send}

module _ {W : Type 0} (disk : Disk W) (file : W → ℕ → List ℕ) where
  -- The transfer `id` of `size` bytes, in the core `c`, has written `text`; `before` are the other transfers.
  pub record Holds (w : W) (m : AsyncMap ℕ Slot) (before : List (ℕ × ℕ)) (id c size : ℕ)
      (text : List ℕ) : Type 0 where
    pub entries_are : m.m ≡ insert id c before
    pub size_is : (m.item c).filesize ≡ size
    pub written_is : (m.item c).written_bytes ≡ length text
    pub text_is : file w (m.item c).fh ≡ text

  pub known :
      (m : AsyncMap ℕ Slot) (before : List (ℕ × ℕ)) (id c : ℕ)
      → find id before ≡ none
      → m.m ≡ insert id c before
      → find id m.m ≡ some c
  known m before id c free e =
      ap (λ es. find id es) e
      ∙ find-insert id id c before free
      ∙ ap (λ x. if x then some c else find id before) (eq→== id id refl)

  pub item-stored : (m : AsyncMap ℕ Slot) (c : ℕ) (s : Slot) → (stored m c s).item c ≡ s
  unfolding stored
  item-stored m c s = ap (λ b. if b then s else m.item c) (eq→== c c refl)

  transfer_data-Holds :
      (w : W) (m : AsyncMap ℕ Slot) (before : List (ℕ × ℕ)) (id c size : ℕ) (text p : List ℕ)
      → FileStore disk file
      → find id before ≡ none
      → size < 2 ^ 64
      → length text + length p ≤ size
      → Holds w m before id c size text
      → (w' : W) × (m' : AsyncMap ℕ Slot) × (transfer_data disk w m id (length text) p
          ≡ (w', m', value tt))
        × Holds w' m' before id c size (text ++ p)
  unfolding stored
  transfer_data-Holds w m before id c size text p store free small fits h =
      let (w', fs, n, wrote, ok, more) = store.appends w (m.item c).fh p in
      let wrote' : disk.write w (m.item c).fh (length text) p ≡ (w', fs) =
        ap (λ t. disk.write w (m.item c).fh (length t) p) (sym h.text_is) ∙ wrote in
      let s = counted disk (m.item c) p in
      let same : (stored m c s).item c ≡ s = item-stored m c s in
      (
        w',
        stored m c s,
        transfer_data-passes disk w w' m id (length text) c p s
            (known m before id c free h.entries_are) (omega (arith, h.size_is, small, fits))
            (write-done disk w w' (m.item c) (length text) n p fs wrote' ok),
        record {
          entries_are = h.entries_are;
          size_is = ap (λ x. x.filesize) same ∙ h.size_is;
          written_is =
              ap (λ x. x.written_bytes) same
              ∙ omega (arith, h.written_is, small, fits, length-append text p);
          text_is = ap (λ x. file w' x.fh) same ∙ more ∙ ap (λ t. t ++ p) h.text_is;
        },
      )

  pub send-Holds :
      (ps : List (List ℕ)) (w : W) (m : AsyncMap ℕ Slot) (before : List (ℕ × ℕ)) (id c size : ℕ)
      (text : List ℕ)
      → FileStore disk file
      → find id before ≡ none
      → size < 2 ^ 64
      → length text + length (joined ps) ≤ size
      → Holds w m before id c size text
      → (w' : W) × (m' : AsyncMap ℕ Slot) × (send disk w m id (length text) ps ≡ some (w', m'))
        × Holds w' m' before id c size (text ++ joined ps)
  unfolding send
  send-Holds [] w m before id c size text store free small fits h =
      (w, m, refl, subst (λ t. Holds w m before id c size t) (sym (append-nil text)) h)
  send-Holds (p ∷ ps) w m before id c size text store free small fits h =
      let room = length-append p (joined ps) in
      let (w1, m1, sent, h1) =
        transfer_data-Holds w m before id c size text p store free small (omega (arith, fits, room))
          h in
      let next : length text + length p ≡ length (text ++ p) =
        omega (arith, length-append text p) in
      let (w2, m2, rest, h2) =
        send-Holds ps w1 m1 before id c size (text ++ p) store free small
          (omega (arith, fits, room, length-append text p)) h1 in
      let answer : (transfer_data disk w m id (length text) p).2 ≡ value tt = ap (λ t. t.2) sent in
      let world : (transfer_data disk w m id (length text) p).0 ≡ w1 = ap (λ t. t.0) sent in
      let slots : (transfer_data disk w m id (length text) p).1 ≡ m1 = ap (λ t. t.1) sent in
      (
        w2,
        m2,
        rw (answer, send, world, slots) (ap (λ o. send disk w1 m1 id o ps) next ∙ rest),
        subst (λ t. Holds w2 m2 before id c size t) (append_assoc text p (joined ps)) h2,
      )
