-- ===== src/Transfer/Upload/Whole.antt =====
-- The start and the end of a transfer of src/unit/fs_transfer.hpp, and all of it together.
use trctl.Base.{
  ℕ, ◌+◌, ◌*◌, ◌^◌, ◌≤◌, ◌≡◌, refl, subst, sym, ap, ◌∙◌, inl, inr, none, some, List, [], ◌∷◌, ◌++◌,
  ◌==◌, if◌then◌else◌, length, arith, Bool-cases,
}
use trctl.Util.{none_error, input_error, unify, fnv_offset, fnv1a}
use trctl.Fs.Ops.{Request, done, on_open}
use trctl.Fs.Disk.{Disk, value, failure, fs_open, resumed}
use trctl.Async.Storage.{AsyncMap, emplace_at, erase, release}
use trctl.Async.Storage.Map.{nat_key, find, insert, remove, remove-insert}
use trctl.Async.Storage.Entries.{release-entries, emplace_at-entries, erase-entries}
use trctl.Transfer.{Slot, slot, chunk, stored, start, end_slot, start_transfer, end_transfer}
use trctl.Transfer.Hash.{Reads, end_slot-hash}
use trctl.Transfer.Upload.{joined, FileStore, send}
use trctl.Transfer.Upload.Steps.{Holds, known, item-stored, send-Holds}

module _ {W : Type 0} (disk : Disk W) (file : W → ℕ → List ℕ) where
  start-done :
      (w w' : W) (s : Slot) (h : ℕ) (fs : Request)
      → disk.open_file w s.path ≡ (w', fs)
      → fs.result ≡ done h
      → start disk w s ≡ (w', record s { fh = h }, value tt)
  unfolding start fs_open resumed on_open
  start-done w w' s h fs e ok =
      let after : (disk.open_file w s.path).0 ≡ w' = ap (λ t. t.0) e in
      let got : (disk.open_file w s.path).1 ≡ fs = ap (λ t. t.1) e in
      rw (got, ok, on_open, start, after) refl

  start_transfer-Holds :
      (w w' : W) (m : AsyncMap ℕ Slot) (deps path : List ℕ) (id size h : ℕ) (fs : Request)
      → find id m.m ≡ none
      → disk.open_file w path ≡ (w', fs)
      → fs.result ≡ done h
      → file w' h ≡ []
      → (m' : AsyncMap ℕ Slot) × (c : ℕ) × (start_transfer disk w m deps id path size
          ≡ (w', m', deps ++ (c ∷ []), value tt))
        × Holds disk file w' m' m.m id c size []
  unfolding start_transfer slot
  start_transfer-Holds w w' m deps path id size h fs free e ok empty =
      let s = record (slot size path) { fh = h } in
      let made = emplace_at m id (slot size path) in
      let m' = release (stored made.0 made.1 s) made.1 in
      let begun = start-done w w' (slot size path) h fs e ok in
      let same =
        ap (λ f. f made.1) (release-entries (stored made.0 made.1 s) made.1).1
        ∙ item-stored disk file made.0 made.1 s in
      let entries = emplace_at-entries m id (slot size path) in
      let kept = (release-entries (stored made.0 made.1 s) made.1).0 in
      (
        m',
        made.1,
        rw (free, start_transfer)
            (ap (λ t. (t.0, release (stored made.0 made.1 t.1) made.1, deps ++ (made.1 ∷ []), t.2))
              begun),
        record {
          entries_are = kept ∙ entries.0 ∙ ap (λ c. insert id c m.m) (sym entries.1);
          size_is = ap (λ x. x.filesize) same;
          written_is = ap (λ x. x.written_bytes) same;
          text_is = ap (λ x. file w' x.fh) same ∙ empty;
        },
      )

  end_transfer-Holds :
      (rounds : ℕ) (w : W) (m : AsyncMap ℕ Slot) (before : List (ℕ × ℕ)) (id c expected : ℕ)
      (text : List ℕ)
      → FileStore disk file
      → find id before ≡ none
      → length text + chunk ≤ 2 ^ 32
      → length text + chunk ≤ chunk * rounds
      → Holds disk file w m before id c (length text) text
      → (w' : W) × (m' : AsyncMap ℕ Slot) × (end_transfer disk rounds w m id expected
          ≡ some (
            w',
            m',
            value (if fnv1a fnv_offset text == expected then none_error else input_error),
          ))
        × (m'.m ≡ before)
  unfolding end_transfer stored unify
  end_transfer-Holds rounds w m before id c expected text store free small enough h =
      let there = known disk file m before id c free h.entries_are in
      let (w', fs, n, closed, ok) = store.closes w (m.item c).fh in
      let hashed =
        end_slot-hash disk rounds w w' (m.item c) text expected n fs h.size_is h.written_is small
          enough
          (λ o.
            subst (λ t. Reads disk w (m.item c).fh t o) h.text_is (store.reads w (m.item c).fh o))
          closed ok in
      let gone : (s : Slot) → (erase (stored m c s) id).m ≡ before = λ s.
        erase-entries (stored m c s) id c there
        ∙ ap (λ es. remove id es) h.entries_are
        ∙ remove-insert id c before free in
      elim (Bool-cases (fnv1a fnv_offset text == expected)) [
        | inl e ↦
            let result : end_slot disk rounds w (m.item c) expected
                ≡ some (w', record (m.item c) { fh = 0 }, value tt) =
              hashed
              ∙ ap
                  (λ b. some (
                    if b
                    then (w', record (m.item c) { fh = 0 }, value tt)
                    else (w, m.item c, failure input_error)))
                  e in
            (
              w',
              erase (stored m c (record (m.item c) { fh = 0 })) id,
              rw (there, end_transfer, result, e) refl,
              gone _,
            )
        | inr e ↦
            let result : end_slot disk rounds w (m.item c) expected
                ≡ some (w, m.item c, failure input_error) =
              hashed
              ∙ ap
                  (λ b. some (
                    if b
                    then (w', record (m.item c) { fh = 0 }, value tt)
                    else (w, m.item c, failure input_error)))
                  e in
            (w, erase (stored m c (m.item c)) id, rw (there, end_transfer, result, e) refl, gone _)
      ]

  -- A whole upload to a disk that holds what is written. Under an id that no transfer has, a transfer is started,
  -- and an empty file opened for it; then its pieces are sent, one after the other, of the declared size
  -- together, no more than 2^32 - 4096 bytes; then it is ended. The start and every piece succeed, and the end
  -- answers that there is no error if the hash that it was given is that of all the pieces together, and an
  -- error otherwise; either way the transfers known are then those known before. One round for each 4096
  -- bytes, and one more, is enough.
  pub end_transfer-send :
      (rounds : ℕ) (w w' : W) (m : AsyncMap ℕ Slot) (deps path : List ℕ) (id h expected : ℕ)
      (fs : Request) (ps : List (List ℕ))
      → FileStore disk file
      → find id m.m ≡ none
      → disk.open_file w path ≡ (w', fs)
      → fs.result ≡ done h
      → file w' h ≡ []
      → length (joined ps) + chunk ≤ 2 ^ 32
      → length (joined ps) + chunk ≤ chunk * rounds
      → let (w0, m0, deps', started) = start_transfer disk w m deps id path (length (joined ps)) in
        (started ≡ value tt)
        × ((w1 : W) × (m1 : AsyncMap ℕ Slot) × (send disk w0 m0 id 0 ps ≡ some (w1, m1))
            × ((w2 : W) × (m2 : AsyncMap ℕ Slot) × (end_transfer disk rounds w1 m1 id expected
                  ≡ some (
                    w2,
                    m2,
                    value (
                        if fnv1a fnv_offset (joined ps) == expected
                        then none_error
                        else input_error),
                  ))
                × (m2.m ≡ m.m)))
  end_transfer-send rounds w w' m deps path id h expected fs ps store free e ok empty small enough =
      let (m0, c, begun, h0) =
        start_transfer-Holds w w' m deps path id (length (joined ps)) h fs free e ok empty in
      let (w1, m1, sent, h1) =
        send-Holds disk file ps w' m0 m.m id c (length (joined ps)) [] store free
          (omega (arith, small)) (omega arith) h0 in
      let (w2, m2, ended, same) =
        end_transfer-Holds rounds w1 m1 m.m id c expected (joined ps) store free small enough h1 in
      (
        ap (λ t. t.3) begun,
        (w1, m1, ap (λ t. send disk t.0 t.1 id 0 ps) begun ∙ sent, (w2, m2, ended, same)),
      )
