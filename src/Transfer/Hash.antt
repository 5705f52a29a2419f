-- ===== src/Transfer/Hash.antt =====
-- The end of a transfer in src/unit/fs_transfer.hpp: the file is read in chunks, and its hash compared.
use trctl.Base.{
  ℕ, zero, suc, ◌+◌, ◌*◌, ◌%◌, ◌^◌, ◌≤◌, ◌<◌, ◌≡◌, refl, sym, ap, ◌∙◌, true, none, some, List, [],
  ◌∷◌, ◌++◌, ◌==◌, lt→ltb, le→ltb, eq→==, if◌then◌else◌, length, take, drop, arith, dec_lt,
  drop-drop, drop-all, take-append-drop, Bool-cases, inl, inr, bit_xor,
}
use trctl.Util.{input_error, fnv_offset, fnv_prime, fnv1a}
use trctl.Fs.Ops.{Request, done, on_read, on_close}
use trctl.Fs.Disk.{Disk, value, failure, fs_read, fs_close, resumed}
use trctl.Transfer.{Slot, chunk, hash_from, finish, end_slot}

fnv1a-append : (hash : ℕ) (xs ys : List ℕ) → fnv1a hash (xs ++ ys) ≡ fnv1a (fnv1a hash xs) ys
unfolding fnv1a
fnv1a-append hash [] ys = refl
fnv1a-append hash (x ∷ xs) ys = fnv1a-append ((bit_xor hash x * fnv_prime) % 2 ^ 32) xs ys

module _ {W : Type 0} (disk : Disk W) where
  -- Reads of the open file succeed, give as much of `content` as fits into the buffer, and change nothing.
  pub record Reads (w : W) (fh : ℕ) (content : List ℕ) (offset : ℕ) : Type 0 where
    pub fs : Request
    pub buffer : List ℕ
    pub answer_is : disk.read w fh offset chunk ≡ (w, (fs, buffer))
    pub result_is : fs.result ≡ done (length (take chunk (drop offset content)))
    pub bytes_are :
        take (length (take chunk (drop offset content))) buffer ≡ take chunk (drop offset content)

  -- Reads of the open file succeed.
  pub record IsReadable (w : W) (fh offset : ℕ) : Type 0 where
    pub fs : Request
    pub buffer : List ℕ
    pub n : ℕ
    pub answer_is : disk.read w fh offset chunk ≡ (w, (fs, buffer))
    pub result_is : fs.result ≡ done n

  fs_read-Reads :
      (w : W) (fh : ℕ) (content : List ℕ) (offset : ℕ)
      → Reads w fh content offset
      → fs_read disk w fh offset chunk ≡ (w, value (take chunk (drop offset content)))
  unfolding fs_read on_read resumed
  fs_read-Reads w fh content offset r =
      let after : (disk.read w fh offset chunk).0 ≡ w = ap (λ t. t.0) r.answer_is in
      let read_is : (disk.read w fh offset chunk).1.0 ≡ r.fs = ap (λ t. t.1.0) r.answer_is in
      let bytes_is : (disk.read w fh offset chunk).1.1 ≡ r.buffer = ap (λ t. t.1.1) r.answer_is in
      rw (read_is, r.result_is, on_read, bytes_is, after, r.bytes_are) refl

  fs_read-IsReadable :
      (w : W) (fh offset : ℕ)
      → (r : IsReadable w fh offset)
      → fs_read disk w fh offset chunk ≡ (w, value (take r.n r.buffer))
  unfolding fs_read on_read resumed
  fs_read-IsReadable w fh offset r =
      let after : (disk.read w fh offset chunk).0 ≡ w = ap (λ t. t.0) r.answer_is in
      let read_is : (disk.read w fh offset chunk).1.0 ≡ r.fs = ap (λ t. t.1.0) r.answer_is in
      let bytes_is : (disk.read w fh offset chunk).1.1 ≡ r.buffer = ap (λ t. t.1.1) r.answer_is in
      rw (read_is, r.result_is, on_read, bytes_is, after) refl

  fs_close-done :
      (w w' : W) (fh n : ℕ) (fs : Request)
      → disk.close w fh ≡ (w', fs)
      → fs.result ≡ done n
      → fs_close disk w fh ≡ (w', value tt)
  unfolding fs_close on_close resumed
  fs_close-done w w' fh n fs e ok =
      let after : (disk.close w fh).0 ≡ w' = ap (λ t. t.0) e in
      let closed : (disk.close w fh).1 ≡ fs = ap (λ t. t.1) e in
      rw (closed, ok, on_close, after) refl

  -- A round of the loop.
  hash_from-round :
      (rounds : ℕ) (w : W) (s : Slot) (offset hash : ℕ) (bytes : List ℕ)
      → offset < s.filesize
      → fs_read disk w s.fh offset chunk ≡ (w, value bytes)
      → hash_from disk (suc rounds) w s offset hash
        ≡ hash_from disk rounds w s ((offset + chunk) % 2 ^ 32) (fnv1a hash bytes)
  unfolding hash_from
  hash_from-round rounds w s offset hash bytes lt e =
      let after : (fs_read disk w s.fh offset chunk).0 ≡ w = ap (λ t. t.0) e in
      let got : (fs_read disk w s.fh offset chunk).1 ≡ value bytes = ap (λ t. t.1) e in
      rw (lt→ltb offset s.filesize lt, hash_from, got, after) refl

  hash_from-all :
      (rounds : ℕ) (w : W) (s : Slot) (content : List ℕ) (offset hash : ℕ)
      → s.filesize ≡ length content
      → length content + chunk ≤ 2 ^ 32
      → length content + chunk ≤ offset + chunk * rounds
      → offset < length content + chunk
      → ((o : ℕ) → Reads w s.fh content o)
      → hash_from disk rounds w s offset hash ≡ some (w, value (fnv1a hash (drop offset content)))
  unfolding hash_from fnv1a
  hash_from-all zero w s content offset hash size small enough near reads = absurd (omega arith)
  hash_from-all (suc rounds) w s content offset hash size small enough near reads =
      elim (dec_lt offset (length content)) [
        | no past ↦
            rw
              (
                le→ltb offset s.filesize (omega (arith, past)),
                hash_from,
                drop-all offset content (omega (arith, past)),
              )
              refl
        | yes before ↦
            let piece = take chunk (drop offset content) in
            let next : (offset + chunk) % 2 ^ 32 ≡ offset + chunk = omega (arith, before) in
            let rest : fnv1a (fnv1a hash piece) (drop (offset + chunk) content)
                ≡ fnv1a hash (drop offset content) =
              ap (λ t. fnv1a (fnv1a hash piece) t) (sym (drop-drop offset chunk content))
              ∙ sym (fnv1a-append hash piece (drop chunk (drop offset content)))
              ∙ ap (λ t. fnv1a hash t) (take-append-drop chunk (drop offset content)) in
            hash_from-round rounds w s offset hash piece (omega (arith, before))
              (fs_read-Reads w s.fh content offset (reads offset))
            ∙ ap (λ o. hash_from disk rounds w s o (fnv1a hash piece)) next
            ∙ hash_from-all rounds w s content (offset + chunk) (fnv1a hash piece) size small
                (omega arith) (omega (arith, before)) reads
            ∙ ap (λ h. some (w, value h)) rest
      ]

  -- The end of a transfer of which every byte was written: if reads give the content of the file, of no
  -- more than 2^32 - 4096 bytes, and the file can be closed, then one round for each 4096 bytes, and one
  -- more, is enough, and the answer depends on the hash of the content alone. With the expected hash the
  -- file is closed, with another hash it is left open, and the transfer fails.
  pub end_slot-hash :
      (rounds : ℕ) (w w' : W) (s : Slot) (content : List ℕ) (expected n : ℕ) (fs : Request)
      → s.filesize ≡ length content
      → s.written_bytes ≡ length content
      → length content + chunk ≤ 2 ^ 32
      → length content + chunk ≤ chunk * rounds
      → ((o : ℕ) → Reads w s.fh content o)
      → disk.close w s.fh ≡ (w', fs)
      → fs.result ≡ done n
      → end_slot disk rounds w s expected
        ≡ some (
            if fnv1a fnv_offset content == expected
            then (w', record s { fh = 0 }, value tt)
            else (w, s, failure input_error))
  unfolding end_slot finish
  end_slot-hash rounds w w' s content expected n fs size written small enough reads closes ok =
      let full : (s.written_bytes == s.filesize) ≡ true =
        eq→== s.written_bytes s.filesize (omega arith) in
      let hashed : hash_from disk rounds w s 0 fnv_offset
          ≡ some (w, value (fnv1a fnv_offset content)) =
        hash_from-all rounds w s content 0 fnv_offset size small (omega arith) (omega arith)
          reads in
      let closed : fs_close disk w s.fh ≡ (w', value tt) = fs_close-done w w' s.fh n fs closes ok in
      let after : (fs_close disk w s.fh).0 ≡ w' = ap (λ t. t.0) closed in
      let ended : (fs_close disk w s.fh).1 ≡ value tt = ap (λ t. t.1) closed in
      elim (Bool-cases (fnv1a fnv_offset content == expected)) [
        | inl e ↦ rw (full, hashed, end_slot, finish, e, ended, after) refl
        | inr e ↦ rw (full, hashed, end_slot, finish, e) refl
      ]

  hash_from-endless :
      (rounds : ℕ) (w : W) (s : Slot) (k hash : ℕ)
      → 2 ^ 32 < s.filesize + chunk
      → k < 2 ^ 20
      → ((o : ℕ) → IsReadable w s.fh o)
      → hash_from disk rounds w s (chunk * k) hash ≡ none
  unfolding hash_from
  hash_from-endless zero w s k hash big lt reads = refl
  hash_from-endless (suc rounds) w s k hash big lt reads =
      let r = reads (chunk * k) in
      let bytes = take r.n r.buffer in
      let next : (chunk * k + chunk) % 2 ^ 32 ≡ chunk * ((k + 1) % 2 ^ 20) = omega arith in
      hash_from-round rounds w s (chunk * k) hash bytes (omega arith)
        (fs_read-IsReadable w s.fh (chunk * k) r)
      ∙ ap (λ o. hash_from disk rounds w s o (fnv1a hash bytes)) next
      ∙ hash_from-endless rounds w s ((k + 1) % 2 ^ 20) (fnv1a hash bytes) big (omega arith) reads

  -- The end of a transfer of more than 2^32 - 4096 bytes, all of them written, never returns, however many
  -- rounds its loop gets, while reads succeed: its offset has 32 bits, and wraps before it gets there.
  pub end_slot-endless :
      (rounds : ℕ) (w : W) (s : Slot) (expected : ℕ)
      → 2 ^ 32 < s.filesize + chunk
      → s.written_bytes ≡ s.filesize
      → ((o : ℕ) → IsReadable w s.fh o)
      → end_slot disk rounds w s expected ≡ none
  unfolding end_slot
  end_slot-endless rounds w s expected big full reads =
      rw
        (
          eq→== s.written_bytes s.filesize full,
          hash_from-endless rounds w s 0 fnv_offset big (omega arith) reads,
        )
        refl
