-- ===== src/Fs/RmRf/Slash.antt =====
-- The slash that the constructor of `_fs_rm_rf` appends to the path.
use trctl.Base.{
  ℕ, zero, suc, ◌+◌, ◌-◌, ◌<◌, ◌≡◌, refl, ap, ◌∙◌, List, [], ◌∷◌, ◌++◌, arith, length, take, get_or,
  get_or-append,
}
use trctl.Str.{Buffer, end_char}
use trctl.Str.Path.{Holds, append-Holds}
use trctl.Fs.RmRf.{Entry, construct, slash}

end_char-Holds :
    (buf : Buffer) (t : List ℕ) (size : ℕ) → Holds buf t size → end_char buf (length t) ≡ 0
unfolding end_char
end_char-Holds buf t size h =
    ap (λ b. get_or b (length t) 0) h.buffer_is ∙ get_or-append t 0 h.rest (length t) 0 refl

take-one : (n : ℕ) → 0 < n → take n slash ≡ slash
take-one zero h = absurd (omega arith)
take-one (suc zero) h = refl
take-one (suc (suc n)) h = refl

-- A path that leaves room for a slash gets one, also if it ends with a slash already: the test looks at the 0
-- that ends the text.
pub construct-Holds :
    (buf : Buffer) (t : List ℕ) (size n : ℕ) (dirs : ℕ → Entry)
    → Holds buf t size
    → length t + 1 < size
    → Holds (construct buf (length t) dirs n).buf (t ++ (47 ∷ [])) size
      × ((construct buf (length t) dirs n).path ≡ length (t ++ (47 ∷ [])))
unfolding construct
construct-Holds buf t size n dirs h fits =
    let kept : take (size - length t - 1) slash ≡ slash =
      take-one (size - length t - 1) (omega arith) in
    let appended = append-Holds buf t slash size h (omega arith, tt) in
    rw (end_char-Holds buf t size h) (rw kept at appended)
