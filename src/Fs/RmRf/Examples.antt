-- ===== src/Fs/RmRf/Examples.antt =====
-- The removal of a directory "a/" with a file "f" and an empty directory "d".
use trctl.Base.{ℕ, ◌≡◌, refl, List, [], ◌∷◌, arith}
use trctl.Fs.RmRf.{
  RmRf, opendir, start, succeeded, answer, on_opendir, on_readdir, on_entry, descend, incr_entry,
  on_unlink, on_closedir, on_rmdir, decr_entry, do_readdir,
}
use trctl.Str.Path.{Holds}
use trctl.Fs.RmRf.Tree.{Items, nothing, file, dir, ok, replies, requests, Fits}
use trctl.Fs.RmRf.Tree.Order.{start-walk}
use trctl.Fs.RmRf.Balance.{run, calls, opens, closes, removals, start-balance}

abbrev removal : RmRf
removal = record {
  buf = 97 ∷ 47 ∷ 0 ∷ 0 ∷ 0 ∷ 0 ∷ [];
  path = 2;
  dirs = λ i. record { dir = 0; path = 0 };
  size = 32;
  p = 0;
}

-- The tree, as libuv lists it.
abbrev items : Items
items = file (102 ∷ []) (dir 2000 (100 ∷ []) nothing nothing)

removed : run (start removal) (ok 1000 ∷ replies items) ≡ succeeded
unfolding run start answer on_opendir on_readdir on_entry descend incr_entry on_unlink on_closedir
    on_rmdir decr_entry do_readdir
removed = refl

start-balance_example :
    (removals (calls (start removal) (ok 1000 ∷ replies items))
      ≡ opens (calls (start removal) (ok 1000 ∷ replies items)))
    × (closes (calls (start removal) (ok 1000 ∷ replies items))
        ≡ opens (calls (start removal) (ok 1000 ∷ replies items)))
start-balance_example = start-balance removal (ok 1000 ∷ replies items) removed

-- The text "a/", which ends with a slash.
abbrev text : List ℕ
text = 97 ∷ 47 ∷ []

removal-Holds : Holds removal.buf text 6
removal-Holds = record {
  rest = 0 ∷ 0 ∷ 0 ∷ [];
  buffer_is = refl;
  text = (omega arith, (omega arith, tt));
  size_is = refl;
}

-- A file "a/f", and a directory "a/d/".
items-Fits : Fits 32 6 0 text items
items-Fits = ((omega arith, tt), omega arith, ((omega arith, tt), omega arith, omega arith, tt, tt))

start-walk_example :
    (run (start removal) (ok 1000 ∷ replies items) ≡ succeeded)
    × (calls (start removal) (ok 1000 ∷ replies items) ≡ opendir text ∷ requests 1000 text items)
start-walk_example =
    start-walk removal text 1000 6 items removal-Holds refl (omega arith) items-Fits
