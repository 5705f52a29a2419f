-- ===== src/Transfer/Upload/Examples.antt =====
-- The upload of four bytes in two pieces.
use trctl.Base.{
  ℕ, ◌≡◌, refl, ap, some, none, List, [], ◌∷◌, ◌++◌, ◌==◌, if◌then◌else◌, length, take, drop, arith,
  take-length,
}
use trctl.Util.{none_error, input_error, fnv_offset, fnv1a}
use trctl.Fs.Ops.{Request, done}
use trctl.Fs.Disk.{Disk, value}
use trctl.Async.Storage.{AsyncMap}
use trctl.Async.Storage.Map.{nat_key, find}
use trctl.Transfer.{Slot, chunk, start_transfer, end_transfer}
use trctl.Transfer.Upload.{joined, FileStore, send}
use trctl.Transfer.Upload.Whole.{end_transfer-send}

abbrev request : ℕ → Request
request n = record { result = done n; path = []; ptr = 0 }

-- A disk with one file, its state.
abbrev disk : Disk (List ℕ)
disk = record {
  open_file = λ w path. ([], request 3);
  access = λ w path. (w, request 0);
  close = λ w fh. (w, request 0);
  write = λ w fh offset bytes. (take offset w ++ bytes, request (length bytes));
  read = λ w fh offset size.
      (w, (request (length (take size (drop offset w))), take size (drop offset w)));
  mkdir = λ w path. (w, request 0);
  unlink = λ w path. ([], request 0);
  opendir = λ w path. (w, request 0);
  readdir = λ w dir size. (w, (request 0, []));
  closedir = λ w dir. (w, request 0);
}

abbrev file : List ℕ → ℕ → List ℕ
file w h = w

disk-FileStore : FileStore disk file
disk-FileStore = record {
  appends = λ w h bytes. (
    w ++ bytes,
    request (length bytes),
    length bytes,
    ap (λ t. (t ++ bytes, request (length bytes))) (take-length w),
    refl,
    refl,
  );
  reads = λ w h o. record {
    fs = request (length (take chunk (drop o w)));
    buffer = take chunk (drop o w);
    answer_is = refl;
    result_is = refl;
    bytes_are = take-length (take chunk (drop o w));
  };
  closes = λ w h. (w, request 0, 0, refl, refl);
}

abbrev transfers : AsyncMap ℕ Slot
transfers = record {
  m = (2, 0) ∷ [];
  cnt = λ c. 1;
  item = λ c. record { fh = 1; filesize = 9; written_bytes = 0; path = [] };
  next = 1;
  to_del = [];
  to_erase = none;
  destroy_task = none;
  deleted = [];
  woken = 0;
}

abbrev pieces : List (List ℕ)
pieces = (104 ∷ 105 ∷ 33 ∷ []) ∷ (10 ∷ []) ∷ []

end_transfer-send_example :
    let (w0, m0, deps, started) = start_transfer disk [] transfers [] 7 (97 ∷ []) 4 in
    (started ≡ value tt)
    × ((w1 : List ℕ) × (m1 : AsyncMap ℕ Slot) × (send disk w0 m0 7 0 pieces ≡ some (w1, m1))
        × ((w2 : List ℕ) × (m2 : AsyncMap ℕ Slot) × (end_transfer disk 2 w1 m1 7 5
              ≡ some (
                w2,
                m2,
                value (if fnv1a fnv_offset (joined pieces) == 5 then none_error else input_error),
              ))
            × (m2.m ≡ transfers.m)))
unfolding find
end_transfer-send_example =
    end_transfer-send disk file 2 [] [] transfers [] (97 ∷ []) 7 3 5 (request 3) pieces
      disk-FileStore refl refl refl refl (omega arith) (omega arith)
