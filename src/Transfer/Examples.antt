-- ===== src/Transfer/Examples.antt =====
-- Transfers to a disk that holds one open file.
use trctl.Base.{
  ℕ, ◌+◌, ◌-◌, ◌%◌, ◌^◌, ◌≡◌, refl, some, none, List, [], ◌∷◌, length, take, drop, arith,
}
use trctl.Fs.Ops.{Request, done, on_close, on_unlink}
use trctl.Fs.Disk.{Disk, value, fs_close, fs_unlink, resumed}
use trctl.Async.Storage.{AsyncMap}
use trctl.Async.Storage.Map.{nat_key, find}
use trctl.Transfer.{Slot, chunk, end_slot, destroy, transfer_data}
use trctl.Transfer.Hash.{IsReadable, end_slot-endless}
use trctl.Transfer.Bounds.{transfer_data-wraps}

abbrev content : List ℕ
content = 104 ∷ 105 ∷ []

abbrev request : ℕ → Request
request n = record { result = done n; path = []; ptr = 0 }

-- Its state is how many requests changed it.
abbrev disk : Disk ℕ
disk = record {
  open_file = λ w path. (w + 1, request 3);
  access = λ w path. (w, request 0);
  close = λ w fh. (w + 1, request 0);
  write = λ w fh offset bytes. (w + 1, request (length bytes));
  read = λ w fh offset size.
      (w, (request (length (take size (drop offset content))), take size (drop offset content)));
  mkdir = λ w path. (w + 1, request 0);
  unlink = λ w path. (w + 1, request 0);
  opendir = λ w path. (w, request 0);
  readdir = λ w dir size. (w, (request 0, []));
  closedir = λ w dir. (w, request 0);
}

abbrev written : Slot
written = record { fh = 3; filesize = 2; written_bytes = 2; path = [] }

-- A file of 2^32 bytes.
abbrev large : Slot
large = record { fh = 3; filesize = 2 ^ 32; written_bytes = 2 ^ 32; path = [] }

disk-IsReadable : (o : ℕ) → IsReadable disk 0 3 o
disk-IsReadable o = record {
  fs = request (length (take chunk (drop o content)));
  buffer = take chunk (drop o content);
  n = length (take chunk (drop o content));
  answer_is = refl;
  result_is = refl;
}

end_slot-endless_example : end_slot disk 2000000 0 large 7 ≡ none
end_slot-endless_example =
    end_slot-endless disk 2000000 0 large 7 (omega arith) refl disk-IsReadable

-- One transfer, whose slot is core 0.
abbrev transfers : AsyncMap ℕ Slot
transfers = record {
  m = (5, 0) ∷ [];
  cnt = λ c. 1;
  item = λ c. written;
  next = 1;
  to_del = [];
  to_erase = none;
  destroy_task = none;
  deleted = [];
  woken = 0;
}

five_found : find 5 transfers.m ≡ some 0
unfolding find
five_found = refl

abbrev last_offset : ℕ
last_offset = 2 ^ 64 - 1

transfer_data-wraps_example :
    let (w, m, answer) = transfer_data disk 0 transfers 5 last_offset content in
    (w ≡ 1)
    × (answer ≡ value tt)
    × ((m.item 0).written_bytes ≡ ((transfers.item 0).written_bytes + length content) % 2 ^ 64)
transfer_data-wraps_example =
    transfer_data-wraps disk 0 1 transfers 5 last_offset 0 2 content (request 2) five_found
      (omega arith) (omega arith) (omega arith) refl refl

written_destroyed : (destroy disk 0 written).2 ≡ value tt
unfolding destroy fs_close fs_unlink resumed on_close on_unlink
written_destroyed = refl
