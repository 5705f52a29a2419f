-- ===== src/Unit/Fixture.antt =====
-- A unit that has no folder and runs the task 5, in the work directory "w", for tests.
use trctl.Base.{true, ℕ, ◌+◌, ◌∷◌, none, List, []}
use trctl.Fs.Ops.{Request, done}
use trctl.Fs.Disk.{Disk}
use trctl.Async.Storage.{AsyncMap}
use trctl.Process.Tasks.{Os, proc}
use trctl.Unit.Requests.{UnitCtx, Setting}

abbrev request : Request
request = record { result = done 0; path = []; ptr = 0 }

-- The state of the files and of libuv is how many requests changed it.
abbrev disk : Disk ℕ
disk = record {
  open_file = λ w path. (w + 1, request);
  access = λ w path. (w, request);
  close = λ w fh. (w + 1, request);
  write = λ w fh offset bytes. (w + 1, request);
  read = λ w fh offset size. (w, (request, []));
  mkdir = λ w path. (w + 1, request);
  unlink = λ w path. (w + 1, request);
  opendir = λ w path. (w, request);
  readdir = λ w dir size. (w, (request, []));
  closedir = λ w dir. (w, request);
}

abbrev os : Os ℕ
os = record {
  spawn = λ w c binary cwd args. (w + 1, done 0);
  read_start = λ w c is_err. (w + 1, done 0);
  read_stop = λ w c is_err. w + 1;
  kill = λ w c. w + 1;
}

abbrev pub setting : Setting ℕ
setting = record {
  disk = disk;
  os = os;
  workdir = 119 ∷ [];
  now_ms = 61500;
  buf = [];
  dirs = λ i. record { dir = 0; path = 0 };
  removing = λ w. w;
  replies = [];
  junk = 7;
  avail = 8;
  room = λ n. true;
  rounds = 4;
}

abbrev storage : {K V : Type 0} → List (K × ℕ) → V → AsyncMap K V
storage m v = record {
  m = m;
  cnt = λ c. 1;
  item = λ c. v;
  next = 1;
  to_del = [];
  to_erase = none;
  destroy_task = none;
  deleted = [];
  woken = 0;
}

abbrev pub unit_ctx : UnitCtx ℕ
unit_ctx = record {
  files = record {
    w = 0;
    flds = storage [] (record { path = []; deps = [] });
    transfers = storage [] (record { fh = 0; filesize = 0; written_bytes = 0; path = [] });
  };
  procs = storage ((5, 0) ∷ []) proc;
}
