-- ===== src/Unit.antt =====
-- src/unit/unit.hpp: how a unit answers a request of the hub.
pub mod Messages
pub mod Lists
pub mod Requests
pub mod Raw
pub mod Loop
pub mod Life
pub mod Fixture
mod Examples
use trctl.Base.{
  ℕ, zero, suc, ◌+◌, ◌*◌, ◌/◌, ◌%◌, min, List, [], ◌∷◌, ◌++◌, ltb, if◌then◌else◌, length, take,
  drop, reverse,
}
use trctl.Str.{str}
use trctl.Unit.Messages.{UnitToHub, Reply}

-- `prepare_reply` at the time `now_ms`, with the `sub` that is then set.
unfoldable pub prepare_reply : ℕ → ℕ → Reply → UnitToHub
prepare_reply now_ms req_id sub = record {
  req_id = req_id;
  sec = now_ms / 1000;
  nsec = now_ms % 1000 * 1000000;
  sub = sub;
}

-- `"--login"`, `"-c"`, `"exec \"$@\""` and `"--"`.
abbrev pub shell_args : List (List ℕ)
shell_args =
    (45 ∷ 45 ∷ 108 ∷ 111 ∷ 103 ∷ 105 ∷ 110 ∷ [])
    ∷ (45 ∷ 99 ∷ [])
    ∷ (101 ∷ 120 ∷ 101 ∷ 99 ∷ 32 ∷ 34 ∷ 36 ∷ 64 ∷ 34 ∷ [])
    ∷ (45 ∷ 45 ∷ [])
    ∷ []

-- The loop that fills the array of 32 arguments from the place `i` on; the last one stays null.
args_from : ℕ → List (List ℕ) → List (List ℕ)
args_from i [] = []
args_from i (p ∷ more) = let rest = args_from (i + 1) more in if ltb i 31 then p ∷ rest else []

pub task_args : List (List ℕ) → List (List ℕ)
unfolding args_from
task_args args = shell_args ++ args_from 4 args

-- The loop of a `list_folders_req`, at some entries in falling order: `count` entries were put at the front of
-- the list `acc`. There is memory for `avail` more.
list_from : List (List ℕ × ℕ) → ℕ → ℕ → ℕ → List (List ℕ) → List (List ℕ)
list_from [] count limit avail acc = acc
list_from (e ∷ es) count limit zero acc = acc
list_from (e ∷ es) count limit (suc avail) acc =
    let rest = list_from es (count + 1) limit avail (str e.0 ∷ acc) in
    if ltb count limit then rest else acc

-- The names in the answer to a `list_folders_req`.
pub list_folders : List (List ℕ × ℕ) → ℕ → ℕ → ℕ → List (List ℕ)
unfolding list_from
list_folders entries offset limit avail =
    list_from (drop (min offset (length entries)) (reverse entries)) 0 limit avail []

-- `snprintf` of paths into 128 characters: 127 and the final 0.
pub path_of : List (List ℕ) → List ℕ → List ℕ
path_of [] path = take 127 path
path_of (part ∷ parts) path = path_of parts (path ++ (47 ∷ part))
