-- ===== src/Fs/RmRf/Balance.antt =====
-- The requests of a whole run of `_fs_rm_rf`.
use trctl.Base.{ℕ, suc, ◌+◌, ◌≡◌, refl, List, [], ◌∷◌, arith}
use trctl.Fs.RmRf.{
  RmRf, Call, opendir, readdir, unlink, closedir, rmdir, Reply, Next, waits, succeeded, ended,
  crashed, start, answer, on_opendir, on_entry, descend, on_readdir, on_unlink, on_closedir,
  on_rmdir, incr_entry, decr_entry, do_readdir,
}

-- libuv answers as long as a request is under way.
unfoldable pub run : Next → List Reply → Next
run (waits s c) [] = waits s c
run (waits s c) (fs ∷ more) = run (answer s c fs) more
run succeeded more = succeeded
run (ended e) more = ended e
run crashed more = crashed

-- The requests of a run, in order.
unfoldable pub calls : Next → List Reply → List Call
calls (waits s c) [] = c ∷ []
calls (waits s c) (fs ∷ more) = c ∷ calls (answer s c fs) more
calls succeeded more = []
calls (ended e) more = []
calls crashed more = []

abbrev pub opens : List Call → ℕ
opens [] = 0
opens (opendir path ∷ cs) = suc (opens cs)
opens (readdir dir ∷ cs) = opens cs
opens (unlink path ∷ cs) = opens cs
opens (closedir dir ∷ cs) = opens cs
opens (rmdir path ∷ cs) = opens cs

abbrev pub closes : List Call → ℕ
closes [] = 0
closes (opendir path ∷ cs) = closes cs
closes (readdir dir ∷ cs) = closes cs
closes (unlink path ∷ cs) = closes cs
closes (closedir dir ∷ cs) = suc (closes cs)
closes (rmdir path ∷ cs) = closes cs

abbrev pub removals : List Call → ℕ
removals [] = 0
removals (opendir path ∷ cs) = removals cs
removals (readdir dir ∷ cs) = removals cs
removals (unlink path ∷ cs) = removals cs
removals (closedir dir ∷ cs) = removals cs
removals (rmdir path ∷ cs) = suc (removals cs)

-- How many more directories are to be removed than opened, from here to success.
abbrev due : Next → ℕ
due (waits s (opendir path)) = s.p
due (waits s (readdir dir)) = suc s.p
due (waits s (unlink path)) = suc s.p
due (waits s (closedir dir)) = suc s.p
due (waits s (rmdir path)) = suc s.p
due succeeded = 0
due (ended e) = 0
due crashed = 0

-- And how many more are to be closed.
abbrev due_closes : Next → ℕ
due_closes (waits s (opendir path)) = s.p
due_closes (waits s (readdir dir)) = suc s.p
due_closes (waits s (unlink path)) = suc s.p
due_closes (waits s (closedir dir)) = suc s.p
due_closes (waits s (rmdir path)) = s.p
due_closes succeeded = 0
due_closes (ended e) = 0
due_closes crashed = 0

-- The run has not failed.
abbrev IsAlive : Next → Type 0
IsAlive (waits s c) = Unit {0}
IsAlive succeeded = Unit {0}
IsAlive (ended e) = ⊥
IsAlive crashed = ⊥

-- The counts over the request `c`, and over what follows it.
abbrev Kept : RmRf → Call → Next → Type 0
Kept s c n =
    (removals (c ∷ []) + due n ≡ opens (c ∷ []) + due (waits s c))
    × (closes (c ∷ []) + due_closes n ≡ opens (c ∷ []) + due_closes (waits s c))

on_opendir-Kept :
    (s : RmRf) (path : List ℕ) (fs : Reply)
    → IsAlive (on_opendir s fs)
    → Kept s (opendir path) (on_opendir s fs)
unfolding on_opendir do_readdir
on_opendir-Kept s path fs h = (ground arith, ground arith)

on_readdir-Kept :
    (s : RmRf) (dir : ℕ) (fs : Reply)
    → IsAlive (on_readdir s fs)
    → Kept s (readdir dir) (on_readdir s fs)
unfolding on_readdir on_entry descend incr_entry
on_readdir-Kept s dir fs h = (ground arith, ground arith)

on_unlink-Kept :
    (s : RmRf) (path : List ℕ) (fs : Reply)
    → IsAlive (on_unlink s fs)
    → Kept s (unlink path) (on_unlink s fs)
unfolding on_unlink do_readdir
on_unlink-Kept s path fs h = (ground arith, ground arith)

on_closedir-Kept :
    (s : RmRf) (dir : ℕ) (fs : Reply)
    → IsAlive (on_closedir s fs)
    → Kept s (closedir dir) (on_closedir s fs)
unfolding on_closedir
on_closedir-Kept s dir fs h = (ground arith, ground arith)

on_rmdir-Kept :
    (s : RmRf) (path : List ℕ) (fs : Reply)
    → IsAlive (on_rmdir s fs)
    → Kept s (rmdir path) (on_rmdir s fs)
unfolding on_rmdir decr_entry do_readdir
on_rmdir-Kept s path fs h = (ground arith, ground arith)

answer-Kept :
    (s : RmRf) (c : Call) (fs : Reply) → IsAlive (answer s c fs) → Kept s c (answer s c fs)
unfolding answer
answer-Kept s (opendir path) fs h = on_opendir-Kept s path fs h
answer-Kept s (readdir dir) fs h = on_readdir-Kept s dir fs h
answer-Kept s (unlink path) fs h = on_unlink-Kept s path fs h
answer-Kept s (closedir dir) fs h = on_closedir-Kept s dir fs h
answer-Kept s (rmdir path) fs h = on_rmdir-Kept s path fs h

-- A run that succeeds has not failed before.
succeeded-IsAlive : (n : Next) (more : List Reply) → run n more ≡ succeeded → IsAlive n
unfolding run
succeeded-IsAlive (waits s c) more h = tt
succeeded-IsAlive succeeded more h = tt
succeeded-IsAlive (ended e) more h = cc
succeeded-IsAlive crashed more h = cc

Kept-cons :
    (s : RmRf) (c : Call) (n : Next) (cs : List Call)
    → Kept s c n
    → (removals cs ≡ opens cs + due n) × (closes cs ≡ opens cs + due_closes n)
    → (removals (c ∷ cs) ≡ opens (c ∷ cs) + due (waits s c))
      × (closes (c ∷ cs) ≡ opens (c ∷ cs) + due_closes (waits s c))
Kept-cons s (opendir path) n cs k r = (omega (arith, k, r), omega (arith, k, r))
Kept-cons s (readdir dir) n cs k r = (omega (arith, k, r), omega (arith, k, r))
Kept-cons s (unlink path) n cs k r = (omega (arith, k, r), omega (arith, k, r))
Kept-cons s (closedir dir) n cs k r = (omega (arith, k, r), omega (arith, k, r))
Kept-cons s (rmdir path) n cs k r = (omega (arith, k, r), omega (arith, k, r))

run-balance :
    (n : Next) (more : List Reply)
    → run n more ≡ succeeded
    → (removals (calls n more) ≡ opens (calls n more) + due n)
      × (closes (calls n more) ≡ opens (calls n more) + due_closes n)
unfolding run calls
run-balance (waits s c) [] h = cc
run-balance (waits s c) (fs ∷ more) h =
    let kept = answer-Kept s c fs (succeeded-IsAlive (answer s c fs) more h) in
    let rest = run-balance (answer s c fs) more h in
    Kept-cons s c (answer s c fs) (calls (answer s c fs) more) kept rest
run-balance succeeded more h = (refl, refl)
run-balance (ended e) more h = cc
run-balance crashed more h = cc

start-due : (s : RmRf) → (due (start s) ≡ 0) × (due_closes (start s) ≡ 0)
unfolding start
start-due s = (ground arith, ground arith)

-- If the removal of a directory succeeds, whatever libuv answered, then it has closed, and removed, as
-- many directories as it has opened.
pub start-balance :
    (s : RmRf) (more : List Reply)
    → run (start s) more ≡ succeeded
    → (removals (calls (start s) more) ≡ opens (calls (start s) more))
      × (closes (calls (start s) more) ≡ opens (calls (start s) more))
start-balance s more h =
    let b = run-balance (start s) more h in
    (omega (arith, b, start-due s), omega (arith, b, start-due s))
