-- ===== src/Process/Tasks/Start.antt =====
-- Which tasks are known after one is started.
use trctl.Base.{
  ℕ, ◌≡◌, refl, ap, ◌∙◌, Bool, true, false, not, Option, none, some, List, ◌==◌, if◌then◌else◌,
  eq→==,
}
use trctl.Util.{libuv_error}
use trctl.Fs.Ops.{Result, negative, done}
use trctl.Fs.Disk.{Outcome, value, failure}
use trctl.Async.Storage.{AsyncMap, try_emplace, erase}
use trctl.Async.Storage.Map.{nat_key, find, remove, find-insert, remove-insert}
use trctl.Async.Storage.Entries.{try_emplace-entries, erase-entries}
use trctl.Process.{Proc, stored}
use trctl.Process.Tasks.{Os, proc, proc_start, task_start}

-- What a `task_start` under a new id does, by the answer of `uv_spawn`.
abbrev pub known : Result → Option ℕ → Option ℕ → Option ℕ
known (negative e) old new = old
known (done n) old new = new

abbrev pub answered : Result → Outcome (Unit {0})
answered (negative e) = failure libuv_error
answered (done n) = value tt

module _ {W : Type 0} (os : Os W) where
  proc_start-failed :
      (w w' : W) (c e : ℕ) (p : Proc) (binary cwd : List ℕ) (args : List (List ℕ))
      → os.spawn w c binary cwd args ≡ (w', negative e)
      → (proc_start os w c p binary cwd args).2 ≡ false
  unfolding proc_start
  proc_start-failed w w' c e p binary cwd args h =
      let spawned : (os.spawn w c binary cwd args).1 ≡ negative e = ap (λ t. t.1) h in
      rw (spawned, proc_start) refl

  proc_start-done :
      (w w' : W) (c n : ℕ) (p : Proc) (binary cwd : List ℕ) (args : List (List ℕ))
      → os.spawn w c binary cwd args ≡ (w', done n)
      → (proc_start os w c p binary cwd args).2 ≡ true
  unfolding proc_start
  proc_start-done w w' c n p binary cwd args h =
      let spawned : (os.spawn w c binary cwd args).1 ≡ done n = ap (λ t. t.1) h in
      rw (spawned, proc_start) refl

  -- The end of `task_start` in the core `c`, by whether the process was started.
  abbrev branch :
      ℕ → AsyncMap ℕ Proc → ℕ → W × Proc × Bool → Bool → W × AsyncMap ℕ Proc × Outcome (Unit {0})
  branch task_id m' c p started =
      if not started
      then (p.0, erase (stored m' c p.1) task_id, failure libuv_error)
      else (p.0, stored m' c p.1, value tt)

  task_start-branch :
      (w : W) (m : AsyncMap ℕ Proc) (task_id : ℕ) (binary cwd : List ℕ) (args : List (List ℕ))
      (b : Bool)
      → find task_id m.m ≡ none
      → let t = try_emplace m task_id proc in
        let p = proc_start os w t.1 (t.0.item t.1) binary cwd args in
        p.2 ≡ b → task_start os w m task_id binary cwd args ≡ branch task_id t.0 t.1 p b
  unfolding task_start
  task_start-branch w m task_id binary cwd args b free started =
      let inserted = (try_emplace-entries m task_id proc free).2 in
      rw (inserted, task_start, started) refl

  -- A task that is started under an id that no task has is found under that id from then on, as a new core, if
  -- its process could be spawned; otherwise the request fails, and the id stays free. No other id is
  -- affected.
  pub task_start-find :
      (r : Result) (w w' : W) (m : AsyncMap ℕ Proc) (task_id j : ℕ) (binary cwd : List ℕ)
      (args : List (List ℕ))
      → find task_id m.m ≡ none
      → os.spawn w m.next binary cwd args ≡ (w', r)
      → let (w'', m', answer) = task_start os w m task_id binary cwd args in
        (answer ≡ answered r)
        × (find j m'.m ≡ known r (find j m.m) (if task_id == j then some m.next else find j m.m))
  unfolding stored
  task_start-find (negative e) w w' m task_id j binary cwd args free h =
      let t = try_emplace m task_id proc in
      let (entries, core, inserted) = try_emplace-entries m task_id proc free in
      let spawned = ap (λ c. os.spawn w c binary cwd args) core ∙ h in
      let p = proc_start os w t.1 (t.0.item t.1) binary cwd args in
      let b =
        task_start-branch w m task_id binary cwd args false free
          (proc_start-failed w w' t.1 e (t.0.item t.1) binary cwd args spawned) in
      let there : find task_id t.0.m ≡ some m.next =
        ap (λ es. find task_id es) entries
        ∙ find-insert task_id task_id m.next m.m free
        ∙ ap (λ x. if x then some m.next else find task_id m.m) (eq→== task_id task_id refl) in
      (
        ap (λ x. x.2) b,
        ap (λ x. find j x.1.m) b
            ∙ ap (λ es. find j es)
                (erase-entries (stored t.0 t.1 p.1) task_id m.next there
                  ∙ ap (λ es. remove task_id es) entries
                  ∙ remove-insert task_id m.next m.m free),
      )
  task_start-find (done n) w w' m task_id j binary cwd args free h =
      let t = try_emplace m task_id proc in
      let (entries, core, inserted) = try_emplace-entries m task_id proc free in
      let spawned = ap (λ c. os.spawn w c binary cwd args) core ∙ h in
      let b =
        task_start-branch w m task_id binary cwd args true free
          (proc_start-done w w' t.1 n (t.0.item t.1) binary cwd args spawned) in
      (
        ap (λ x. x.2) b,
        ap (λ x. find j x.1.m) b
            ∙ ap (λ es. find j es) entries
            ∙ find-insert task_id j m.next m.m free,
      )
