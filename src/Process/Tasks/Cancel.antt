-- ===== src/Process/Tasks/Cancel.antt =====
-- Two requests to cancel the same task.
use trctl.Base.{ℕ, ◌≡◌, refl, ap, ◌∙◌, false, none, some, List, eq→==, if◌then◌else◌}
use trctl.Async.Storage.{AsyncMap, erase}
use trctl.Async.Storage.Map.{nat_key, find, insert, remove, find-insert, remove-insert}
use trctl.Async.Storage.Entries.{erase-entries}
use trctl.Process.{Proc, stored}
use trctl.Process.Tasks.{cancel_resumes}

-- When two requests to cancel a task have waited for its exit, the first that goes on erases the entry of the
-- task; the second then erases an entry that is gone, which is undefined. `before` are the other tasks.
pub cancel_resumes-twice :
    (m : AsyncMap ℕ Proc) (before : List (ℕ × ℕ)) (task_id c : ℕ)
    → find task_id before ≡ none
    → m.m ≡ insert task_id c before
    → (m' : AsyncMap ℕ Proc) × (cancel_resumes m task_id c ≡ some m')
      × (m'.m ≡ before)
      × (cancel_resumes m' task_id c ≡ none)
unfolding cancel_resumes stored
cancel_resumes-twice m before task_id c other e =
    let there : find task_id m.m ≡ some c =
      ap (λ es. find task_id es) e
      ∙ find-insert task_id task_id c before other
      ∙ ap (λ x. if x then some c else find task_id before) (eq→== task_id task_id refl) in
    let p : Proc = record { spawned = false; stream = (m.item c).stream } in
    let gone : (erase (stored m c p) task_id).m ≡ before =
      erase-entries (stored m c p) task_id c there
      ∙ ap (λ es. remove task_id es) e
      ∙ remove-insert task_id c before other in
    (
      erase (stored m c p) task_id,
      rw (there, cancel_resumes, eq→== c c refl) refl,
      gone,
      rw (ap (λ es. find task_id es) gone ∙ other, cancel_resumes) refl,
    )
