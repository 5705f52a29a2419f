-- ===== src/Unit/Requests/Answers.antt =====
-- Which answers the requests of src/unit/unit.hpp get.
use trctl.Base.{false, ℕ, ◌≡◌, ◌*◌, ◌/◌, ◌%◌, refl, ◌⊎◌}
use trctl.Unit.{prepare_reply}
use trctl.Folder.Names.{found, missing, unspecified, find_name, is_ended}
use trctl.Folder.{folder_name}
use trctl.Unit.Messages.{
  create, del, clear, Request, init, file_start, file_data, file_end, file_unknown, task_start_req,
  task_progress_req, task_cancel_req, task_unknown, list_folder, folder_ctl, list_tasks, unknown,
  Reply, init_reply, file_reply, task_success, task_progress_reply, list_tasks_reply,
  list_folder_reply, folder_ctl_reply,
}
use trctl.Unit.Requests.{
  UnitCtx, Setting, Answer, answers, unset, suspended, fails, stuck, broken, reply,
}

-- The reply is one to the request, about the same task or folder.
abbrev pub Fits : Request → Reply → Type 0
Fits init (init_reply mac version) = Unit {0}
Fits (file_start seq folder filename filesize) (file_reply b) = Unit {0}
Fits (file_data seq offset bytes) (file_reply b) = Unit {0}
Fits (file_end seq hash) (file_reply b) = Unit {0}
Fits (task_start_req task_id folder args) (task_success id b) = id ≡ task_id
Fits (task_progress_req task_id) (task_success id b) = id ≡ task_id
Fits (task_progress_req task_id) (task_progress_reply id evt left) = id ≡ task_id
Fits (task_cancel_req task_id) (task_success id b) = id ≡ task_id
Fits (list_folder offset limit) (list_folder_reply ns) = Unit {0}
Fits (folder_ctl ctl folder) (folder_ctl_reply b f) = f ≡ folder
Fits (list_tasks offset) (list_tasks_reply ids) = Unit {0}
Fits _ _ = ⊥

-- A part of the request has a tag that is not known.
abbrev pub IsUnknown : Request → Type 0
IsUnknown (file_unknown seq) = Unit {0}
IsUnknown (task_unknown task_id) = Unit {0}
IsUnknown unknown = Unit {0}
IsUnknown _ = ⊥

-- The request may wait for a process.
abbrev pub MayWait : Request → Type 0
MayWait (task_progress_req task_id) = Unit {0}
MayWait (task_cancel_req task_id) = Unit {0}
MayWait _ = ⊥

-- The request ends a transfer.
abbrev pub EndsTransfer : Request → Type 0
EndsTransfer (file_end seq hash) = Unit {0}
EndsTransfer _ = ⊥

-- The request removes files.
abbrev pub Removes : Request → Type 0
Removes (folder_ctl del folder) = Unit {0}
Removes (folder_ctl clear folder) = Unit {0}
Removes _ = ⊥

-- The request meets undefined behaviour: there is no memory for a path of 128 characters, or for some
-- output; the search for a folder by a name is not specified; or the name fills its array; or it removes files.
abbrev pub Breaks : {W : Type 0} → Setting W → UnitCtx W → Request → Type 0
Breaks at u (file_start seq folder filename filesize) = elim (find_name folder u.files.flds.m) [
  | unspecified ↦ Unit {0}
  | missing ↦ ⊥
  | found c ↦ at.room 128 ≡ false
]
Breaks at u (task_start_req task_id folder args) = at.room 128 ≡ false
Breaks at u (task_progress_req task_id) = (n : ℕ) × (at.room n ≡ false)
Breaks at u (folder_ctl create folder) = elim (find_name folder u.files.flds.m) [
  | unspecified ↦ Unit {0}
  | missing ↦ is_ended (folder_name folder at.junk) ≡ false
  | found c ↦ ⊥
]
Breaks at u (folder_ctl del folder) = Unit {0}
Breaks at u (folder_ctl clear folder) = Unit {0}
Breaks at u _ = ⊥

abbrev pub Answered :
    {W : Type 0} → Setting W → UnitCtx W → ℕ → Request → Answer (UnitCtx W) → Type 0
Answered at u req_id sub (answers u' r) =
    (r.req_id ≡ req_id)
    × (r.sec ≡ at.now_ms / 1000)
    × (r.nsec ≡ at.now_ms % 1000 * 1000000)
    × Fits sub r.sub
Answered at u req_id sub (unset u') = IsUnknown sub
Answered at u req_id sub (suspended u') = MayWait sub
Answered at u req_id sub (fails u' e) = EndsTransfer sub
Answered at u req_id sub stuck = EndsTransfer sub ⊎ Removes sub
Answered at u req_id sub broken = Breaks at u sub

module _ {W : Type 0} (at : Setting W) (req_id : ℕ) where
  reply-Answered :
      (u : UnitCtx W) (sub : Request) (r : Reply)
      → Fits sub r
      → Answered at u req_id sub (reply at req_id u r)
  unfolding reply prepare_reply
  reply-Answered u sub r fits = (refl, refl, refl, fits)
