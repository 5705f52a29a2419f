-- ===== src/Unit/Requests.antt =====
-- `on_msg` of src/unit/unit.hpp: a request goes to the component that it is for.
pub mod Answers
use trctl.Base.{
  not, length, ℕ, ◌+◌, ◌%◌, ◌^◌, Bool, true, false, Option, none, some, List, [], ◌∷◌, ◌++◌, ◌==◌,
  if◌then◌else◌,
}
use trctl.Util.{Error, none_error, input_error}
use trctl.Str.{Buffer}
use trctl.Fs.Disk.{Disk, Outcome, value, failure}
use trctl.Fs.RmRf.{Entry}
use trctl.Fs.RmRf as Removal
use trctl.Async.Storage.{AsyncMap}
use trctl.Transfer.{Slot, start_transfer, transfer_data, end_transfer}
use trctl.Folder.{
  Folder, Folders, Ended, returns, never_returns, crashes, folder_create, folder_delete,
  folder_clear,
}
use trctl.Folder.Names.{Lookup, found, missing, unspecified, find_name}
use trctl.Process.{
  Evt, stdout_evt, stderr_evt, exit_evt, Proc, Progress, reported, refused, waiting, task_progress,
  task_list,
}
use trctl.Process.Tasks.{Os, Cancelled, ended, waits, task_start, task_cancel}
use trctl.Unit.{prepare_reply, task_args, list_folders, path_of}
use trctl.Unit.Messages.{
  FolderCtl, create, del, clear, no_ctl, Request, init, file_start, file_data, file_end,
  file_unknown, task_start_req, task_progress_req, task_cancel_req, task_unknown, list_folder,
  folder_ctl, list_tasks, unknown, HubToUnit, Reply, init_reply, file_reply, task_success,
  task_progress_reply, list_tasks_reply, list_folder_reply, folder_ctl_reply, UnitToHub,
}

-- The components of `unit_ctx`.
pub record UnitCtx (W : Type 0) : Type 0 where
  pub files : Folders W
  pub procs : AsyncMap ℕ Proc

-- What a request finds: libuv and the files; the work directory; the time; the buffers of a removal, the
-- answers to its requests and what they do to the files; memory that was not set, how many names there is
-- memory for, and whether there is memory for so many bytes; and the rounds that loops get.
pub record Setting (W : Type 0) : Type 0 where
  pub disk : Disk W
  pub os : Os W
  pub workdir : List ℕ
  pub now_ms : ℕ
  pub buf : Buffer
  pub dirs : ℕ → Entry
  pub removing : W → W
  pub replies : List Removal.Reply
  pub junk : ℕ
  pub avail : ℕ
  pub room : ℕ → Bool
  pub rounds : ℕ

-- How `on_msg` goes on. `unset`: it returns a reply that it never set. `fails`: it ends in an error, and there is
-- no reply. `suspended`: it waits for the next event of a task, or for its exit.
pub data Answer (S : Type 0) : Type 0 where
  answers : S → UnitToHub → Answer S
  unset suspended : S → Answer S
  fails : S → Error → Answer S
  stuck broken : Answer S

-- `!opt_err`
abbrev pub succeeded : {A : Type 0} → Outcome A → Bool
succeeded (value a) = true
succeeded (failure e) = false

abbrev is_none_error : Error → Bool
is_none_error none_error = true
is_none_error _ = false

-- The event in the answer to a progress request: the status is an `int32`.
pub reported_evt : Evt → Evt
reported_evt (stdout_evt mem) = stdout_evt mem
reported_evt (stderr_evt mem) = stderr_evt mem
reported_evt (exit_evt status) = exit_evt (status % 2 ^ 32)

-- "/bin/bash"
abbrev shell : List ℕ
shell = 47 ∷ 98 ∷ 105 ∷ 110 ∷ 47 ∷ 98 ∷ 97 ∷ 115 ∷ 104 ∷ []

-- `copy` of the output: where there is no memory for it, it is copied to a null pointer.
pub has_room : {W : Type 0} → Setting W → Evt → Bool
has_room at (stdout_evt mem) = at.room (length mem)
has_room at (stderr_evt mem) = at.room (length mem)
has_room at (exit_evt status) = true

module _ {W : Type 0} (at : Setting W) (req_id : ℕ) where
  -- The reply with its `sub`.
  unfoldable pub reply : UnitCtx W → Reply → Answer (UnitCtx W)
  reply u sub = answers u (prepare_reply at.now_ms req_id sub)

  -- The request gets a number `op`, if it has to wait. Without memory for the path, `snprintf` writes to a null pointer.
  pub on_file_start : UnitCtx W → ℕ → List ℕ → List ℕ → ℕ → Answer (UnitCtx W)
  unfolding reply
  on_file_start u seq folder filename filesize = elim (find_name folder u.files.flds.m) [
    | unspecified ↦ broken
    | missing ↦ reply u (file_reply false)
    | found c ↦
        if not (at.room 128)
        then broken
        else let path = path_of (folder ∷ filename ∷ []) at.workdir in
          let f = u.files.flds.item c in
          let (w, transfers, deps, started) =
            start_transfer at.disk u.files.w u.files.transfers f.deps seq path filesize in
          let flds = record u.files.flds {
            item = λ j. if c == j then record f { deps = deps } else u.files.flds.item j;
          } in
          reply (record u { files = record { w = w; flds = flds; transfers = transfers } })
            (file_reply (succeeded started))
  ]

  pub on_file_data : UnitCtx W → ℕ → ℕ → List ℕ → Answer (UnitCtx W)
  unfolding reply
  on_file_data u seq offset bytes =
      let (w, transfers, written) =
        transfer_data at.disk u.files.w u.files.transfers seq offset bytes in
      reply (record u { files = record u.files { w = w; transfers = transfers } })
        (file_reply (succeeded written))

  -- The error of a transfer that is not known is not caught.
  pub on_file_end : UnitCtx W → ℕ → ℕ → Answer (UnitCtx W)
  unfolding reply
  on_file_end u seq hash =
      elim (end_transfer at.disk at.rounds u.files.w u.files.transfers seq hash) [
        | none ↦ stuck
        | some (w, transfers, failure e) ↦
            fails (record u { files = record u.files { w = w; transfers = transfers } }) e
        | some (w, transfers, value e) ↦
            reply (record u { files = record u.files { w = w; transfers = transfers } })
              (file_reply (is_none_error e))
      ]

  -- Too many arguments are only logged: the result that is set for them is overwritten.
  pub on_task_start : UnitCtx W → ℕ → List ℕ → List (List ℕ) → Answer (UnitCtx W)
  unfolding reply
  on_task_start u task_id folder args =
      if not (at.room 128)
      then broken
      else let cwd = path_of (folder ∷ []) at.workdir in
        let (w, procs, started) =
          task_start at.os u.files.w u.procs task_id shell cwd (task_args args) in
        reply (record { files = record u.files { w = w }; procs = procs })
          (task_success task_id (succeeded started))

  pub on_task_progress : UnitCtx W → ℕ → ℕ → Answer (UnitCtx W)
  unfolding reply has_room
  on_task_progress u task_id op =
      let (procs, progress) = task_progress u.procs task_id op in
      elim progress [
        | waiting ↦ suspended (record u { procs = procs })
        | refused e ↦ reply (record u { procs = procs }) (task_success task_id false)
        | reported evt ↦
            if has_room at evt
            then reply (record u { procs = procs })
                (task_progress_reply task_id (reported_evt evt) 0)
            else broken
      ]

  pub on_task_cancel : UnitCtx W → ℕ → ℕ → Answer (UnitCtx W)
  unfolding reply
  on_task_cancel u task_id op = elim (task_cancel at.os u.files.w u.procs task_id op) [
    | waits (w, procs) ↦ suspended (record { files = record u.files { w = w }; procs = procs })
    | ended (w, procs) done ↦
        reply (record { files = record u.files { w = w }; procs = procs })
          (task_success task_id (succeeded done))
  ]

  on_ended : UnitCtx W → List ℕ → Ended (Folders W) → Answer (UnitCtx W)
  unfolding reply
  on_ended u folder never_returns = stuck
  on_ended u folder crashes = broken
  on_ended u folder (returns files done) =
      reply (record u { files = files }) (folder_ctl_reply (succeeded done) folder)

  pub on_folder_ctl : UnitCtx W → FolderCtl → List ℕ → Answer (UnitCtx W)
  unfolding reply on_ended
  on_folder_ctl u create folder =
      elim (folder_create at.disk at.workdir at.junk u.files.w u.files.flds folder) [
        | never_returns ↦ stuck
        | crashes ↦ broken
        | returns (w, flds) created ↦
            reply (record u { files = record u.files { w = w; flds = flds } })
              (folder_ctl_reply (succeeded created) folder)
      ]
  on_folder_ctl u del folder =
      on_ended u folder
        (folder_delete at.disk at.rounds at.buf at.dirs at.removing at.replies u.files folder)
  on_folder_ctl u clear folder =
      on_ended u folder (folder_clear at.disk at.buf at.dirs at.removing at.replies u.files folder)
  on_folder_ctl u no_ctl folder = reply u (folder_ctl_reply false folder)

  -- `on_msg` on the `sub` of a message.
  unfoldable pub on_sub : UnitCtx W → ℕ → Request → Answer (UnitCtx W)
  unfolding reply
  on_sub u op init = reply u (init_reply "DE:AD:BE:EF:00:01" "0.0.0")
  on_sub u op (file_start seq folder filename filesize) =
      on_file_start u seq folder filename filesize
  on_sub u op (file_data seq offset bytes) = on_file_data u seq offset bytes
  on_sub u op (file_end seq hash) = on_file_end u seq hash
  on_sub u op (file_unknown seq) = unset u
  on_sub u op (task_start_req task_id folder args) = on_task_start u task_id folder args
  on_sub u op (task_progress_req task_id) = on_task_progress u task_id op
  on_sub u op (task_cancel_req task_id) = on_task_cancel u task_id op
  on_sub u op (task_unknown task_id) = unset u
  on_sub u op (list_folder offset limit) =
      reply u (list_folder_reply (list_folders u.files.flds.m offset limit at.avail))
  on_sub u op (folder_ctl ctl folder) = on_folder_ctl u ctl folder
  on_sub u op (list_tasks offset) = reply u (list_tasks_reply (task_list u.procs offset 20))
  on_sub u op unknown = unset u

-- `on_msg`; the request is the operation `op` if it has to wait.
unfoldable pub on_msg : {W : Type 0} → Setting W → UnitCtx W → ℕ → HubToUnit → Answer (UnitCtx W)
unfolding on_sub
on_msg at u op msg = on_sub at msg.req_id u op msg.sub
