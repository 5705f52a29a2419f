-- ===== src/Unit/Messages.antt =====
-- The messages of iface.proto that a unit gets and sends. Strings are C strings: no character is 0.
use trctl.Base.{ℕ, Bool, List}
use trctl.Process.{Evt}
use Prim.Native.String.{String}

-- `which_sub` of a `folder_ctl_req`.
pub data FolderCtl : Type 0 where
  create del clear no_ctl : FolderCtl

-- `sub` of a `hub_to_unit`, down to the parts of a `file_transfer_req`, with its `seq`, and of a `task_req`, with
-- its `task_id`. An unknown part is one that `which_sub` names by no tag that the code tells apart.
pub data Request : Type 0 where
  init : Request
  file_start : ℕ → List ℕ → List ℕ → ℕ → Request
  file_data : ℕ → ℕ → List ℕ → Request
  file_end : ℕ → ℕ → Request
  file_unknown : ℕ → Request
  task_start_req : ℕ → List ℕ → List (List ℕ) → Request
  task_progress_req task_cancel_req task_unknown : ℕ → Request
  list_folder : ℕ → ℕ → Request
  folder_ctl : FolderCtl → List ℕ → Request
  list_tasks : ℕ → Request
  unknown : Request

-- `hub_to_unit`
pub record HubToUnit : Type 0 where
  pub req_id : ℕ
  pub sub : Request

-- `sub` of a `unit_to_hub`.
pub data Reply : Type 0 where
  init_reply : String → String → Reply
  file_reply : Bool → Reply
  task_success : ℕ → Bool → Reply
  task_progress_reply : ℕ → Evt → ℕ → Reply
  list_tasks_reply : List ℕ → Reply
  list_folder_reply : List (List ℕ) → Reply
  folder_ctl_reply : Bool → List ℕ → Reply

-- `unit_to_hub`, with its time stamp.
pub record UnitToHub : Type 0 where
  pub req_id : ℕ
  pub sec : ℕ
  pub nsec : ℕ
  pub sub : Reply
