-- ===== src/Npb/Dispatch.antt =====
-- The callbacks of src/iface.cpp: which fields of a message are handled by the program, and how. The tags
-- are those of iface.proto, from which the tables of nanopb are made.
pub mod Schema
use trctl.Base.{ℕ, Bool, ◌||◌, List, [], ◌∷◌, ◌==◌, if◌then◌else◌}

-- The messages with a callback.
pub data Message : Type 0 where
  init_msg file_transfer_start file_transfer_data list_folders_resp task_start_req
        task_progress_resp :
      Message

-- What a callback calls.
pub data Handler : Type 0 where
  string_field repeated_string_field data_field default_field : Handler

init_msg_callback : ℕ → Handler
init_msg_callback tag = if (tag == 1) || (tag == 2) then string_field else default_field

file_transfer_start_callback : ℕ → Handler
file_transfer_start_callback tag = if tag == 1 then string_field else default_field

file_transfer_data_callback : ℕ → Handler
file_transfer_data_callback tag = if tag == 1 then data_field else default_field

list_folders_resp_callback : ℕ → Handler
list_folders_resp_callback tag = if tag == 1 then repeated_string_field else default_field

task_start_req_callback : ℕ → Handler
task_start_req_callback tag = if tag == 3 then repeated_string_field else default_field

-- It also sets `which_sub` to the tag when it reads.
task_progress_resp_callback : ℕ → Handler
task_progress_resp_callback tag = if (tag == 1) || (tag == 2) then data_field else default_field

pub callback : Message → ℕ → Handler
unfolding init_msg_callback file_transfer_start_callback file_transfer_data_callback
    list_folders_resp_callback task_start_req_callback task_progress_resp_callback
callback init_msg tag = init_msg_callback tag
callback file_transfer_start tag = file_transfer_start_callback tag
callback file_transfer_data tag = file_transfer_data_callback tag
callback list_folders_resp tag = list_folders_resp_callback tag
callback task_start_req tag = task_start_req_callback tag
callback task_progress_resp tag = task_progress_resp_callback tag
