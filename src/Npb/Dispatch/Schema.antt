-- ===== src/Npb/Dispatch/Schema.antt =====
-- iface.proto, and the callbacks of src/iface.cpp.
use trctl.Base.{ℕ, ◌≡◌, refl, List, [], ◌∷◌, ◌==◌, if◌then◌else◌, arith}
use trctl.Npb.Dispatch.{
  Message, init_msg, file_transfer_start, file_transfer_data, list_folders_resp, task_start_req,
  task_progress_resp, Handler, string_field, repeated_string_field, data_field, default_field,
  callback, init_msg_callback, file_transfer_start_callback, file_transfer_data_callback,
  list_folders_resp_callback, task_start_req_callback, task_progress_resp_callback,
}

-- The C types that a field of iface.proto is given as `callback_datatype`.
pub data CallbackDatatype : Type 0 where
  const_char npb_str npb_data : CallbackDatatype

-- The fields of each message that have a `callback_datatype`.
abbrev pub fields : Message → List (ℕ × CallbackDatatype)
fields init_msg = (1, const_char) ∷ (2, const_char) ∷ []
fields file_transfer_start = (1, const_char) ∷ []
fields file_transfer_data = (1, npb_data) ∷ []
fields list_folders_resp = (1, npb_str) ∷ []
fields task_start_req = (3, npb_str) ∷ []
fields task_progress_resp = (1, npb_data) ∷ (2, npb_data) ∷ []

-- The callback that reads and writes a C type.
abbrev pub handles : CallbackDatatype → Handler
handles const_char = string_field
handles npb_str = repeated_string_field
handles npb_data = data_field

abbrev pub by_schema : List (ℕ × CallbackDatatype) → ℕ → Handler
by_schema [] tag = default_field
by_schema ((t, ty) ∷ more) tag = if tag == t then handles ty else by_schema more tag

-- Every callback treats every field as its C type wants, and leaves all others to nanopb.
callback-schema : (m : Message) (tag : ℕ) → callback m tag ≡ by_schema (fields m) tag
unfolding callback init_msg_callback file_transfer_start_callback file_transfer_data_callback
    list_folders_resp_callback task_start_req_callback task_progress_resp_callback
callback-schema init_msg tag = ground arith
callback-schema file_transfer_start tag = refl
callback-schema file_transfer_data tag = refl
callback-schema list_folders_resp tag = refl
callback-schema task_start_req tag = refl
callback-schema task_progress_resp tag = ground arith
