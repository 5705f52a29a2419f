-- ===== src/Hub.antt =====
-- src/hub/main.cpp: a transaction of the hub with a unit.
use trctl.Base.{ℕ, Bool, Option, none, some, List, take, if◌then◌else◌}
use trctl.Npb.Streams.{ctx_from}
use trctl.Unit.Messages.{
  init, file_start, file_data, file_end, unknown, HubToUnit, init_reply, file_reply, task_success,
  task_progress_reply, list_tasks_reply, list_folder_reply, folder_ctl_reply, UnitToHub,
}
use trctl.Unit.Raw.{Codec}
use Prim.Native.String.{String}

-- The first part of `transact`: the bytes to send; `buffer` is the memory of 128 bytes for them.
unfoldable pub transact_request :
    Codec (Bool × UnitToHub) HubToUnit → List ℕ → HubToUnit → Option (List ℕ)
transact_request codec buffer msg = elim (codec.pb_encode (ctx_from buffer) msg) [
  | none ↦ none
  | some (ctx, written) ↦ some (take written ctx.buff)
]

-- The second part, on the bytes of the reply, or on an error. Decoding also gives `has_ts`. `none` is the
-- empty message.
unfoldable pub transact_reply :
    Codec (Bool × UnitToHub) HubToUnit → Option (List ℕ) → Option UnitToHub
transact_reply codec none = none
transact_reply codec (some bytes) = elim (codec.pb_decode (ctx_from bytes)) [
  | none ↦ none
  | some (has_ts, reply) ↦ if has_ts then some reply else none
]

-- `set_get_init`
abbrev pub set_get_init : HubToUnit → HubToUnit
set_get_init msg = record msg { sub = init }

-- `file_transfer_start`, `file_transfer_data` and `file_transfer_end`
pub data FileTransfer : Type 0 where
  start : List ℕ → List ℕ → ℕ → FileTransfer
  piece : ℕ → List ℕ → FileTransfer
  finish : ℕ → FileTransfer

-- `set_sub`, its three overloads.
unfoldable pub set_sub : HubToUnit → FileTransfer → ℕ → HubToUnit
set_sub msg (start folder filename filesize) seq = record msg {
  sub = file_start seq folder filename filesize;
}
set_sub msg (piece offset bytes) seq = record msg { sub = file_data seq offset bytes }
set_sub msg (finish fnv1a) seq = record msg { sub = file_end seq fnv1a }

-- The message of `transact_init`: no field of `hub_to_unit_init_default` is set.
abbrev pub get_init : HubToUnit
get_init = set_get_init (record { req_id = 0; sub = unknown })

-- The end of `transact_init`: the address and the version in the response.
unfoldable pub init_of : Option UnitToHub → Option (String × String)
init_of none = none
init_of (some resp) = elim resp.sub [
  | init_reply mac_addr version ↦ some (mac_addr, version)
  | file_reply b ↦ none
  | task_success id b ↦ none
  | task_progress_reply id evt n ↦ none
  | list_tasks_reply ids ↦ none
  | list_folder_reply ns ↦ none
  | folder_ctl_reply b f ↦ none
]
