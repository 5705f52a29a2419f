-- ===== src/Lib.antt =====
-- Verification of trctl: a hub and units that talk over TCP, and the services of a unit.
--
-- Parts of the program and where they are modelled:
--   Base      shared names, Boolean tests and list functions on native numbers.
--   Util      src/util.hpp: `error`, `unify`, `str`, and the hash `fnv1a`.
--   Cobs      src/cobs.hpp: `cobs_encoder`, `encode_cobs`, `cobs_decoder`, `decode_cobs`. Cobs/Format is
--             the format that they are measured against, with no memory and no pointers.
--   Wire      Wire/Send: `cobs_send` of src/util.cpp. Wire/Receiver: `cobs_receiver` of src/util.hpp.
--             Wire/Link: `client_read` of src/client.cpp, and both ends of a connection together.
--   Str       src/str.hpp: `fixed_str` and its nodes, which share one buffer.
--   Fs        src/fs.hpp: Fs/Ops the callbacks of the operations, Fs/Disk the operations as a task awaits
--             them, Fs/Iter `dir_iter` and `recursive_dir_iter`, Fs/RmRf `_fs_rm_rf`, a callback for each request
--             to libuv. Fs/RmRf/Tree has what is in a directory, and the requests that remove it.
--   Transfer  src/unit/fs_transfer.hpp: `file_transfer_slot`, `start_transfer`, `transfer_data`,
--             `end_transfer`. Transfer/Upload is a transfer from its start to its end.
--   Process   src/unit/process.hpp: `proc_stream`, `on_msg`, `on_exit`, `task_progress`, `task_list`.
--             Process/Tasks `proc`, `destroy`, `task_start`, `task_cancel`; Process/Tasks/Context `proc_ctx`, and
--             how the map kills its processes.
--   Npb       Npb/Streams, Npb/Fields: the stream and field callbacks of src/npb.hpp. Npb/Dispatch: the
--             callbacks of src/iface.cpp; Npb/Dispatch/Schema has the fields of iface.proto.
--   Folder    src/unit/folder.hpp: `folder_name`, `folder_ctx`, `folder_init`, `folder_create`,
--             `folder_delete`, `folder_clear`. Folder/Names: the two orders of the names, and `std::map::find` by
--             the one in a map that is sorted by the other; Folder/Names/Search: when they agree.
--   Unit      src/unit/unit.hpp: `on_msg`. Unit/Messages the messages, Unit/Requests a function for each
--             case of the switch.
--             Unit/Raw: `on_raw_msg`, and the promise of src/client.hpp. Unit/Loop: `unit_transaction_cb`, with a
--             slot for each message. Unit/Life: `unit_ctx_loop` and `unit_ctx::shutdown`.
--   Server    src/server.hpp, src/server.cpp: the clients of a hub and their memory, `server_client_read`,
--             the start of a transaction.
--   Hub       src/hub/main.cpp: `transact`, `transact_init`; `set_sub` of src/iface.hpp.
--   Slots     src/task.hpp: `task_slots` and `task_slot`.
--   Async     src/util: Async/Queue `async_queue`, Async/Optional `async_optional`, Async/Fifo the core of
--             `async_sender_fifo`, Async/Fifo/Sender the operations that it wraps, Async/Storage `async_map` and `async_ptr`.
--
-- A sender puts a message through `encode_cobs` and sends it with the byte behind it, which is 0 if the memory
-- was; the receiver gathers bytes, cuts
-- them at each 0, and decodes each message in place. The services of a unit keep their objects in an
-- `async_map`, and serialise the work on one object with an `async_sender_fifo`. The hub sends a request
-- and waits for the next message of that unit; the unit decodes the request, hands it to the service that it is
-- for, and sends the answer.
--
-- Conventions. Bytes and addresses are natural numbers; arithmetic on `uint8_t`, `uint32_t` and
-- `uint64_t` is written modulo a power of two. A span is a list, a pointer into it an index. A callback is
-- a function from the state and what the event loop reports to the new state; a run is a list of events.
-- Undefined behaviour of the code is a value of its own: `none`, or a constructor such as `undefined` of `Rx` or
-- `crashed` of `Raw`. A unit is followed (`serve`) up to the first task that has undefined behaviour, or does not end
-- in the rounds given.
--
-- Fuel. `deliver` (the loop of `_handle_rx`) gets one round more than the receiver holds bytes, and each
-- round takes a byte at least. `hash_from` (the loop of `file_transfer_slot::end`) and `clear` get any
-- number of rounds, and are `none` where these do not suffice; for `hash_from` one round for each 4096
-- bytes and one more suffice, up to 2^32 - 4096 bytes. `batches` (the loop of `dir_iter`) gets any number of
-- rounds; one for each batch of entries that libuv reports, and one more, suffice. `recursive_dir_iter` gets the
-- depth to which directories are nested, and rounds for each of them. `Slots.shutdown` gets any number of rounds; one
-- suffices where no task runs, and none do where one runs. All other loops recurse
-- on a list or on the bytes that are left.
--
-- Parameters. The circular buffer of the ecor library and `uv_write` of libuv are arguments of
-- `cobs_send`. A `Disk` stands for libuv and the files: each request gives an answer and a new state.
-- `Memory` is a circular buffer, `Source` a broadcast source of ecor, `Codec` the two functions of nanopb that
-- encode and decode a message. `Os` is libuv's part in processes, `Nanopb` nanopb and the memory of a message.
-- The answers to `_fs_rm_rf` are a list; what a removal does to the files is an argument of the requests on
-- folders. `Setting` gathers what a request finds: these, the time, whether the memory of a slot has room, and memory
-- that is never set.
-- `std::map` is the list of its entries in the order of the keys; the order in which `std::map::clear` destroys them is
-- an argument.
--
-- Not modelled: libuv, ecor, zll, nanopb and spdlog; connection set-up; the command lines; logging.
-- Also not modelled: `component` of src/task.hpp, an interface; `get_connection_info` of src/util.cpp and
-- `server_init` of src/server.cpp, which only call libuv; `joined` of src/util.hpp, which makes text for the log;
-- the global `operator new`, which only calls `malloc`.
pub mod Base
pub mod Util
pub mod Cobs
pub mod Str
pub mod Fs
pub mod Wire
pub mod Async
pub mod Transfer
pub mod Process
pub mod Slots
pub mod Npb
pub mod Folder
pub mod Unit
pub mod Server
pub mod Hub
