-- ===== src/Server.antt =====
-- src/server.hpp and src/server.cpp: the connections of a hub. libuv is told by what it reports; the circular
-- buffer and the broadcast source of the ecor library are arguments.
pub mod Reads
pub mod Leak
pub mod Shared
mod Examples
use trctl.Base.{
  ℕ, ◌+◌, Bool, true, false, Option, none, some, List, [], ◌∷◌, ◌++◌, ◌==◌, if◌then◌else◌, length,
}
use trctl.Wire.Send.{Sent, encoding_error, write_error, success}
use trctl.Wire.Receiver.{Receiver, Rx, handled, aborted, undefined, stuck, handle_rx}
use trctl.Wire.Link.{Read, bytes, nothing, failed, behind}

-- `server_client_read`, with whether it closes the connection.
pub server_client_read : Receiver → Read → Rx × Bool
server_client_read r (bytes b) = (handle_rx r b, false)
server_client_read r nothing = (handled r [], false)
server_client_read r failed = (handled r [], true)

-- The reads of a connection, one after the other, until it is closed.
pub server_client_reads : Receiver → List Read → Rx × Bool
unfolding server_client_read
server_client_reads r [] = (handled r [], false)
server_client_reads r (c ∷ cs) =
    let (rx, closed) = server_client_read r c in
    elim rx [
      | handled r' ms ↦
          let (later, closes) = server_client_reads r' cs in
          if closed then (handled r' ms, true) else (behind ms later, closes)
      | aborted ↦ (aborted, closed)
      | undefined ↦ (undefined, closed)
      | stuck ↦ (stuck, closed)
    ]

-- `ecor::broadcast_source`: operations are scheduled, and completed by a value or by an error; these are the
-- operations that are completed.
pub record Source (S : Type 0) : Type 0 where
  pub schedule : S → ℕ → S
  pub set_value : S → List ℕ → S × List ℕ
  pub set_error : S → S × List ℕ

-- `_transact_op::start` of the operation `op`, and `_send`, where `sent` is what `cobs_send` returned. The
-- operations are those that get an error. `none`: `cobs_send` follows a null pointer.
pub transact_start : {S : Type 0} → Source S → S → ℕ → Option Sent → Option (S × List ℕ)
transact_start source s op sent =
    let s' = source.schedule s op in
    elim sent [
      | none ↦ none
      | some x ↦ elim x.status [
        | encoding_error ↦ some (source.set_error s')
        | write_error ↦ some (source.set_error s')
        | success ↦ some (s', [])
      ]
    ]

-- A client in the list: its address, and that of its buffer for bytes that are received.
pub record ServerClient : Type 0 where
  pub address : ℕ
  pub rx_buffer : ℕ

-- `server`, with what its events told so far.
pub record Server (M : Type 0) : Type 0 where
  pub mem : M
  pub clients : List ServerClient
  pub new_events : List ℕ
  pub disc_events : List ℕ

-- `circular_buffer_memory`: an address for a number of bytes, or nothing; and what is given back.
pub record Memory (M : Type 0) : Type 0 where
  pub allocate : M → ℕ → Option (ℕ × M)
  pub deallocate : M → ℕ → ℕ → M

-- `rx_size`
abbrev pub rx_size : ℕ
rx_size = 4096 + 128

-- What the event loop reports: a connection, with whether it came without an error and whether it could be
-- accepted, and a connection that was closed, after a read or because it was not accepted.
pub data Event : Type 0 where
  connection : Bool → Bool → Event
  closed_read closed_unaccepted : ℕ → Event

-- A node of `node_size` bytes leaves the list for the client at an address.
pub without : List ServerClient → ℕ → List ServerClient
without [] c = []
without (x ∷ xs) c = let rest = without xs c in if x.address == c then rest else x ∷ rest

module _ {M : Type 0} (memory : Memory M) (node_size : ℕ) where
  -- The nodes that `remove_if` gives back.
  give_back : M → List ServerClient → ℕ → M
  give_back mem [] c = mem
  give_back mem (x ∷ xs) c =
      let here = give_back (memory.deallocate mem x.address node_size) xs c in
      let rest = give_back mem xs c in if x.address == c then here else rest

  -- `_drop_client`
  pub drop_client : Server M → ℕ → Server M
  unfolding without give_back
  drop_client s c = record s { mem = give_back s.mem s.clients c; clients = without s.clients c }

  -- `_remove_client`
  pub remove_client : Server M → ℕ → Server M
  unfolding drop_client
  remove_client s c = drop_client (record s { disc_events = s.disc_events ++ (c ∷ []) }) c

  -- `_new_client`. `none`: it throws, out of a callback of libuv.
  pub new_client : Server M → Option (ℕ × Server M)
  new_client s = elim (memory.allocate s.mem rx_size) [
    | none ↦ none
    | some (buffer, mem) ↦ elim (memory.allocate mem node_size) [
      | none ↦ none
      | some (node, mem') ↦ some (
        node,
        record s {
          mem = mem';
          clients = s.clients ++ ((record { address = node; rx_buffer = buffer }) ∷ []);
        },
      )
    ]
  ]

  -- `_commit_client`
  commit_client : Server M → ℕ → Server M
  commit_client s c = record s { new_events = s.new_events ++ (c ∷ []) }

  -- `server_new_conn`, and the callbacks of `uv_close`.
  pub happen : Server M → Event → Option (Server M)
  unfolding new_client commit_client remove_client drop_client
  happen s (connection false accepted) = some s
  happen s (connection true accepted) = elim (new_client s) [
    | none ↦ none
    | some (c, s') ↦ if accepted then some (commit_client s' c) else some s'
  ]
  happen s (closed_read c) = some (remove_client s c)
  happen s (closed_unaccepted c) = some (drop_client s c)

  pub run : Server M → List Event → Option (Server M)
  unfolding happen
  run s [] = some s
  run s (e ∷ es) = elim (happen s e) [ none ↦ none | some s' ↦ run s' es ]
