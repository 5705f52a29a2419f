-- ===== src/Unit/Raw.antt =====
-- `on_raw_msg` of src/unit/unit.hpp, and the promise of src/client.hpp: from the bytes of a request to those of
-- its answer. nanopb and the memory are arguments.
use trctl.Base.{ℕ, Option, none, some, List, ◌++◌, length, take, drop}
use trctl.Util.{Error, decoding_failed, encoding_failed, memory_allocation_failed}
use trctl.Npb.Streams.{Ctx, ctx_from}
use trctl.Unit.Messages.{HubToUnit, UnitToHub}
use trctl.Unit.Requests.{UnitCtx, Setting, answers, unset, suspended, fails, stuck, broken, on_msg}

-- `pb_decode` of a message `A`, from the stream over a state, and `pb_encode` of a message `B`: the state that
-- it leaves and `bytes_written`. `none` is false.
pub record Codec (A B : Type 0) : Type 0 where
  pub pb_decode : Ctx → Option A
  pub pb_encode : Ctx → B → Option (Ctx × ℕ)

-- `client::_recv::set_value`: the data of the promise is a copy. `none`: there is no memory, and the receiver
-- gets an error.
unfoldable pub incoming : (ℕ → Option (List ℕ)) → List ℕ → Option (List ℕ)
incoming make_span bytes = elim (make_span (length bytes)) [
  | none ↦ none
  | some span ↦ some (bytes ++ drop (length bytes) span)
]

-- How `on_raw_msg` goes on: `fulfils` sends the bytes of a reply; `garbage` encodes a reply that was never set.
pub data Raw (S : Type 0) : Type 0 where
  fulfils : S → List ℕ → Raw S
  garbage waits : S → Raw S
  ends : S → Error → Raw S
  endless crashed : Raw S

-- `memory` is that for the 1024 bytes of the reply, or nothing.
unfoldable pub on_raw_msg :
    {W : Type 0}
    → Setting W
    → Codec HubToUnit UnitToHub
    → Option (List ℕ)
    → UnitCtx W
    → ℕ
    → List ℕ
    → Raw (UnitCtx W)
on_raw_msg at codec memory u op bytes = elim (codec.pb_decode (ctx_from bytes)) [
  | none ↦ ends u decoding_failed
  | some msg ↦ elim (on_msg at u op msg) [
    | unset u' ↦ garbage u'
    | suspended u' ↦ waits u'
    | fails u' e ↦ ends u' e
    | stuck ↦ endless
    | broken ↦ crashed
    | answers u' reply ↦ elim memory [
      | none ↦ ends u' memory_allocation_failed
      | some span ↦ elim (codec.pb_encode (ctx_from span) reply) [
        | none ↦ ends u' encoding_failed
        | some (ctx, written) ↦ fulfils u' (take written ctx.buff)
      ]
    ]
  ]
]
