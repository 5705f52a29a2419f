-- ===== src/Unit/Life.antt =====
-- `unit_ctx_loop` and `unit_ctx::shutdown` of src/unit/unit.hpp: the start and the end of a unit.
use trctl.Base.{ℕ, Option, none, some, List, [], ◌∷◌, if◌then◌else◌, ◌==◌, not}
use trctl.Util.{Error, input_error}
use trctl.Str.{Buffer}
use trctl.Fs.Disk.{value, failure}
use trctl.Slots.{TaskSlots}
use trctl.Slots as Slots
use trctl.Async.Storage.{AsyncMap}
use trctl.Async.Storage as Storage
use trctl.Folder.{folder_init}
use trctl.Unit.Messages.{HubToUnit, UnitToHub}
use trctl.Unit.Requests.{UnitCtx, Setting}
use trctl.Unit.Raw.{Codec}
use trctl.Unit.Loop.{Serving, Event, serve}

-- A map whose end a shutdown waits for.
pub data Awaited : Type 0 where
  procs transfers folders : Awaited

-- How the end of a unit goes on: the loop over the slots never returns; or `_on_all_destroyed` of a map is
-- waited for; or the unit is down.
pub data Ending (S : Type 0) : Type 0 where
  endless : Ending S
  waits : Awaited → S → Ending S
  down : S → Ending S

-- The components of the unit are stored back.
pub with_uctx : {W : Type 0} → Serving W → UnitCtx W → Serving W
with_uctx s u = record s { uctx = u }

-- `order` is that in which a map is cleared.
module _ {W : Type 0} (order : (K : Type 0) → List (K × ℕ) → List (K × ℕ)) where
  -- `folctx.shutdown()`
  shut_folders : Serving W → Ending (Serving W)
  unfolding with_uctx
  shut_folders s =
      let u = s.uctx in
      let (flds, wait) = Storage.shutdown (order _) u.files.flds in
      let s' = with_uctx s (record u { files = record u.files { flds = flds } }) in
      if wait then waits folders s' else down s'

  -- `fctx.shutdown()`
  shut_transfers : Serving W → Ending (Serving W)
  unfolding with_uctx shut_folders
  shut_transfers s =
      let u = s.uctx in
      let (transfers', wait) = Storage.shutdown (order _) u.files.transfers in
      let s' = with_uctx s (record u { files = record u.files { transfers = transfers' } }) in
      if wait then waits transfers s' else shut_folders s'

  -- `pctx.shutdown()`
  shut_procs : Serving W → Ending (Serving W)
  unfolding with_uctx shut_transfers
  shut_procs s =
      let u = s.uctx in
      let (procs', wait) = Storage.shutdown (order _) u.procs in
      let s' = with_uctx s (record u { procs = procs' }) in
      if wait then waits procs s' else shut_transfers s'

  -- `unit_ctx::shutdown`; `events` is what happens in each round of the loop over the slots.
  pub unit_shutdown : ℕ → Serving W → (ℕ → List Slots.Event) → Ending (Serving W)
  unfolding shut_procs
  unit_shutdown rounds s events = elim (Slots.shutdown rounds s.slots events) [
    | none ↦ endless
    | some slots ↦ shut_procs (record s { slots = slots })
  ]

  -- `_on_all_destroyed` of the map that is waited for is set; the unit is then in the state `s`.
  pub woken : Awaited → Serving W → Ending (Serving W)
  unfolding shut_folders shut_transfers
  woken procs s = shut_transfers s
  woken transfers s = shut_folders s
  woken folders s = down s

-- How `unit_ctx_loop` goes on: it ends in an error before it serves, or never comes to serve; or it serves
-- and is then told to stop; `left` is a unit whose tasks are not described up to there.
pub data Life (S : Type 0) : Type 0 where
  fails : Error → Life S
  stuck : Life S
  left : List Event → Life S
  ending : Ending S → Life S

module _ {W : Type 0} (order : (K : Type 0) → List (K × ℕ) → List (K × ℕ)) (at : Setting W)
    (codec : Codec HubToUnit UnitToHub) (memory : ℕ → Option (List ℕ)) where
  -- `buf` is the memory for a path of `folder_init`, `connected` what `client_init` returns, and `es` is what
  -- happens until the unit is told to stop.
  pub unit_ctx_loop :
      Serving W → Buffer → ℕ → List Event → (ℕ → List Slots.Event) → Life (Serving W)
  unfolding unit_shutdown
  unit_ctx_loop s buf connected es events =
      let u = s.uctx in
      elim (folder_init at.disk at.rounds buf at.workdir at.junk u.files.w u.files.flds) [
        | none ↦ stuck
        | some (w, flds, failure e) ↦ fails e
        | some (w, flds, value t) ↦
            if not (connected == 0)
            then fails input_error
            else let s' =
                with_uctx s (record u { files = record u.files { w = w; flds = flds } }) in
              let (s'', rest) = serve at codec memory s' es in
              elim rest [
                | [] ↦ ending (unit_shutdown order at.rounds s'' events)
                | e ∷ es' ↦ left (e ∷ es')
              ]
      ]
