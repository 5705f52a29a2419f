-- ===== src/Server/Shared.antt =====
-- Two transactions on one connection of src/server.hpp.
use trctl.Base.{ℕ, ◌≡◌, refl, ap, ◌∙◌, Option, some, List, [], ◌∷◌, ◌++◌}
use trctl.Wire.Send.{SendStatus, encoding_error, write_error, success, Sent}
use trctl.Server.{Source, transact_start}

-- A broadcast source completes every operation that waits.
pub record Broadcasts {S : Type 0} (source : Source S) (waiting : S → List ℕ) : Type 0 where
  pub schedules : (s : S) (op : ℕ) → waiting (source.schedule s op) ≡ waiting s ++ (op ∷ [])
  pub values : (s : S) (reply : List ℕ) → (source.set_value s reply).1 ≡ waiting s
  pub errors : (s : S) → (source.set_error s).1 ≡ waiting s

module _ {S : Type 0} (source : Source S) where
  -- What becomes of the transactions `ops` when the last of them starts, by what its sending returned.
  abbrev pub Shared : SendStatus → List ℕ → Option (S × List ℕ) → Type 0
  Shared success ops got =
      (s' : S) × (got ≡ some (s', [])) × ((reply : List ℕ) → (source.set_value s' reply).1 ≡ ops)
  Shared encoding_error ops got = (s' : S) × (got ≡ some (s', ops))
  Shared write_error ops got = (s' : S) × (got ≡ some (s', ops))

  -- With a broadcast source that completes every operation that waits: if a transaction is started on a
  -- connection while another one waits there, then they share their end: the
  -- next reply, whichever request it answers, completes both; and if the request cannot be sent, both get the
  -- error.
  pub transact_start-Shared :
      (waiting : S → List ℕ) (s : S) (first second : ℕ) (sent : Sent)
      → Broadcasts source waiting
      → waiting s ≡ first ∷ []
      → Shared sent.status (first ∷ second ∷ []) (transact_start source s second (some sent))
  unfolding transact_start
  transact_start-Shared waiting s first second sent laws alone =
      let s' = source.schedule s second in
      let both : waiting s' ≡ first ∷ second ∷ [] =
        laws.schedules s second ∙ ap (λ xs. xs ++ (second ∷ [])) alone in
      let failed : some (source.set_error s')
          ≡ some ((source.set_error s').0, first ∷ second ∷ []) =
        ap (λ ops. some ((source.set_error s').0, ops)) (laws.errors s' ∙ both) in
      elim sent.status
        as (λ x.
          Shared x (first ∷ second ∷ [])
            (transact_start source s second (some (record sent { status = x })))) [
              | success ↦ (s', refl, λ reply. laws.values s' reply ∙ both)
              | encoding_error ↦ ((source.set_error s').0, failed)
              | write_error ↦ ((source.set_error s').0, failed)
            ]
