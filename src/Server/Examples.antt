-- ===== src/Server/Examples.antt =====
-- A server with memory for two connections: each of the three that come is closed before the next. And a
-- connection on which the transaction 1 waits.
use trctl.Base.{
  ℕ, ◌+◌, ◌-◌, ◌≡◌, refl, min, true, none, some, List, [], ◌∷◌, ◌++◌, ltb, if◌then◌else◌, arith,
}
use trctl.Server.{Server, Memory, Event, connection, closed_read, run}
use trctl.Wire.Send.{success, Sent}
use trctl.Server.{Source, transact_start}
use trctl.Server.Shared.{Broadcasts, Shared, transact_start-Shared}
use trctl.Server.Leak.{Counts, run-throws}

-- The state is the number of bytes held.
abbrev memory : Memory ℕ
memory = record {
  allocate = λ m n. if ltb 10000 (m + n) then none else some (m, m + n);
  deallocate = λ m a n. min m 10000 - n;
}

abbrev held : ℕ → ℕ
held m = min m 10000

memory-allocates :
    (m m' n a : ℕ) → memory.allocate m n ≡ some (a, m') → min m' 10000 ≡ min m 10000 + n
memory-allocates m m' n a e = ground arith

memory-Counts : Counts memory held 10000
memory-Counts = record {
  allocates = memory-allocates;
  deallocates = λ m a n. omega arith;
  bounded = λ m. omega arith;
}

abbrev server : Server ℕ
server = record { mem = 0; clients = []; new_events = []; disc_events = [] }

abbrev events : List Event
events =
    connection true true
    ∷ closed_read 4224
    ∷ connection true true
    ∷ closed_read 8448
    ∷ connection true true
    ∷ []

run-throws_example : run memory 16 server events ≡ none
run-throws_example =
    run-throws memory 16 held 10000 memory-Counts server events refl refl (omega arith)

abbrev source : Source (List ℕ)
source = record {
  schedule = λ s op. s ++ (op ∷ []);
  set_value = λ s reply. ([], s);
  set_error = λ s. ([], s);
}

source-Broadcasts : Broadcasts source (λ s. s)
source-Broadcasts = record {
  schedules = λ s op. refl;
  values = λ s reply. refl;
  errors = λ s. refl;
}

abbrev sent : Sent
sent = record { status = success; wire = some (1 ∷ 0 ∷ []) }

transact_start-Shared_example :
    Shared source success (1 ∷ 2 ∷ []) (transact_start source (1 ∷ []) 2 (some sent))
transact_start-Shared_example =
    transact_start-Shared source (λ s. s) (1 ∷ []) 1 2 sent source-Broadcasts refl
