-- ===== src/Server/Reads.antt =====
-- What the hub hears of a connection.
use trctl.Base.{◌≡◌, refl, ap, ap₂, Bool, false, List, [], ◌∷◌}
use trctl.Wire.Receiver.{Receiver, Rx, handled, aborted, undefined, stuck, handle_rx}
use trctl.Wire.Link.{Read, bytes, nothing, failed, behind, client_read, client_reads}
use trctl.Server.{server_client_read, server_client_reads}

-- No read fails.
abbrev pub Quiet : List Read → Type 0
Quiet [] = Unit {0}
Quiet (bytes b ∷ cs) = Quiet cs
Quiet (nothing ∷ cs) = Quiet cs
Quiet (failed ∷ cs) = ⊥

-- What follows a read, by what the receiver made of it.
abbrev server_then : Rx → List Read → Rx × Bool
server_then rx cs = elim rx [
  | handled r' ms ↦ (behind ms (server_client_reads r' cs).0, (server_client_reads r' cs).1)
  | aborted ↦ (aborted, false)
  | undefined ↦ (undefined, false)
  | stuck ↦ (stuck, false)
]

abbrev client_then : Rx → List Read → Rx
client_then rx cs = elim rx [
  | handled r' ms ↦ behind ms (client_reads r' cs)
  | aborted ↦ aborted
  | undefined ↦ undefined
  | stuck ↦ stuck
]

server_then-client_then :
    (rx : Rx) (cs : List Read)
    → ((r : Receiver) → server_client_reads r cs ≡ (client_reads r cs, false))
    → server_then rx cs ≡ (client_then rx cs, false)
server_then-client_then (handled r ms) cs h =
    ap₂ (λ (rx : Rx) (b : Bool). (behind ms rx, b)) (ap (λ t. t.0) (h r)) (ap (λ t. t.1) (h r))
server_then-client_then aborted cs h = refl
server_then-client_then undefined cs h = refl
server_then-client_then stuck cs h = refl

pub server_client_reads-Quiet :
    (cs : List Read) (r : Receiver)
    → Quiet cs
    → server_client_reads r cs ≡ (client_reads r cs, false)
unfolding server_client_reads server_client_read client_reads client_read
server_client_reads-Quiet [] r h = refl
server_client_reads-Quiet (bytes b ∷ cs) r h =
    server_then-client_then (handle_rx r b) cs (λ r'. server_client_reads-Quiet cs r' h)
server_client_reads-Quiet (nothing ∷ cs) r h =
    server_then-client_then (handled r []) cs (λ r'. server_client_reads-Quiet cs r' h)
server_client_reads-Quiet (failed ∷ cs) r h = absurd h
