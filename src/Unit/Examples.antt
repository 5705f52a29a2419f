-- ===== src/Unit/Examples.antt =====
-- Requests to a unit that has no folder and runs the task 5, in the work directory "w".
use trctl.Base.{ℕ, ◌∷◌, List, []}
use trctl.Unit.Messages.{task_start_req, HubToUnit}

abbrev words : List (List ℕ)
words = (108 ∷ 115 ∷ []) ∷ (46 ∷ []) ∷ []

abbrev entries : List (List ℕ × ℕ)
entries = (97 ∷ 0 ∷ 0 ∷ [], 0) ∷ (98 ∷ 0 ∷ 0 ∷ [], 1) ∷ (99 ∷ 0 ∷ 0 ∷ [], 2) ∷ []

abbrev message : HubToUnit
message = record { req_id = 2; sub = task_start_req 6 (97 ∷ []) words }
