-- ===== src/Async/Storage/Defects.antt =====
-- Progress of src/util/async_storage.hpp: what the event loop gets done, and three places where it does
-- not do what is meant.
use trctl.Base.{
  ℕ, zero, suc, ◌≡◌, ◌≢◌, refl, sym, ap, ◌∙◌, Option, none, some, List, [], ◌∷◌, ◌++◌, append-nil,
  append_assoc, ne→==, arith, length,
}
use trctl.Async.Storage.{
  AsyncMap, release, release_all, tick, reap, proceed, destroy_ended, shutdown, clear, clear_from,
}
use trctl.Async.Storage.Counts.{listed}

module _ {K T : Type 0} where
  -- A tick, and the end of the destruction that runs, before the next tick.
  pub round : AsyncMap K T → AsyncMap K T
  round s = destroy_ended (tick s)

  pub rounds : ℕ → AsyncMap K T → AsyncMap K T
  unfolding round
  rounds zero s = s
  rounds (suc n) s = rounds n (round s)

  -- Each destruction that was begun has ended.
  abbrev pub IsPrompt : AsyncMap K T → Type 0
  IsPrompt s = s.to_erase ≡ s.destroy_task

  record Round (s s' : AsyncMap K T) (o : Option ℕ) (now xs : List ℕ) : Type 0 where
    task_is : s'.destroy_task ≡ o
    prompt : s'.to_erase ≡ o
    deleted_is : s'.deleted ≡ s.deleted ++ now
    to_del_is : s'.to_del ≡ xs

  round-busy :
      (s : AsyncMap K T) (d c : ℕ) (xs : List ℕ)
      → s.to_erase ≡ some d
      → s.to_del ≡ c ∷ xs
      → Round s (round s) (some c) (d ∷ []) xs
  unfolding round destroy_ended tick reap proceed
  round-busy s d c xs e t = record {
    task_is = ground arith;
    prompt = ground arith;
    deleted_is = ground arith;
    to_del_is = ground arith;
  }

  round-last :
      (s : AsyncMap K T) (d : ℕ)
      → s.to_erase ≡ some d
      → s.to_del ≡ []
      → Round s (round s) none (d ∷ []) []
  unfolding round destroy_ended tick reap proceed
  round-last s d e t = record {
    task_is = ground arith;
    prompt = ground arith;
    deleted_is = ground arith;
    to_del_is = ground arith;
  }

  round-first :
      (s : AsyncMap K T) (c : ℕ) (xs : List ℕ)
      → s.to_erase ≡ none
      → s.destroy_task ≡ none
      → s.to_del ≡ c ∷ xs
      → Round s (round s) (some c) [] xs
  unfolding round destroy_ended tick reap proceed
  round-first s c xs e f t = record {
    task_is = ground arith;
    prompt = ground arith;
    deleted_is = ground (arith, append-nil s.deleted);
    to_del_is = ground arith;
  }

  round-none :
      (s : AsyncMap K T)
      → s.to_erase ≡ none
      → s.destroy_task ≡ none
      → s.to_del ≡ []
      → Round s (round s) none [] []
  unfolding round destroy_ended tick reap proceed
  round-none s e f t = record {
    task_is = ground arith;
    prompt = ground arith;
    deleted_is = ground (arith, append-nil s.deleted);
    to_del_is = ground arith;
  }

  rounds-all :
      (xs : List ℕ) (o : Option ℕ) (s : AsyncMap K T)
      → s.to_erase ≡ o
      → s.destroy_task ≡ o
      → s.to_del ≡ xs
      → ((rounds (suc (length xs)) s).deleted ≡ s.deleted ++ (listed o ++ xs))
        × ((rounds (suc (length xs)) s).to_del ≡ [])
  unfolding rounds
  rounds-all [] none s e f t = let r = round-none s e f t in (r.deleted_is, r.to_del_is)
  rounds-all [] (some d) s e f t = let r = round-last s d e t in (r.deleted_is, r.to_del_is)
  rounds-all (c ∷ xs) none s e f t =
      let r = round-first s c xs e f t in
      let k = rounds-all xs (some c) (round s) r.prompt r.task_is r.to_del_is in
      (k.0 ∙ ap (λ t. t ++ (c ∷ xs)) (r.deleted_is ∙ append-nil s.deleted), k.1)
  rounds-all (c ∷ xs) (some d) s e f t =
      let r = round-busy s d c xs e t in
      let k = rounds-all xs (some c) (round s) r.prompt r.task_is r.to_del_is in
      (k.0 ∙ ap (λ t. t ++ (c ∷ xs)) r.deleted_is ∙ append_assoc s.deleted (d ∷ []) (c ∷ xs), k.1)

  -- If each destruction ends before the next tick, then as many ticks as there are cores queued, and
  -- one more, delete the core being destroyed and the queued cores, in their order, and empty the queue.
  pub rounds-deletes :
      (s : AsyncMap K T)
      → IsPrompt s
      → ((rounds (suc (length s.to_del)) s).deleted
          ≡ s.deleted ++ (listed s.destroy_task ++ s.to_del))
        × ((rounds (suc (length s.to_del)) s).to_del ≡ [])
  rounds-deletes s p = rounds-all s.to_del s.destroy_task s p refl refl

  round-woken : (s : AsyncMap K T) → IsPrompt s → ((round s).woken ≡ s.woken) × IsPrompt (round s)
  unfolding round destroy_ended tick reap proceed
  round-woken s p = (ground arith, refl)

  rounds-woken : (n : ℕ) (s : AsyncMap K T) → IsPrompt s → (rounds n s).woken ≡ s.woken
  unfolding rounds
  rounds-woken zero s p = refl
  rounds-woken (suc n) s p = rounds-woken n (round s) (round-woken s p).1 ∙ (round-woken s p).0

  release_all-tasks :
      (es : List (K × ℕ)) (s : AsyncMap K T)
      → ((release_all s es).to_erase ≡ s.to_erase)
        × ((release_all s es).destroy_task ≡ s.destroy_task)
        × ((release_all s es).woken ≡ s.woken)
  unfolding release_all release
  release_all-tasks [] s = (refl, refl, refl)
  release_all-tasks ((k, c) ∷ es) s = release_all-tasks es (release s c)

  -- The lost wake-up: if every destruction ends before the next tick, then no number of ticks after
  -- `shutdown` sets `_on_all_destroyed`, for which `shutdown` waits whenever it queued a core.
  pub shutdown-never_woken :
      (order : List (K × ℕ) → List (K × ℕ)) (s : AsyncMap K T) (n : ℕ)
      → IsPrompt s
      → (rounds n (shutdown order s).0).woken ≡ s.woken
  unfolding shutdown
  shutdown-never_woken order s n p =
      let t = release_all-tasks (order s.m) (record s { m = [] }) in
      rounds-woken n (release_all (record s { m = [] }) (order s.m)) (t.0 ∙ p ∙ sym t.1) ∙ t.2

  -- The early wake-up: while the last core is still being destroyed, each tick sets
  -- `_on_all_destroyed`, though that core is not deleted.
  pub tick-wakes_early :
      (s : AsyncMap K T) (d : ℕ)
      → s.to_erase ≡ none
      → s.destroy_task ≡ some d
      → s.to_del ≡ []
      → ((tick s).woken ≡ suc s.woken) × ((tick s).deleted ≡ s.deleted)
  unfolding tick reap proceed
  tick-wakes_early s d e f t = (ground arith, ground arith)

  clear_from-stuck :
      (rounds : ℕ) (s : AsyncMap K T) (k : K) (d c : ℕ) (rest : List (K × ℕ))
      → d ≢ c
      → clear_from rounds s ((k, d) ∷ rest) c ≡ none
  unfolding clear_from
  clear_from-stuck zero s k d c rest h = refl
  clear_from-stuck (suc n) s k d c rest h =
      rw (ne→== d c h, clear_from) (clear_from-stuck n s k d c rest h)

  -- The loop of `async_map_core::clear` never ends, however many rounds it gets, if the first entry of
  -- the map is not that of the core to clear.
  pub clear-never_ends :
      (rounds : ℕ) (s : AsyncMap K T) (k : K) (d c : ℕ) (rest : List (K × ℕ))
      → s.m ≡ (k, d) ∷ rest
      → d ≢ c
      → clear rounds s c ≡ none
  unfolding clear
  clear-never_ends rounds s k d c rest e h =
      ap (λ m. clear_from rounds s m c) e ∙ clear_from-stuck rounds s k d c rest h
