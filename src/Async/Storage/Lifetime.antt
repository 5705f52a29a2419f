-- ===== src/Async/Storage/Lifetime.antt =====
-- What the counts mean over the life of an `async_map`: nothing is deleted twice, or while it is pointed
-- to, and every core that nothing points to gets its turn. The calls are those of `Call`: `async_ptr_source::get` on a
-- core to which nothing points any more, `clear` and `shutdown` are none of them.
use trctl.Base.{
  ℕ, suc, ◌+◌, ◌*◌, ◌^◌, ◌≤◌, ◌<◌, ◌≡◌, refl, none, List, [], ◌∷◌, ◌++◌, ◌==◌, ltb, if◌then◌else◌,
  arith, length, inl, inr, Option-cases, Bool-cases, ltb→lt,
}
use trctl.Async.Storage.{
  AsyncMap, acquire, release, new_core, emplace_at, emplace, try_emplace, erase, tick,
  destroy_ended, reap, proceed,
}
use trctl.Async.Storage.Map.{Key, find, tally, length-insert, length-remove}
use trctl.Async.Storage.Counts.{
  Inv, hit, count, among, alive, listed, tick-Inv, destroy_ended-Inv, acquire-Inv, release-Inv,
  emplace-Inv, try_emplace-Inv, erase-Inv,
}

-- `gets` is `async_ptr_source::get`, `drops` the end of a pointer outside the map.
pub data Call (K T : Type 0) : Type 0 where
  emplaces try_emplaces : K → T → Call K T
  erases : K → Call K T
  gets drops : ℕ → Call K T
  ticks destroy_ends : Call K T

without : ℕ → List ℕ → List ℕ
without c [] = []
without c (d ∷ ds) = if d == c then ds else d ∷ without c ds

count-without : (c d : ℕ) (ds : List ℕ) → 0 < count d ds → count c ds ≡ count c (d ∷ without d ds)
unfolding without
count-without c d [] h = absurd (omega arith)
count-without c d (e ∷ ds) h = ground (arith, count-without c d ds)

length-without : (d : ℕ) (ds : List ℕ) → 0 < count d ds → length ds ≡ suc (length (without d ds))
unfolding without
length-without d [] h = absurd (omega arith)
length-without d (e ∷ ds) h = ground (arith, length-without d ds)

-- A map with the pointers outside it.
pub record World (K T : Type 0) : Type 0 where
  pub s : AsyncMap K T
  pub held : List ℕ

module _ {K T : Type 0} where
  module _ ⦃key : Key K⦄ where
    -- A pointer is taken only from a core that has one, which `get` does not test, and dropped by who holds one.
    pub step : World K T → Call K T → World K T
    unfolding without
    step w (emplaces k x) =
        let (s', p) = emplace w.s k x in record { s = s'; held = listed p ++ w.held }
    step w (try_emplaces k x) = record w { s = (try_emplace w.s k x).0 }
    step w (erases k) = record w { s = erase w.s k }
    step w (gets c) =
        if ltb 0 (w.s.cnt c) then record { s = acquire w.s c; held = c ∷ w.held } else w
    step w (drops c) =
        if ltb 0 (count c w.held) then record { s = release w.s c; held = without c w.held } else w
    step w ticks = record w { s = tick w.s }
    step w destroy_ends = record w { s = destroy_ended w.s }

    pub run : World K T → List (Call K T) → World K T
    run w [] = w
    run w (c ∷ cs) = run (step w c) cs

    Same-Inv :
        (s : AsyncMap K T) (held held' : List ℕ) (c : ℕ)
        → count c held ≡ count c held'
        → length held ≡ length held'
        → Inv s held c
        → Inv s held' c
    Same-Inv s held held' c e l v = record {
      counted = omega (arith, v.counted);
      placed = v.placed;
      unused = v.unused;
      erased = v.erased;
      few = omega (arith, v.few);
    }

    step-Inv :
        (w : World K T) (e : Call K T)
        → suc (suc (length w.s.m + length w.held)) < 2 ^ 32
        → ((c : ℕ) → Inv w.s w.held c)
        → (c : ℕ) → Inv (step w e).s (step w e).held c
    unfolding step
    step-Inv w (emplaces k x) few v c = emplace-Inv w.s k x w.held c few (v c)
    step-Inv w (try_emplaces k x) few v c = try_emplace-Inv w.s k x w.held c (omega arith) (v c)
    step-Inv w (erases k) few v c = erase-Inv w.s k w.held v c
    step-Inv w (gets d) few v c = elim (Bool-cases (ltb 0 (w.s.cnt d))) [
      | inr e ↦ rw (e, step) (v c)
      | inl e ↦
          rw (e, step)
            (acquire-Inv w.s d w.held c (ltb→lt 0 (w.s.cnt d) e) (omega arith) (v d) (v c))
    ]
    step-Inv w (drops d) few v c = elim (Bool-cases (ltb 0 (count d w.held))) [
      | inr e ↦ rw (e, step) (v c)
      | inl e ↦
          let pos : 0 < count d w.held = ltb→lt 0 (count d w.held) e in
          let split = λ (c : ℕ).
            Same-Inv w.s w.held (d ∷ without d w.held) c (count-without c d w.held pos)
              (length-without d w.held pos) (v c) in
          rw (e, step) (release-Inv w.s d (without d w.held) c (split c) (split d))
    ]
    step-Inv w ticks few v c = tick-Inv w.s w.held c (v c)
    step-Inv w destroy_ends few v c = destroy_ended-Inv w.s w.held c (v c)

    abbrev pointers : World K T → ℕ
    pointers w = length w.s.m + length w.held

    step-pointers : (w : World K T) (e : Call K T) → pointers (step w e) ≤ suc (suc (pointers w))
    unfolding step emplace emplace_at new_core acquire release try_emplace erase tick reap proceed
        destroy_ended
    step-pointers w (emplaces k x) = ground (arith, length-insert k w.s.next w.s.m)
    step-pointers w (try_emplaces k x) = ground (arith, length-insert k w.s.next w.s.m)
    step-pointers w (erases k) = elim (Option-cases (find k w.s.m)) [
      | inl e ↦ rw (e, erase) (omega arith)
      | inr (d, e) ↦ rw (e, erase) (omega (arith, length-remove k d w.s.m e))
    ]
    step-pointers w (gets d) = ground arith
    step-pointers w (drops d) = ground (arith, length-without d w.held)
    step-pointers w ticks = ground arith
    step-pointers w destroy_ends = ground arith

    run-Inv :
        (cs : List (Call K T)) (w : World K T)
        → pointers w + 2 * length cs < 2 ^ 32
        → ((c : ℕ) → Inv w.s w.held c)
        → (c : ℕ) → Inv (run w cs).s (run w cs).held c
    unfolding run
    run-Inv [] w few v c = v c
    run-Inv (e ∷ cs) w few v c =
        run-Inv cs (step w e) (omega (arith, step-pointers w e)) (step-Inv w e (omega arith) v) c

  -- A map as it is constructed; `item` is memory not yet used.
  abbrev pub fresh : (ℕ → T) → World K T
  fresh item = record {
    s = record {
      m = [];
      cnt = λ c. 0;
      item = item;
      next = 0;
      to_del = [];
      to_erase = none;
      destroy_task = none;
      deleted = [];
      woken = 0;
    };
    held = [];
  }

  fresh-Inv : (item : ℕ → T) (c : ℕ) → Inv (fresh item).s (fresh item).held c
  unfolding tally
  fresh-Inv item c = record {
    counted = refl;
    placed = λ lt. absurd (omega arith);
    unused = λ le. refl;
    erased = inl refl;
    few = omega arith;
  }

  -- After fewer than 2^31 calls, each an emplace, a try_emplace, an erase, a tick, the end of a destruction, a pointer
  -- got from a core to which one points already, or a pointer outside the map given up, each core that was ever made is in one place: it is pointed to from
  -- the map or from outside, as often as its counter says, or it is queued for destruction, or it is
  -- being destroyed, or it has been deleted, once.
  pub run-places :
      ⦃key : Key K⦄ (item : ℕ → T) (cs : List (Call K T)) (c : ℕ)
      → length cs < 2 ^ 31
      → let w = run (fresh item) cs in
        (w.s.cnt c ≡ tally (hit c) w.s.m + count c w.held)
        × (c < w.s.next
            → alive (w.s.cnt c)
                + (count c w.s.to_del + (among c w.s.destroy_task + count c w.s.deleted))
              ≡ 1)
  run-places ⦃key⦄ item cs c few =
      let v = run-Inv ⦃key = key⦄ cs (fresh item) (omega arith) (fresh-Inv item) c in
      (v.counted, v.placed)
