-- ===== src/Async/Storage/Counts.antt =====
-- The reference counts of src/util/async_storage.hpp: where each core is, after any calls.
use trctl.Base.{
  ℕ, suc, ◌+◌, ◌-◌, ◌%◌, ◌^◌, ◌≤◌, ◌<◌, ◌≡◌, refl, ◌⊎◌, inl, inr, Option, none, some, List, [], ◌∷◌,
  ◌++◌, ◌==◌, if◌then◌else◌, Option-cases, arith, length,
}
use trctl.Async.Storage.{
  AsyncMap, acquire, release, new_core, emplace_at, emplace, try_emplace, erase, reap, proceed,
  tick, destroy_ended,
}
use trctl.Async.Storage.Map.{
  Key, find, remove, tally, tally-insert, tally-remove, length-insert, length-remove,
}

-- 1 for the core looked for, 0 for another.
abbrev pub hit : ℕ → ℕ → ℕ
hit c d = if d == c then 1 else 0

abbrev pub count : ℕ → List ℕ → ℕ
count c [] = 0
count c (d ∷ ds) = hit c d + count c ds

abbrev pub among : ℕ → Option ℕ → ℕ
among c none = 0
among c (some d) = hit c d

abbrev pub alive : ℕ → ℕ
alive n = if n == 0 then 0 else 1

-- The pointers in an optional pointer.
abbrev pub listed : Option ℕ → List ℕ
listed none = []
listed (some c) = c ∷ []

pub count-snoc : (c d : ℕ) (ds : List ℕ) → count c (ds ++ (d ∷ [])) ≡ count c ds + hit c d
count-snoc c d [] = omega arith
count-snoc c d (e ∷ ds) = omega (arith, count-snoc c d ds)

tally_le : {K : Type 0} (c : ℕ) (m : List (K × ℕ)) → tally (hit c) m ≤ length m
unfolding tally
tally_le c [] = omega arith
tally_le c ((k, d) ∷ m) = ground (arith, tally_le c m)

count_le : (c : ℕ) (ds : List ℕ) → count c ds ≤ length ds
count_le c [] = omega arith
count_le c (d ∷ ds) = ground (arith, count_le c ds)

module _ {K T : Type 0} where
  -- `held` are the pointers outside the map.
  pub record Inv (s : AsyncMap K T) (held : List ℕ) (c : ℕ) : Type 0 where
    -- The counter of a core is the number of pointers to it.
    pub counted : s.cnt c ≡ tally (hit c) s.m + count c held
    -- A core that was made is pointed to, or waits to be destroyed, or is being destroyed, or is deleted.
    pub placed :
        c < s.next
        → alive (s.cnt c) + (count c s.to_del + (among c s.destroy_task + count c s.deleted)) ≡ 1
    -- An address not yet used is nowhere.
    pub unused :
        s.next ≤ c → s.cnt c + (count c s.to_del + (among c s.destroy_task + count c s.deleted)) ≡ 0
    -- A core is erased only after its destruction.
    pub erased : (s.to_erase ≡ none) ⊎ (s.to_erase ≡ s.destroy_task)
    -- There are fewer pointers than a `uint32_t` counts.
    pub few : length s.m + length held < 2 ^ 32

  pub destroy_ended-Inv :
      (s : AsyncMap K T) (held : List ℕ) (c : ℕ) → Inv s held c → Inv (destroy_ended s) held c
  unfolding destroy_ended
  destroy_ended-Inv s held c v = record {
    counted = v.counted;
    placed = v.placed;
    unused = v.unused;
    erased = inr refl;
    few = v.few;
  }

  reap-none : (s : AsyncMap K T) → (reap s).to_erase ≡ none
  unfolding reap
  reap-none s = ground arith

  reap-Inv : (s : AsyncMap K T) (held : List ℕ) (c : ℕ) → Inv s held c → Inv (reap s) held c
  unfolding reap
  reap-Inv s held c v = elim (Option-cases s.to_erase) [
    | inl e ↦ rw (e, reap) v
    | inr (d, e) ↦
        rw (e, reap)
          (record {
            counted = v.counted;
            placed = λ lt. ground (arith, v.placed lt, v.erased, count-snoc c d s.deleted);
            unused = λ le. ground (arith, v.unused le, v.erased, count-snoc c d s.deleted);
            erased = inl refl;
            few = v.few;
          })
  ]

  proceed-Inv :
      (s : AsyncMap K T) (held : List ℕ) (c : ℕ)
      → s.to_erase ≡ none
      → Inv s held c
      → Inv (proceed s) held c
  unfolding proceed
  proceed-Inv s held c e v = record {
    counted = ground (arith, v.counted);
    placed = λ lt. ground (arith, v.placed);
    unused = λ le. ground (arith, v.unused);
    erased = inl (ground arith);
    few = ground (arith, v.few);
  }

  -- The counter of a core that is pointed to falls by one, without wrapping.
  falls :
      (s : AsyncMap K T) (d : ℕ) (held : List ℕ)
      → Inv s (d ∷ held) d
      → (suc ((s.cnt d + (2 ^ 32 - 1)) % 2 ^ 32) ≡ s.cnt d)
  falls s d held w =
      let one : hit d d ≡ 1 = ground arith in
      omega (arith, w.counted, one, w.few, tally_le d s.m, count_le d held)

  release-cnt :
      (s : AsyncMap K T) (d c : ℕ) (held : List ℕ)
      → Inv s (d ∷ held) d
      → (release s d).cnt c + hit c d ≡ s.cnt c
  unfolding release
  release-cnt s d c held w = ground (arith, falls s d held w)

  release-to_del :
      (s : AsyncMap K T) (d c : ℕ) (held : List ℕ)
      → Inv s (d ∷ held) d
      → count c (release s d).to_del + alive ((release s d).cnt c)
        ≡ count c s.to_del + alive (s.cnt c)
  unfolding release
  release-to_del s d c held w = ground (arith, falls s d held w, count-snoc c d s.to_del)

  pub tick-Inv : (s : AsyncMap K T) (held : List ℕ) (c : ℕ) → Inv s held c → Inv (tick s) held c
  unfolding tick
  tick-Inv s held c v = proceed-Inv (reap s) held c (reap-none s) (reap-Inv s held c v)

  -- A core that is pointed to gets one more pointer outside the map.
  pub acquire-Inv :
      (s : AsyncMap K T) (d : ℕ) (held : List ℕ) (c : ℕ)
      → 0 < s.cnt d
      → suc (length s.m + length held) < 2 ^ 32
      → Inv s held d
      → Inv s held c
      → Inv (acquire s d) (d ∷ held) c
  unfolding acquire
  acquire-Inv s d held c pos few w v =
      let low : s.cnt d + 1 < 2 ^ 32 =
        omega (arith, w.counted, tally_le d s.m, count_le d held, few) in
      record {
        counted = ground (arith, v.counted, low);
        placed = λ lt. ground (arith, v.placed lt, pos, low);
        unused = λ le. ground (arith, v.unused le, pos, low);
        erased = v.erased;
        few = omega (arith, few);
      }

  -- A pointer outside the map goes away.
  pub release-Inv :
      (s : AsyncMap K T) (d : ℕ) (held : List ℕ) (c : ℕ)
      → Inv s (d ∷ held) c
      → Inv s (d ∷ held) d
      → Inv (release s d) held c
  unfolding release
  release-Inv s d held c v w = record {
    counted = omega (arith, v.counted, release-cnt s d c held w);
    placed = λ lt. omega (arith, v.placed lt, release-to_del s d c held w);
    unused =
        λ le. ground (arith, v.unused le, release-cnt s d c held w, release-to_del s d c held w);
    erased = v.erased;
    few = omega (arith, v.few);
  }

  module _ ⦃key : Key K⦄ where
    emplace_at-Inv :
        (s : AsyncMap K T) (k : K) (x : T) (held : List ℕ) (c : ℕ)
        → suc (suc (length s.m + length held)) < 2 ^ 32
        → Inv s held c
        → Inv (emplace_at s k x).0 (s.next ∷ held) c
    unfolding emplace_at acquire new_core
    emplace_at-Inv s k x held c few v = record {
      counted = ground (arith, v.counted, v.unused, tally-insert (hit c) k s.next s.m, few);
      placed = λ lt. ground (arith, v.placed, v.unused);
      unused = λ le. ground (arith, v.unused);
      erased = v.erased;
      few = omega (arith, few, length-insert k s.next s.m);
    }

    pub try_emplace-Inv :
        (s : AsyncMap K T) (k : K) (x : T) (held : List ℕ) (c : ℕ)
        → suc (length s.m + length held) < 2 ^ 32
        → Inv s held c
        → Inv (try_emplace s k x).0 held c
    unfolding try_emplace acquire new_core
    try_emplace-Inv s k x held c few v = elim (Option-cases (find k s.m)) [
      | inr (d, e) ↦ rw (e, try_emplace) v
      | inl e ↦
          rw (e, try_emplace)
            (record {
              counted = ground (arith, v.counted, v.unused, tally-insert (hit c) k s.next s.m, few);
              placed = λ lt. ground (arith, v.placed, v.unused);
              unused = λ le. ground (arith, v.unused);
              erased = v.erased;
              few = omega (arith, few, length-insert k s.next s.m);
            })
    ]

    pub emplace-Inv :
        (s : AsyncMap K T) (k : K) (x : T) (held : List ℕ) (c : ℕ)
        → suc (suc (length s.m + length held)) < 2 ^ 32
        → Inv s held c
        → let (s', p) = emplace s k x in Inv s' (listed p ++ held) c
    unfolding emplace
    emplace-Inv s k x held c few v = elim (Option-cases (find k s.m)) [
      | inr (d, e) ↦ rw (e, emplace) v
      | inl e ↦ rw (e, emplace) (emplace_at-Inv s k x held c few v)
    ]

    removed-Inv :
        (s : AsyncMap K T) (k : K) (d : ℕ) (held : List ℕ) (c : ℕ)
        → find k s.m ≡ some d
        → Inv s held c
        → Inv (record s { m = remove k s.m }) (d ∷ held) c
    removed-Inv s k d held c e v = record {
      counted = omega (arith, v.counted, tally-remove (hit c) k d s.m e);
      placed = v.placed;
      unused = v.unused;
      erased = v.erased;
      few = omega (arith, v.few, length-remove k d s.m e);
    }

    pub erase-Inv :
        (s : AsyncMap K T) (k : K) (held : List ℕ)
        → ((c : ℕ) → Inv s held c)
        → (c : ℕ) → Inv (erase s k) held c
    unfolding erase
    erase-Inv s k held v c = elim (Option-cases (find k s.m)) [
      | inl e ↦ rw (e, erase) (v c)
      | inr (d, e) ↦
          rw (e, erase)
            (release-Inv (record s { m = remove k s.m }) d held c (removed-Inv s k d held c e (v c))
              (removed-Inv s k d held d e (v d)))
    ]
