-- ===== src/Async/Storage.antt =====
-- `async_map` and `async_ptr` of src/util/async_storage.hpp: objects that are counted, and destroyed on
-- the event loop one at a time when nothing points to them any more.
-- A core is a number, its address; an `async_ptr` that is not null is the core that it points to.
pub mod Map
pub mod Entries
pub mod Counts
pub mod Lifetime
pub mod Ends
pub mod Pointers
pub mod Defects
mod Examples
use trctl.Base.{
  ℕ, zero, suc, ◌+◌, ◌-◌, ◌%◌, ◌^◌, Bool, true, false, not, ◌&&◌, Option, none, some, List, [], ◌∷◌,
  ◌++◌, ◌==◌, if◌then◌else◌, length,
}
use Map.{Key, find, insert, remove}

-- `deleted` and `woken` are a record of what happened: the cores deleted, the oldest first, and how often
-- `_on_all_destroyed` was set. `cnt` and `item` are the memory of the cores, `next` the next address.
pub record AsyncMap (K T : Type 0) : Type 0 where
  pub m : List (K × ℕ)
  pub cnt : ℕ → ℕ
  pub item : ℕ → T
  pub next : ℕ
  pub to_del : List ℕ
  pub to_erase : Option ℕ
  pub destroy_task : Option ℕ
  pub deleted : List ℕ
  pub woken : ℕ

abbrev pub update {ℓ} : {A : Type ℓ} → (ℕ → A) → ℕ → A → ℕ → A
update f i v j = if i == j then v else f j

module _ {K T : Type 0} where
  -- `async_ptr( core& )`; the counter is a `uint32_t`.
  pub acquire : AsyncMap K T → ℕ → AsyncMap K T
  acquire s c = record s { cnt = update s.cnt c ((s.cnt c + 1) % 2 ^ 32) }

  -- `~async_ptr` of a pointer that is not null.
  pub release : AsyncMap K T → ℕ → AsyncMap K T
  release s c =
      let n = (s.cnt c + (2 ^ 32 - 1)) % 2 ^ 32 in
      record s {
        cnt = update s.cnt c n;
        to_del = if n == 0 then s.to_del ++ (c ∷ []) else s.to_del;
      }

  -- `new async_ptr_core`
  new_core : AsyncMap K T → T → AsyncMap K T
  new_core s x = record s {
    cnt = update s.cnt s.next 0;
    item = update s.item s.next x;
    next = suc s.next;
  }

  module _ ⦃key : Key K⦄ where
    -- `emplace( iter, key, … )`: the map's pointer, and the pointer that is returned.
    pub emplace_at : AsyncMap K T → K → T → AsyncMap K T × ℕ
    unfolding new_core acquire insert
    emplace_at s k x =
        let c = s.next in
        let made = acquire (new_core s x) c in
        (acquire (record made { m = insert k c made.m }) c, c)

    -- `emplace( key, … )` returns a null pointer if the key is taken.
    pub emplace : AsyncMap K T → K → T → AsyncMap K T × Option ℕ
    unfolding emplace_at
    emplace s k x = elim (find k s.m) [
      | some c ↦ (s, none)
      | none ↦ let (s', c) = emplace_at s k x in (s', some c)
    ]

    -- The entry, and whether it is new.
    pub try_emplace : AsyncMap K T → K → T → AsyncMap K T × ℕ × Bool
    unfolding new_core acquire insert
    try_emplace s k x = elim (find k s.m) [
      | some c ↦ (s, c, false)
      | none ↦
          let c = s.next in
          let made = acquire (new_core s x) c in (record made { m = insert k c made.m }, c, true)
    ]

    -- `erase( iter )` for the entry of `k`.
    pub erase : AsyncMap K T → K → AsyncMap K T
    unfolding release remove
    erase s k = elim (find k s.m) [ none ↦ s | some c ↦ release (record s { m = remove k s.m }) c ]

  pub size : AsyncMap K T → ℕ
  size s = length s.m

  -- `std::exchange( to_erase, nullptr )`, and the deletion.
  reap : AsyncMap K T → AsyncMap K T
  reap s = elim s.to_erase [
    | none ↦ s
    | some c ↦ record s { to_erase = none; destroy_task = none; deleted = s.deleted ++ (c ∷ []) }
  ]

  -- The rest of `tick`: start to destroy the next core, or tell that all are destroyed.
  proceed : AsyncMap K T → AsyncMap K T
  proceed s = elim s.destroy_task [
    | none ↦ elim s.to_del [ [] ↦ s | c ∷ rest ↦ record s { to_del = rest; destroy_task = some c } ]
    | some d ↦ elim s.to_del [ [] ↦ record s { woken = suc s.woken } | c ∷ rest ↦ s ]
  ]

  pub tick : AsyncMap K T → AsyncMap K T
  unfolding reap proceed
  tick s = proceed (reap s)

  -- `_destroy_recv`: the task that destroys the core has ended, in whichever way.
  unfoldable pub destroy_ended : AsyncMap K T → AsyncMap K T
  destroy_ended s = record s { to_erase = s.destroy_task }

  release_all : AsyncMap K T → List (K × ℕ) → AsyncMap K T
  unfolding release
  release_all s [] = s
  release_all s ((k, c) ∷ es) = release_all (release s c) es

  -- `shutdown`: the state after `_core.m.clear()`, and whether it then waits for `_on_all_destroyed`. The standard
  -- leaves open in which order `clear` destroys the entries: `order` gives it.
  pub shutdown : (List (K × ℕ) → List (K × ℕ)) → AsyncMap K T → AsyncMap K T × Bool
  unfolding release_all
  shutdown order s =
      let s' = release_all (record s { m = [] }) (order s.m) in
      (s', elim s'.to_del [ [] ↦ false | c ∷ rest ↦ true ])

  -- `async_map_core::clear`, the loop at the first of some entries. The
  -- loop does not advance its iterator: a round that does not match is followed by the same round.
  -- `none`: the loop still runs when the rounds are used up.
  clear_from : ℕ → AsyncMap K T → List (K × ℕ) → ℕ → Option (AsyncMap K T)
  unfolding release
  clear_from zero s entries c = none
  clear_from (suc rounds) s [] c = some s
  clear_from (suc rounds) s ((k, d) ∷ rest) c = elim (d == c) [
    | true ↦ some (release (record s { m = rest }) d)
    | false ↦ clear_from rounds s ((k, d) ∷ rest) c
  ]

  pub clear : ℕ → AsyncMap K T → ℕ → Option (AsyncMap K T)
  unfolding clear_from
  clear rounds s c = clear_from rounds s s.m c
