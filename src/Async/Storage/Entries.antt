-- ===== src/Async/Storage/Entries.antt =====
-- What the operations of src/util/async_storage.hpp make of the entries of the map.
use trctl.Base.{ℕ, ◌≡◌, refl, ap, true, none, some, eq→==, if◌then◌else◌}
use trctl.Async.Storage.{
  AsyncMap, emplace, try_emplace, erase, emplace_at, new_core, acquire, release,
}
use trctl.Async.Storage.Map.{Key, find, insert, remove}

module _ {K T : Type 0} where
  pub release-entries :
      (s : AsyncMap K T) (c : ℕ)
      → ((release s c).m ≡ s.m) × ((release s c).item ≡ s.item) × ((release s c).next ≡ s.next)
  unfolding release
  release-entries s c = (refl, refl, refl)

module _ {K T : Type 0} ⦃key : Key K⦄ where
  pub emplace-entries :
      (s : AsyncMap K T) (k : K) (x : T)
      → find k s.m ≡ none
      → let r = emplace s k x in
        (r.0.m ≡ insert k s.next s.m) × (r.1 ≡ some s.next) × (r.0.item s.next ≡ x)
  unfolding emplace emplace_at new_core acquire
  emplace-entries s k x e = (
    rw (e, emplace) refl,
    rw (e, emplace) refl,
    rw (e, emplace) (ap (λ b. if b then x else s.item s.next) (eq→== s.next s.next refl)),
  )

  pub emplace_at-entries :
      (s : AsyncMap K T) (k : K) (x : T)
      → let r = emplace_at s k x in (r.0.m ≡ insert k s.next s.m) × (r.1 ≡ s.next)
  unfolding emplace_at new_core acquire
  emplace_at-entries s k x = (refl, refl)

  pub emplace-taken :
      (s : AsyncMap K T) (k : K) (x : T) (c : ℕ) → find k s.m ≡ some c → emplace s k x ≡ (s, none)
  unfolding emplace
  emplace-taken s k x c e = rw (e, emplace) refl

  pub try_emplace-entries :
      (s : AsyncMap K T) (k : K) (x : T)
      → find k s.m ≡ none
      → let r = try_emplace s k x in (r.0.m ≡ insert k s.next s.m) × (r.1 ≡ s.next) × (r.2 ≡ true)
  unfolding try_emplace new_core acquire
  try_emplace-entries s k x e =
      (rw (e, try_emplace) refl, rw (e, try_emplace) refl, rw (e, try_emplace) refl)

  pub erase-entries :
      (s : AsyncMap K T) (k : K) (c : ℕ) → find k s.m ≡ some c → (erase s k).m ≡ remove k s.m
  unfolding erase release
  erase-entries s k c e = rw (e, erase) refl

  pub erase-missing : (s : AsyncMap K T) (k : K) → find k s.m ≡ none → erase s k ≡ s
  unfolding erase
  erase-missing s k e = rw (e, erase) refl
