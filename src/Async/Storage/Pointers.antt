-- ===== src/Async/Storage/Pointers.antt =====
-- `async_ptr` of src/util/async_storage.hpp, which may be null, and the end of an `async_map`.
use trctl.Base.{
  ℕ, ◌≡◌, refl, sym, ◌∙◌, append_assoc, Option, none, some, List, [], ◌∷◌, ◌++◌, append-nil,
}
use trctl.Async.Storage.{AsyncMap, release}
use trctl.Async.Storage.Counts.{Inv, listed, release-Inv}

-- `async_ptr( async_ptr&& )`: the new pointer, and what is left of the other.
move : Option ℕ → Option ℕ × Option ℕ
move other = (other, none)

module _ {K T : Type 0} where
  -- `~async_ptr`
  drop : AsyncMap K T → Option ℕ → AsyncMap K T
  drop s none = s
  drop s (some c) = release s c

  -- `operator=( async_ptr&& )` to a pointer from another one: the copy takes over the other, is swapped with
  -- the pointer, and ends. The two pointers afterwards.
  assign : AsyncMap K T → Option ℕ → Option ℕ → AsyncMap K T × Option ℕ × Option ℕ
  unfolding drop move
  assign s c other = let (cpy, other') = move other in (drop s c, cpy, other')

  -- Its own assignment: the pointer is null while it is moved.
  assign_self : AsyncMap K T → Option ℕ → AsyncMap K T × Option ℕ
  unfolding drop move
  assign_self s c = let (cpy, c') = move c in (drop s c', cpy)

  -- The counters stay the numbers of pointers, when a pointer is assigned: the one that it was is dropped, and the
  -- other is now null.
  assign-Inv :
      (s : AsyncMap K T) (c other : Option ℕ) (held : List ℕ)
      → ((d : ℕ) → Inv s (listed c ++ (listed other ++ held)) d)
      → (d : ℕ)
      → let (s', c', other') = assign s c other in Inv s' (listed c' ++ (listed other' ++ held)) d
  unfolding assign drop move
  assign-Inv s none other held v d = v d
  assign-Inv s (some x) other held v d = release-Inv s x (listed other ++ held) d (v d) (v x)

  assign_self-same : (s : AsyncMap K T) (c : Option ℕ) → assign_self s c ≡ (s, c)
  unfolding assign_self drop move
  assign_self-same s c = refl

  -- `~async_map`: the loop deletes what waits to be destroyed.
  delete_from : AsyncMap K T → List ℕ → AsyncMap K T
  delete_from s [] = s
  delete_from s (x ∷ rest) =
      delete_from (record s { to_del = rest; deleted = s.deleted ++ (x ∷ []) }) rest

  destruct : AsyncMap K T → AsyncMap K T
  unfolding delete_from
  destruct s = delete_from s s.to_del

  delete_from-all :
      (cs : List ℕ) (s : AsyncMap K T)
      → s.to_del ≡ cs
      → ((delete_from s cs).to_del ≡ []) × ((delete_from s cs).deleted ≡ s.deleted ++ cs)
  unfolding delete_from
  delete_from-all [] s e = (e, sym (append-nil s.deleted))
  delete_from-all (x ∷ rest) s e =
      let (none_left, all) =
        delete_from-all rest (record s { to_del = rest; deleted = s.deleted ++ (x ∷ []) }) refl in
      (none_left, all ∙ append_assoc s.deleted (x ∷ []) rest)

  -- All that wait are deleted, in their order.
  destruct-all :
      (s : AsyncMap K T)
      → ((destruct s).to_del ≡ []) × ((destruct s).deleted ≡ s.deleted ++ s.to_del)
  unfolding destruct
  destruct-all s = delete_from-all s.to_del s refl
