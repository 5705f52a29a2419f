-- ===== src/Async/Storage/Ends.antt =====
-- The map of an `async_map` (src/util/async_storage.hpp) at its end.
use trctl.Base.{
  ℕ, ◌≡◌, refl, sym, ap, ap₂, ◌∙◌, Option, none, some, List, [], ◌∷◌, ◌++◌, append-nil,
  append_assoc, ◌<◌, ◌==◌, if◌then◌else◌, ◌+◌, ◌-◌, ◌%◌, ◌^◌, arith,
}
use trctl.Async.Storage.Counts.{listed}
use trctl.Async.Storage.{
  AsyncMap, release, release_all, shutdown, tick, destroy_ended, reap, proceed,
}

release_all-m : {K T : Type 0} (es : List (K × ℕ)) (s : AsyncMap K T) → (release_all s es).m ≡ s.m
unfolding release_all release
release_all-m [] s = refl
release_all-m ((k, c) ∷ es) s = release_all-m es (release s c)

-- A shutdown empties the map, and the ticks leave it as it is.
pub shutdown-m :
    {K T : Type 0} (order : List (K × ℕ) → List (K × ℕ)) (s : AsyncMap K T)
    → (shutdown order s).0.m ≡ []
unfolding shutdown
shutdown-m order s = release_all-m (order s.m) (record s { m = [] })

pub tick-m : {K T : Type 0} (s : AsyncMap K T) → (tick s).m ≡ s.m
unfolding tick reap proceed
tick-m s = ground arith

pub destroy_ended-m : {K T : Type 0} (s : AsyncMap K T) → (destroy_ended s).m ≡ s.m
unfolding destroy_ended
destroy_ended-m s = refl

tick-parts :
    {K T : Type 0} (s : AsyncMap K T) (c : ℕ) (rest : List ℕ) (o : Option ℕ)
    → tick (record s { to_erase = o; destroy_task = o; to_del = c ∷ rest }) ≡ record s {
      to_erase = none;
      destroy_task = some c;
      to_del = rest;
      deleted = s.deleted ++ listed o;
    }
unfolding tick reap proceed
tick-parts s c rest none =
    ap (λ k. record s { to_erase = none; destroy_task = some c; to_del = rest; deleted = k })
      (sym (append-nil s.deleted))
tick-parts s c rest (some d) = refl

-- A tick deletes the core that was destroyed, and starts to destroy the next one.
pub tick-next :
    {K T : Type 0} (s : AsyncMap K T) (c : ℕ) (rest : List ℕ)
    → s.to_erase ≡ s.destroy_task
    → s.to_del ≡ c ∷ rest
    → tick s ≡ record s {
      to_erase = none;
      destroy_task = some c;
      to_del = rest;
      deleted = s.deleted ++ listed s.to_erase;
    }
tick-next s c rest e q =
    ap₂ (λ o k. tick (record s { destroy_task = o; to_del = k })) (sym e) q
    ∙ tick-parts s c rest s.to_erase

-- A core that is in a list once.
abbrev pub Apart : ℕ → List ℕ → Type 0
Apart c [] = Unit {0}
Apart c (j ∷ js) = (0 < (if c == j then 0 else 1)) × Apart c js

abbrev pub Distinct : List ℕ → Type 0
Distinct [] = Unit {0}
Distinct (c ∷ cs) = Apart c cs × Distinct cs

abbrev pub cores : {K : Type 0} → List (K × ℕ) → List ℕ
cores [] = []
cores (e ∷ es) = e.1 ∷ cores es

-- Only the map points to its cores.
abbrev pub Once : {K T : Type 0} → AsyncMap K T → List (K × ℕ) → Type 0
Once s [] = Unit {0}
Once s (e ∷ es) = (s.cnt e.1 ≡ 1) × Once s es

-- The cores join those to destroy, and nothing else becomes of them.
pub record Released {K T : Type 0} (s s' : AsyncMap K T) (cs : List ℕ) : Type 0 where
  pub del_is : s'.to_del ≡ s.to_del ++ cs
  pub items_are : s'.item ≡ s.item
  pub erase_is : s'.to_erase ≡ s.to_erase
  pub task_is : s'.destroy_task ≡ s.destroy_task
  pub deleted_is : s'.deleted ≡ s.deleted

release-Released :
    {K T : Type 0} (s : AsyncMap K T) (c : ℕ) → s.cnt c ≡ 1 → Released s (release s c) (c ∷ [])
unfolding release
release-Released s c e = record {
  del_is = ap (λ n. if (n + (2 ^ 32 - 1)) % 2 ^ 32 == 0 then s.to_del ++ (c ∷ []) else s.to_del) e;
  items_are = refl;
  erase_is = refl;
  task_is = refl;
  deleted_is = refl;
}

release-Once :
    {K T : Type 0} (s : AsyncMap K T) (c : ℕ) (es : List (K × ℕ))
    → Apart c (cores es)
    → Once s es
    → Once (release s c) es
unfolding release
release-Once s c [] apart once = tt
release-Once s c (e ∷ es) apart once =
    (ground (arith, once.0, apart.0), release-Once s c es apart.1 once.1)

release_all-Released :
    {K T : Type 0} (es : List (K × ℕ)) (s : AsyncMap K T)
    → Distinct (cores es)
    → Once s es
    → Released s (release_all s es) (cores es)
unfolding release_all
release_all-Released [] s d once = record {
  del_is = sym (append-nil s.to_del);
  items_are = refl;
  erase_is = refl;
  task_is = refl;
  deleted_is = refl;
}
release_all-Released ((k, c) ∷ es) s d once =
    let now = release-Released s c once.0 in
    let later = release_all-Released es (release s c) d.1 (release-Once s c es d.0 once.1) in
    record {
      del_is =
          later.del_is
          ∙ ap (λ ds. ds ++ cores es) now.del_is
          ∙ append_assoc s.to_del (c ∷ []) (cores es);
      items_are = later.items_are ∙ now.items_are;
      erase_is = later.erase_is ∙ now.erase_is;
      task_is = later.task_is ∙ now.task_is;
      deleted_is = later.deleted_is ∙ now.deleted_is;
    }

Once-same :
    {K T : Type 0} (s : AsyncMap K T) (es : List (K × ℕ))
    → Once s es
    → Once (record s { m = [] }) es
Once-same s [] once = tt
Once-same s (e ∷ es) once = (once.0, Once-same s es once.1)

pub shutdown-Released :
    {K T : Type 0} (order : List (K × ℕ) → List (K × ℕ)) (s : AsyncMap K T)
    → Distinct (cores (order s.m))
    → Once s (order s.m)
    → Released s (shutdown order s).0 (cores (order s.m))
unfolding shutdown
shutdown-Released order s d once =
    let es = order s.m in
    let k = release_all-Released es (record s { m = [] }) d (Once-same s es once) in
    record {
      del_is = k.del_is;
      items_are = k.items_are;
      erase_is = k.erase_is;
      task_is = k.task_is;
      deleted_is = k.deleted_is;
    }
