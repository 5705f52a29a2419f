-- ===== src/Process/Tasks/Context/Kills.antt =====
-- How the processes of a unit are killed (src/unit/process.hpp).
use trctl.Base.{
  ℕ, ◌≡◌, ◌<◌, refl, sym, subst, ap, ◌∙◌, List, [], ◌∷◌, ◌++◌, ◌==◌, if◌then◌else◌, length, arith,
  append_assoc, append-nil,
}
use trctl.Async.Storage.{AsyncMap}
use trctl.Async.Storage.Counts.{listed}
use trctl.Async.Storage.Ends.{Apart, Distinct, cores, Once, shutdown-Released}
use trctl.Process.{Proc}
use trctl.Process.Tasks.{Os}
use trctl.Process.Tasks.Context.{ProcCtx, shutdown, tick_procs}
use trctl.Process.Tasks.Context.Taken.{
  stop, stop_all, exit_awaited, taken, begin, tick_procs-next, begin-Taken,
}

stop_all-same :
    {W : Type 0} (os : Os W) (item item' : ℕ → Proc) (w : W) (c : ℕ) (cs : List ℕ)
    → Apart c cs
    → ((j : ℕ) → 0 < (if c == j then 0 else 1) → item' j ≡ item j)
    → stop_all os item' w cs ≡ stop_all os item w cs
stop_all-same os item item' w c [] apart same = refl
stop_all-same os item item' w c (j ∷ js) apart same =
    ap (λ p. stop_all os item' (stop os w j p) js) (same j apart.0)
    ∙ stop_all-same os item item' (stop os w j (item j)) c js apart.1 same

-- A tick of the map, in which the operation `op` waits, and then the exit, with a status, of the process that is
-- waited for.
abbrev pub rounds : {W : Type 0} → Os W → W → ProcCtx → List (ℕ × ℕ) → W × ProcCtx
rounds os w s [] = (w, s)
rounds os w s ((op, status) ∷ turns) =
    let (w', m) = tick_procs os w s.procs op in
    rounds os w' (exit_awaited (record s { procs = m }) status) turns

-- The map and libuv after the cores `cs` were destroyed.
pub record Killed {W : Type 0} (os : Os W) (w w' : W) (m m' : AsyncMap ℕ Proc) (cs : List ℕ)
    : Type 0 where
  pub stopped : w' ≡ stop_all os m.item w cs
  pub none_left : m'.to_del ≡ []
  pub deleted_are : m'.deleted ++ listed m'.to_erase ≡ (m.deleted ++ listed m.to_erase) ++ cs
  pub last_is : m'.to_erase ≡ m'.destroy_task

rounds-Killed :
    {W : Type 0} (os : Os W) (cs : List ℕ) (turns : List (ℕ × ℕ)) (w : W) (s : ProcCtx)
    → s.procs.to_del ≡ cs
    → length turns ≡ length cs
    → s.procs.to_erase ≡ s.procs.destroy_task
    → Distinct cs
    → Killed os w (rounds os w s turns).0 s.procs (rounds os w s turns).1.procs cs
rounds-Killed os [] [] w s q l e d = record {
  stopped = refl;
  none_left = q;
  deleted_are = sym (append-nil (s.procs.deleted ++ listed s.procs.to_erase));
  last_is = e;
}
rounds-Killed os [] (t ∷ ts) w s q l e d = absurd (omega (arith, l))
rounds-Killed os (c ∷ cs) [] w s q l e d = absurd (omega (arith, l))
rounds-Killed os (c ∷ cs) ((op, status) ∷ turns) w s q l e d =
    let m = taken s.procs c cs in
    let (w', m') = begin os w m c op in
    let s' = exit_awaited (record s { procs = m' }) status in
    let now = begin-Taken os w s op status c cs in
    let k = now.1 in
    let later =
      rounds-Killed os cs turns w' s' k.del_is (omega (arith, l)) (k.erase_is ∙ sym k.task_is)
        d.1 in
    subst
      (λ p.
        let r = rounds os p.0 (exit_awaited (record s { procs = p.1 }) status) turns in
        Killed os w r.0 s.procs r.1.procs (c ∷ cs))
      (sym (tick_procs-next os w s.procs op c cs e q))
      (record {
        stopped =
            later.stopped
            ∙ stop_all-same os s.procs.item s'.procs.item w' c cs d.0 k.items_are
            ∙ ap (λ v. stop_all os s.procs.item v cs) now.0;
        none_left = later.none_left;
        deleted_are =
            later.deleted_are
            ∙ ap (λ o. (s'.procs.deleted ++ listed o) ++ cs) k.erase_is
            ∙ ap (λ ds. (ds ++ (c ∷ [])) ++ cs) k.deleted_is
            ∙ append_assoc (s.procs.deleted ++ listed s.procs.to_erase) (c ∷ []) cs;
        last_is = later.last_is;
      })

-- The shutdown of the context, where `order` lists the entries in the order in which the map is cleared, each core
-- once, only the map points to them, and nothing is queued: the map then destroys them one per tick, in that order,
-- provided that each process exits before the next tick. Each process that was spawned is stopped and killed just once, and
-- the next only after its exit; and each core is deleted, but the last, which is to be erased.
pub shutdown-Killed :
    {W : Type 0} (os : Os W) (w : W) (order : List (ℕ × ℕ) → List (ℕ × ℕ)) (s : ProcCtx)
    (turns : List (ℕ × ℕ))
    → s.procs.to_del ≡ []
    → s.procs.to_erase ≡ s.procs.destroy_task
    → Distinct (cores (order s.procs.m))
    → Once s.procs (order s.procs.m)
    → length turns ≡ length (cores (order s.procs.m))
    → let r = rounds os w (shutdown order s).0 turns in
      Killed os w r.0 s.procs r.1.procs (cores (order s.procs.m))
unfolding shutdown
shutdown-Killed os w order s turns none_left e d once l =
    let k = shutdown-Released order s.procs d once in
    let cs = cores (order s.procs.m) in
    let r =
      rounds-Killed os cs turns w (shutdown order s).0 (k.del_is ∙ ap (λ ds. ds ++ cs) none_left) l
        (k.erase_is ∙ e ∙ sym k.task_is) d in
    record {
      stopped = r.stopped ∙ ap (λ item. stop_all os item w cs) k.items_are;
      none_left = r.none_left;
      deleted_are =
          r.deleted_are
          ∙ ap (λ ds. (ds ++ listed (shutdown order s).0.procs.to_erase) ++ cs) k.deleted_is
          ∙ ap (λ o. (s.procs.deleted ++ listed o) ++ cs) k.erase_is;
      last_is = r.last_is;
    }
