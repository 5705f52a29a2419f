-- ===== src/Process/Tasks/Context/Taken.antt =====
-- What becomes of the next process to destroy (src/unit/process.hpp), over a tick and its exit.
use trctl.Base.{
  ℕ, ◌≡◌, ◌<◌, refl, sym, subst, ap, ◌∙◌, true, false, none, some, List, [], ◌∷◌, ◌++◌, ◌==◌,
  if◌then◌else◌, arith, eq→==, Option-cases, Bool-cases, inl, inr,
}
use trctl.Async.Optional.{Optional}
use trctl.Async.Optional as Optionals
use trctl.Async.Storage.{AsyncMap, destroy_ended}
use trctl.Async.Storage.Counts.{listed}
use trctl.Async.Storage.Ends.{tick-next}
use trctl.Process.{Proc, stored, on_exit}
use trctl.Process.Tasks.{Os, destroy}
use trctl.Process.Tasks.Context.{ProcCtx, started, tick_procs, resume_destroy, exits}

-- The requests that stop the process in a core: none if it never ran.
abbrev pub stop : {W : Type 0} → Os W → W → ℕ → Proc → W
stop os w c p = if p.spawned then os.kill (os.read_stop (os.read_stop w c false) c true) c else w

abbrev pub stop_all : {W : Type 0} → Os W → (ℕ → Proc) → W → List ℕ → W
stop_all os item w [] = w
stop_all os item w (c ∷ cs) = stop_all os item (stop os w c (item c)) cs

-- The process that is waited for exits, if there is one.
abbrev pub exit_awaited : ProcCtx → ℕ → ProcCtx
exit_awaited s status = elim s.procs.to_erase [
  | some d ↦ s
  | none ↦ elim s.procs.destroy_task [ none ↦ s | some c ↦ exits s c status ]
]

-- The state after the core `c` was taken and its process has ended; the state before was `m`.
pub record Taken (m m' : AsyncMap ℕ Proc) (c : ℕ) (rest : List ℕ) : Type 0 where
  pub erase_is : m'.to_erase ≡ some c
  pub task_is : m'.destroy_task ≡ some c
  pub del_is : m'.to_del ≡ rest
  pub deleted_is : m'.deleted ≡ m.deleted ++ listed m.to_erase
  pub items_are : (j : ℕ) → 0 < (if c == j then 0 else 1) → m'.item j ≡ m.item j

abbrev pub taken : AsyncMap ℕ Proc → ℕ → List ℕ → AsyncMap ℕ Proc
taken m c rest = record m {
  to_erase = none;
  destroy_task = some c;
  to_del = rest;
  deleted = m.deleted ++ listed m.to_erase;
}

started-next :
    (m : AsyncMap ℕ Proc) (c : ℕ) (rest : List ℕ)
    → m.to_erase ≡ m.destroy_task
    → m.to_del ≡ c ∷ rest
    → started m ≡ some c
unfolding started
started-next m c rest e q =
    let same = ap (λ t. t.destroy_task) (tick-next m c rest e q) in
    elim (Option-cases m.to_erase) [
      | inl n ↦ rw (n, sym e ∙ n, started) same
      | inr (d, n) ↦ rw (n, started) same
    ]

-- What a tick does with the next core.
pub begin : {W : Type 0} → Os W → W → AsyncMap ℕ Proc → ℕ → ℕ → W × AsyncMap ℕ Proc
begin os w m' c op =
    let (w', p, gone) = destroy os w c (m'.item c) op in
    let m'' = stored m' c p in if gone then (w', destroy_ended m'') else (w', m'')

pub tick_procs-next :
    {W : Type 0} (os : Os W) (w : W) (m : AsyncMap ℕ Proc) (op c : ℕ) (rest : List ℕ)
    → m.to_erase ≡ m.destroy_task
    → m.to_del ≡ c ∷ rest
    → tick_procs os w m op ≡ begin os w (taken m c rest) c op
unfolding tick_procs begin
tick_procs-next os w m op c rest e q =
    rw (started-next m c rest e q, tick_procs)
      (ap (λ t. begin os w t c op) (tick-next m c rest e q))

stored-other :
    (m : AsyncMap ℕ Proc) (c : ℕ) (p : Proc) (j : ℕ)
    → 0 < (if c == j then 0 else 1)
    → (stored m c p).item j ≡ m.item j
unfolding stored
stored-other m c p j other = ground arith

-- The process that is waited for exits, and its core can be erased.
exits-Taken :
    (s : ProcCtx) (status c : ℕ) (rest : List ℕ) (p : Proc)
    → Taken s.procs
        (exits (record s { procs = stored (taken s.procs c rest) c p }) c status).procs
        c
        rest
unfolding exits resume_destroy destroy_ended stored
exits-Taken s status c rest p =
    let m = stored (taken s.procs c rest) c p in
    let (stream, finished_procs, woken) = on_exit (m.item c).stream s.finished_procs c status in
    let m1 = stored m c (record { spawned = (m.item c).spawned; stream = stream }) in
    let done : ProcCtx = record { procs = resume_destroy m1 c; finished_procs = finished_procs } in
    let left : ProcCtx = record { procs = m1; finished_procs = finished_procs } in
    let same : exits (record s { procs = m }) c status ≡ done =
      ap (λ b. if b then done else left) (eq→== c c refl) in
    subst (λ x. Taken s.procs x.procs c rest) (sym same)
      (record {
        erase_is = refl;
        task_is = refl;
        del_is = refl;
        deleted_is = refl;
        items_are = λ j other.
            stored-other m1 c (record { spawned = false; stream = (m1.item c).stream }) j other
            ∙ stored-other m c (record { spawned = (m.item c).spawned; stream = stream }) j other
            ∙ stored-other (taken s.procs c rest) c p j other;
      })

pub begin-Taken :
    {W : Type 0} (os : Os W) (w : W) (s : ProcCtx) (op status c : ℕ) (rest : List ℕ)
    → let (w', m') = begin os w (taken s.procs c rest) c op in
      (w' ≡ stop os w c (s.procs.item c))
      × Taken s.procs (exit_awaited (record s { procs = m' }) status).procs c rest
unfolding begin destroy Optionals.start stored exits resume_destroy destroy_ended
begin-Taken os w s op status c rest =
    let m = taken s.procs c rest in
    let p = s.procs.item c in
    elim (Bool-cases (s.procs.item c).spawned) [
      | inr off ↦
          rw (off, begin, destroy)
            (
              refl,
              record {
                erase_is = refl;
                task_is = refl;
                del_is = refl;
                deleted_is = refl;
                items_are = λ j other.
                    stored-other m c (record { spawned = false; stream = (s.procs.item c).stream })
                      j other;
              },
            )
      | inl on ↦ elim (Option-cases (s.procs.item c).stream.exit_status.opt) [
        | inl n ↦
            rw (on, n, begin, destroy)
              (
                refl,
                exits-Taken s status c rest (record p {
                  stream = record p.stream {
                    exit_status = (Optionals.start p.stream.exit_status op).0;
                  };
                }),
              )
        | inr (v, n) ↦
            rw (on, n, begin, destroy)
              (
                refl,
                record {
                  erase_is = refl;
                  task_is = refl;
                  del_is = refl;
                  deleted_is = refl;
                  items_are = λ j other. stored-other m c (record p { spawned = false }) j other;
                },
              )
      ]
    ]
