-- ===== src/Machine/Scheduler/Closed.antt =====
-- What `_close_running_step_run` does once a task is released.
use runspool.Prelude.{
  ℕ, String, ◌≡◌, ◌≢◌, refl, Bool, true, false, ◌&&◌, ◌⊎◌, inl, inr, Option, none, some, List, [],
  ◌∷◌, arith, ◌==◌, nat_eq, nat_beq_iff, Bool-cases, if◌then◌else◌,
}
use runspool.Prelude.Exec.{Result, ok, err, pure, continue, ◌>>=◌, ◌>>◌}
use runspool.Machine.Outcome.{StateMachine}
use runspool.Machine.Scheduler.{close_running_step_run}
use runspool.Models.{Error}
use runspool.Store.Interleaving.{Idle, here, pass, IsPlain}
use runspool.Store.Rows.{RunStatus, interrupted, StepRun}
use runspool.Store.StepRuns.{close_running_for_task, is_running}
use runspool.Store.Table.{update_all}
use runspool.Store.World.{World, attempt, advance, connect}

-- A run of the task that was running is interrupted at `now`; every other run stays as it was.
abbrev pub IsClosed : ℕ → ℕ → StepRun → StepRun → Type 0
IsClosed i now before after =
    ((before.task_id ≡ i)
      × (before.status ≡ RunStatus.running)
      × (after ≡ record before { status = interrupted; finished_at = some now }))
    ⊎ (((before.task_id ≢ i) ⊎ (before.status ≢ RunStatus.running)) × (after ≡ before))

abbrev pub AllClosed : ℕ → ℕ → List StepRun → List StepRun → Type 0
AllClosed i now [] [] = Unit {0}
AllClosed i now (r ∷ rs) (r' ∷ rs') = IsClosed i now r r' × AllClosed i now rs rs'
AllClosed i now _ _ = ⊥

-- How a method ends that closes the running step runs of a task, where the store keeps step runs.
pub data CloseEnds (step_runs : Bool) (i : ℕ) (w : World) : Result Error Bool × World → Type 0 where
  no_runs : step_runs ≡ false → CloseEnds step_runs i w (ok true, w)
  closed :
      step_runs ≡ true
      → (u : World) → Idle w u
      → (now : ℕ) (runs : List StepRun) → AllClosed i now u.db.step_runs runs
      → CloseEnds step_runs i w (ok true, record u { db = record u.db { step_runs = runs } })
  unclosed :
      step_runs ≡ true
      → (e : Error) (u : World) → IsPlain e
      → Idle w u
      → CloseEnds step_runs i w (err e, u)

abbrev mine : ℕ → StepRun → Bool
mine i r = r.task_id == i && is_running r.status

abbrev ended : ℕ → StepRun → StepRun
ended now r = record r { status = interrupted; finished_at = some now }

one-IsClosed :
    (i now : ℕ) (r : StepRun) (s : RunStatus)
    → r.status ≡ s
    → IsClosed i now r (if r.task_id == i && is_running s then ended now r else r)
one-IsClosed i now r RunStatus.running e = elim (Bool-cases (r.task_id == i)) [
  | inl same ↦ rw same (inl ((nat_beq_iff r.task_id i).0 same, e, refl))
  | inr other ↦ rw other (inr (inl (ground (arith, nat_beq_iff r.task_id i)), refl))
]
one-IsClosed i now r RunStatus.ok e = ground (arith, nat_beq_iff r.task_id i)
one-IsClosed i now r RunStatus.degraded e = ground (arith, nat_beq_iff r.task_id i)
one-IsClosed i now r RunStatus.failed e = ground (arith, nat_beq_iff r.task_id i)
one-IsClosed i now r RunStatus.deferred e = ground (arith, nat_beq_iff r.task_id i)
one-IsClosed i now r RunStatus.rejected e = ground (arith, nat_beq_iff r.task_id i)
one-IsClosed i now r RunStatus.interrupted e = ground (arith, nat_beq_iff r.task_id i)

update-AllClosed :
    (i now : ℕ) (rs : List StepRun) → AllClosed i now rs (update_all (mine i) (ended now) rs)
unfolding update_all
update-AllClosed i now [] = tt
update-AllClosed i now (r ∷ rs) = (one-IsClosed i now r r.status refl, update-AllClosed i now rs)

-- The two statements behind the transaction.
abbrev answered : Result Error ℕ × World → Result Error Bool × World
answered r = continue (λ (_ : Unit {0}). pure true) (continue (λ (_ : ℕ). pure tt) r)

attempt_ends :
    (i : ℕ) (w : World) (fault : Option String) (n now : ℕ) (runs : List StepRun)
    → AllClosed i now (advance w).db.step_runs runs
    → CloseEnds true i w
        (answered (attempt (advance w) fault (ok n, record (advance w).db { step_runs = runs })))
attempt_ends i w none n now runs h = closed refl (advance w) (pass here) now runs h
attempt_ends i w (some message) n now runs h = unclosed refl _ (advance w) tt (pass here)

close_ends :
    (b : Bool) (i : ℕ) (w : World)
    → CloseEnds b i w
        (((if b then (do _ ← close_running_for_task i; pure tt) else pure tt) >> pure true) w)
unfolding close_running_for_task connect
close_ends true i w =
    attempt_ends i w (w.fault w.tick) _ (w.clock w.tick) _
      (update-AllClosed i (w.clock w.tick) (advance w).db.step_runs)
close_ends false i w = no_runs refl

pub close-Ends :
    (m : StateMachine) (i : ℕ) (w : World)
    → CloseEnds m.step_runs i w ((close_running_step_run m i >> pure true) w)
unfolding close_running_step_run
close-Ends m i w = close_ends m.step_runs i w
