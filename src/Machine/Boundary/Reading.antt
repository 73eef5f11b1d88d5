-- ===== src/Machine/Boundary/Reading.antt =====
-- Deciding a transition only reads.
use runspool.Prelude.{ℕ, String, Bool, true, false, ◌≡◌, sym, ap, ◌∙◌, Option, none, some, arith}
use runspool.Prelude.Exec.{Result, ok, err}
use runspool.Machine.Boundary.{final_status, on_next, dispatch, boundary, on_deferred, on_failed}
use runspool.Machine.Outcome.{StateMachine, Outcome, succeeded}
use runspool.Models.{Error, NextStep, next_step, completed, partially_completed}
use runspool.Store.Interleaving.{
  IsPlainResult, Reads, Reads-pure, Reads-raise, Reads-if, Reads-connect, Reads-bind, Reads-utcnow,
}
use runspool.Store.Repository.{get_task, task_key}
use runspool.Store.Rows.{Task}
use runspool.Store.StepRuns.{has_degraded}
use runspool.Store.Table.{find}
use runspool.Store.World.{World, advance, attempt, connect, utcnow}

pub get_task-Reads : (i : ℕ) → Reads (get_task i)
unfolding get_task
get_task-Reads i = Reads-connect (λ now db. find task_key i db.tasks)

attempt-Row :
    (i : ℕ) (u v : World) (fault : Option String) (t : Option Task)
    → attempt u fault (ok (find task_key i u.db.tasks), u.db) ≡ (ok t, v)
    → find task_key i v.db.tasks ≡ t
attempt-Row i u v none t h =
    let row : find task_key i u.db.tasks ≡ t = cc in
    let same : record u { db = u.db } ≡ v =
      ap (λ (x : Result Error (Option Task) × World). x.1) h in
    ap (λ (x : World). find task_key i x.db.tasks) (sym same) ∙ row
attempt-Row i u v (some message) t h = absurd (cc)

-- What `get_task` returns is the row, in the world that it leaves.
pub get_task-Row :
    (i : ℕ) (w v : World) (t : Option Task)
    → get_task i w ≡ (ok t, v)
    → find task_key i v.db.tasks ≡ t
unfolding get_task connect
get_task-Row i w v t h = attempt-Row i (advance w) v (w.fault w.tick) t h

has_degraded-Reads : (i : ℕ) → Reads (has_degraded i)
unfolding has_degraded
has_degraded-Reads i = Reads-bind _ (λ runs. Reads-pure _) _ (Reads-connect _)

pub final_status-Reads : (m : StateMachine) (i : ℕ) (b : Bool) → Reads (final_status m i b)
unfolding final_status
final_status-Reads m i true = Reads-pure partially_completed
final_status-Reads m i false =
    Reads-if m.step_runs _ _
      (Reads-bind _ (λ found. Reads-pure _) (has_degraded i) (has_degraded-Reads i))
      (Reads-pure completed)

plain_next : (m : StateMachine) (t : Task) → IsPlainResult (next_step m.workflow t.step)
unfolding next_step
plain_next m t = ground arith

on_next-Reads :
    (m : StateMachine) (t : Task) (d pause : Bool) (r : Result Error NextStep)
    → IsPlainResult r
    → Reads (on_next m t d pause r)
unfolding on_next
on_next-Reads m t d pause (err e) p = Reads-raise e p
on_next-Reads m t d pause (ok next) p =
    Reads-if next.done _ _
      (Reads-bind _ (λ s. Reads-pure _) (final_status m t.id d) (final_status-Reads m t.id d))
      (Reads-pure _)

dispatch-Reads :
    (m : StateMachine) (t : Task) (o : Outcome) (pause : Bool) → Reads (dispatch m t o pause)
unfolding dispatch
dispatch-Reads m t (succeeded d i r p) pause = on_next-Reads m t d pause _ (plain_next m t)
dispatch-Reads m t (Outcome.deferred reason delay) pause =
    Reads-bind _ (λ now. Reads-pure (on_deferred t.step reason delay pause now)) utcnow Reads-utcnow
dispatch-Reads m t (Outcome.failed e delay no_retry) pause =
    Reads-bind _ (λ now. Reads-pure (on_failed t e delay no_retry pause now)) utcnow Reads-utcnow
dispatch-Reads m t _ pause = Reads-pure _

-- `_boundary` changes nothing.
pub boundary-Reads :
    (m : StateMachine) (t : Task) (o : Outcome) (terminate pause : Bool)
    → Reads (boundary m t o terminate pause)
unfolding boundary
boundary-Reads m t o terminate pause =
    Reads-if terminate _ _ (Reads-pure _) (dispatch-Reads m t o pause)
