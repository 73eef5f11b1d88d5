-- ===== src/Machine/Boundary/Calm.antt =====
-- In quiet, a decision is made for every outcome of a step that is part of the workflow.
use runspool.Prelude.{◌≡◌, Bool, true, false, ℕ, arith, contains, string_eq}
use runspool.Prelude.Exec.{Result, ok, err}
use runspool.Machine.Boundary.{final_status, on_next, dispatch, boundary, on_deferred, on_failed}
use runspool.Machine.Outcome.{StateMachine, Outcome, succeeded}
use runspool.Models.{Error, NextStep, next_step, completed, partially_completed}
use runspool.Store.Quiet.{Calm, Calm-pure, Calm-if, Calm-connect, Calm-bind, Calm-utcnow}
use runspool.Store.Rows.{Task}
use runspool.Store.StepRuns.{has_degraded}
use runspool.Store.World.{utcnow}

has_degraded-Calm : (i : ℕ) → Calm (has_degraded i)
unfolding has_degraded
has_degraded-Calm i = Calm-bind _ _ (Calm-connect _) (λ runs. Calm-pure _)

final_status-Calm : (m : StateMachine) (i : ℕ) (b : Bool) → Calm (final_status m i b)
unfolding final_status
final_status-Calm m i true = Calm-pure partially_completed
final_status-Calm m i false =
    Calm-if m.step_runs _ _
      (Calm-bind (has_degraded i) _ (has_degraded-Calm i) (λ found. Calm-pure _))
      (Calm-pure completed)

abbrev IsOk : Result Error NextStep → Type 0
IsOk (ok next) = Unit
IsOk (err e) = ⊥

next_step-IsOk :
    (m : StateMachine) (t : Task)
    → contains m.workflow.steps t.step ≡ true
    → IsOk (next_step m.workflow t.step)
unfolding next_step
next_step-IsOk m t h = ground arith

on_next-Calm :
    (m : StateMachine) (t : Task) (d pause : Bool) (r : Result Error NextStep)
    → IsOk r
    → Calm (on_next m t d pause r)
unfolding on_next
on_next-Calm m t d pause (err e) p = absurd p
on_next-Calm m t d pause (ok next) p =
    Calm-if next.done _ _
      (Calm-bind (final_status m t.id d) _ (final_status-Calm m t.id d) (λ s. Calm-pure _))
      (Calm-pure _)

dispatch-Calm :
    (m : StateMachine) (t : Task) (o : Outcome) (pause : Bool)
    → contains m.workflow.steps t.step ≡ true
    → Calm (dispatch m t o pause)
unfolding dispatch
dispatch-Calm m t (succeeded d i r p) pause h = on_next-Calm m t d pause _ (next_step-IsOk m t h)
dispatch-Calm m t (Outcome.deferred reason delay) pause h =
    Calm-bind utcnow _ Calm-utcnow (λ now. Calm-pure (on_deferred t.step reason delay pause now))
dispatch-Calm m t (Outcome.failed e delay no_retry) pause h =
    Calm-bind utcnow _ Calm-utcnow (λ now. Calm-pure (on_failed t e delay no_retry pause now))
dispatch-Calm m t _ pause h = Calm-pure _

pub boundary-Calm :
    (m : StateMachine) (t : Task) (o : Outcome) (terminate pause : Bool)
    → contains m.workflow.steps t.step ≡ true
    → Calm (boundary m t o terminate pause)
unfolding boundary
boundary-Calm m t o terminate pause h =
    Calm-if terminate _ _ (Calm-pure _) (dispatch-Calm m t o pause h)
