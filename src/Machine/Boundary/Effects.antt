-- ===== src/Machine/Boundary/Effects.antt =====
-- What the transition of a step boundary does to the task's row, over every outcome.
use runspool.Prelude.{
  ℕ, String, Bool, true, false, ◌≡◌, refl, ◌⊎◌, inl, inr, Option, none, arith, if◌then◌else◌,
}
use runspool.Prelude.Exec.{Result, ok, err}
use runspool.Machine.Boundary.{
  on_terminate, final_status, on_completion, on_advance, on_next, on_denied, on_approval,
  on_external, on_rejected, on_deferred, on_failed, dispatch, boundary, step_name,
}
use runspool.Machine.Outcome.{
  StateMachine, Outcome, succeeded, denied, needs_approval, awaits_external, rejected, Change,
}
use runspool.Models.{
  Error, TaskStatus, queued, paused, terminated, manual_required, completed, partially_completed,
  awaiting_approval, awaiting_external, NextStep, next_step,
}
use runspool.Store.Columns.{write_all}
use runspool.Store.Gives.{Gives, Gives-pure, Gives-raise, Gives-if, Gives-any, Gives-bind}
use runspool.Store.Repository.{has_unwritable}
use runspool.Store.Rows.{Task}
use runspool.Store.StepRuns.{has_degraded}
use runspool.Store.World.{World, utcnow}

abbrev IsFinal : TaskStatus → Type 0
IsFinal s = (s ≡ completed) ⊎ (s ≡ partially_completed)

-- The end of a workflow is `completed` or `partially_completed`.
final_status-IsFinal : (m : StateMachine) (i : ℕ) (b : Bool) → Gives IsFinal (final_status m i b)
unfolding final_status
final_status-IsFinal m i true = Gives-pure partially_completed (inr refl)
final_status-IsFinal m i false =
    Gives-if m.step_runs _ _
      (λ _.
        Gives-bind (has_degraded i) _ (Gives-any (has_degraded i))
          (λ found _. Gives-pure (if found then partially_completed else completed) (ground arith)))
      (λ _. Gives-pure completed (inl refl))

-- The statuses that an outcome may lead to, given whether a pause was asked for.
abbrev pub Leads : Outcome → Bool → TaskStatus → Type 0
Leads (succeeded _ _ _ _) true s = (s ≡ paused) ⊎ IsFinal s
Leads (succeeded _ _ _ _) false s = (s ≡ queued) ⊎ IsFinal s
Leads (denied _) pause s = s ≡ manual_required
Leads (needs_approval _ _) true s = s ≡ paused
Leads (needs_approval _ _) false s = s ≡ awaiting_approval
Leads (awaits_external _ _) true s = s ≡ paused
Leads (awaits_external _ _) false s = s ≡ awaiting_external
Leads (rejected _ _ _ _ _) true s = (s ≡ paused) ⊎ (s ≡ manual_required)
Leads (rejected _ _ _ _ _) false s = (s ≡ queued) ⊎ (s ≡ manual_required)
Leads (Outcome.deferred _ _) true s = s ≡ paused
Leads (Outcome.deferred _ _) false s = s ≡ queued
Leads (Outcome.failed _ _ _) true s = (s ≡ paused) ⊎ (s ≡ manual_required)
Leads (Outcome.failed _ _ _) false s = (s ≡ TaskStatus.failed) ⊎ (s ≡ manual_required)

-- The task that was `t` no longer has a worker, and is the same task otherwise.
pub record IsReleased (t t' : Task) : Type 0 where
  pub locked_by : t'.locked_by ≡ none
  pub locked_at : t'.locked_at ≡ none
  pub heartbeat_at : t'.heartbeat_at ≡ none
  pub claim_token : t'.claim_token ≡ none
  pub id : t'.id ≡ t.id
  pub input : t'.input ≡ t.input
  pub workflow : t'.workflow ≡ t.workflow
  pub max_retries : t'.max_retries ≡ t.max_retries
  pub metadata : t'.metadata ≡ t.metadata
  pub parent : t'.parent_task_id ≡ t.parent_task_id

-- What a boundary's change makes of a row `t`.
pub record IsSettled (o : Outcome) (pause : Bool) (t : Task) (c : Change) : Type 0 where
  pub leads : Leads o pause (write_all c.fields t).status
  pub released : IsReleased t (write_all c.fields t)
  pub pause_done : (pause ≡ false) ⊎ ((write_all c.fields t).pause_requested ≡ false)
  pub writable : has_unwritable c.fields ≡ false
  pub terminate_kept : (write_all c.fields t).terminate_requested ≡ t.terminate_requested

on_completion-IsSettled :
    (d : Bool) (i r : Option ℕ) (p : _) (q t : Task) (s : TaskStatus) (pause : Bool)
    → IsFinal s
    → IsSettled (succeeded d i r p) pause t (on_completion q.step s)
unfolding on_completion
on_completion-IsSettled d i r p q t s pause h = ground arith

on_advance-IsSettled :
    (d : Bool) (i r : Option ℕ) (p : _) (q t : Task) (next : String) (pause : Bool)
    → IsSettled (succeeded d i r p) pause t (on_advance q.step next pause)
unfolding on_advance
on_advance-IsSettled d i r p q t next true = ground arith
on_advance-IsSettled d i r p q t next false = ground arith

on_failed-IsSettled :
    (e : String) (delay : ℕ) (no_retry pause : Bool) (now : ℕ) (q t : Task)
    → IsSettled (Outcome.failed e delay no_retry) pause t (on_failed q e delay no_retry pause now)
unfolding on_failed
on_failed-IsSettled e delay no_retry true now q t = ground arith
on_failed-IsSettled e delay no_retry false now q t = ground arith

on_rejected-IsSettled :
    (reason : String) (item n limit : ℕ) (run : Option ℕ) (pause : Bool) (q t : Task)
    → IsSettled
        (rejected reason item n limit run)
        pause
        t
        (on_rejected q.step reason item n limit pause)
unfolding on_rejected
on_rejected-IsSettled reason item n limit run true q t = ground arith
on_rejected-IsSettled reason item n limit run false q t = ground arith

on_next-IsSettled :
    (m : StateMachine) (q t : Task) (d : Bool) (i r : Option ℕ) (p : _) (pause : Bool)
    (next : Result Error NextStep)
    → Gives (IsSettled (succeeded d i r p) pause t) (on_next m q d pause next)
unfolding on_next
on_next-IsSettled m q t d i r p pause (err e) = Gives-raise e
on_next-IsSettled m q t d i r p pause (ok next) =
    Gives-if next.done _ _
      (λ _. Gives-bind (final_status m q.id d) _ (final_status-IsFinal m q.id d) (λ s final.
        Gives-pure (on_completion q.step s) (on_completion-IsSettled d i r p q t s pause final)))
      (λ _.
        Gives-pure (on_advance q.step (step_name next.step) pause)
          (on_advance-IsSettled d i r p q t (step_name next.step) pause))

dispatch-IsSettled :
    (m : StateMachine) (q t : Task) (o : Outcome) (pause : Bool)
    → Gives (IsSettled o pause t) (dispatch m q o pause)
unfolding dispatch on_denied on_approval on_external on_deferred
dispatch-IsSettled m q t (succeeded d i r p) pause =
    on_next-IsSettled m q t d i r p pause (next_step m.workflow q.step)
dispatch-IsSettled m q t (denied reason) pause = Gives-pure (on_denied q.step reason) (ground arith)
dispatch-IsSettled m q t (needs_approval reason n) true =
    Gives-pure (on_approval q.step reason n true) (ground arith)
dispatch-IsSettled m q t (needs_approval reason n) false =
    Gives-pure (on_approval q.step reason n false) (ground arith)
dispatch-IsSettled m q t (awaits_external r reuse) true =
    Gives-pure (on_external q.step r reuse true) (ground arith)
dispatch-IsSettled m q t (awaits_external r reuse) false =
    Gives-pure (on_external q.step r reuse false) (ground arith)
dispatch-IsSettled m q t (rejected reason item n limit run) pause =
    Gives-pure (on_rejected q.step reason item n limit pause)
      (on_rejected-IsSettled reason item n limit run pause q t)
dispatch-IsSettled m q t (Outcome.deferred reason delay) true =
    Gives-bind utcnow _ (Gives-any utcnow)
      (λ now _. Gives-pure (on_deferred q.step reason delay true now) (ground arith))
dispatch-IsSettled m q t (Outcome.deferred reason delay) false =
    Gives-bind utcnow _ (Gives-any utcnow)
      (λ now _. Gives-pure (on_deferred q.step reason delay false now) (ground arith))
dispatch-IsSettled m q t (Outcome.failed e delay no_retry) pause =
    Gives-bind utcnow _ (Gives-any utcnow) (λ now _.
      Gives-pure (on_failed q e delay no_retry pause now)
        (on_failed-IsSettled e delay no_retry pause now q t))

-- Terminated for good: no flag and no scheduled time is left.
pub record IsTerminated (t : Task) (c : Change) : Type 0 where
  pub status : (write_all c.fields t).status ≡ terminated
  pub terminate_done : (write_all c.fields t).terminate_requested ≡ false
  pub pause_done : (write_all c.fields t).pause_requested ≡ false
  pub unscheduled : (write_all c.fields t).next_retry_at ≡ none
  pub writable : has_unwritable c.fields ≡ false
  pub released : IsReleased t (write_all c.fields t)

on_terminate-IsTerminated : (q t : Task) (o : Outcome) → IsTerminated t (on_terminate q.step o)
unfolding on_terminate
on_terminate-IsTerminated q t (Outcome.failed e delay no_retry) = ground arith
on_terminate-IsTerminated q t _ = ground arith

module _ (m : StateMachine) (q t : Task) (o : Outcome) (pause : Bool) (w w' : World)
    (c : Change) where
  -- When no terminate is asked for, the change that `_boundary` decides for a task moves any row
  -- that it is written to into a status that the outcome allows under that pause flag, takes the
  -- row's lock, heartbeat and claim away, keeps its identity and its terminate flag, and clears a
  -- requested pause.
  pub boundary_settles : boundary m q o false pause w ≡ (ok c, w') → IsSettled o pause t c
  unfolding boundary
  boundary_settles h = (dispatch-IsSettled m q t o pause).of w w' c h

  -- When a terminate is asked for, the change that `_boundary` decides terminates any row that it is
  -- written to, whatever the outcome and the pause flag: no flag and no scheduled time is left, and
  -- lock, heartbeat and claim are gone.
  pub boundary_terminates : boundary m q o true pause w ≡ (ok c, w') → IsTerminated t c
  unfolding boundary
  boundary_terminates h =
      (Gives-pure {P = IsTerminated t} (on_terminate q.step o) (on_terminate-IsTerminated q t o)).of
        w w' c h
