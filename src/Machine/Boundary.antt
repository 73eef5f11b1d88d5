-- ===== src/Machine/Boundary.antt =====
-- state_machine.py, `_boundary`: the transition that a step's outcome asks for, given the flags.
pub mod Effects
pub mod Reading
pub mod Calm
use runspool.Prelude.{
  ℕ, suc, ◌+◌, String, Bool, true, false, ◌||◌, Option, none, some, List, [], ◌∷◌, ◌++◌, ltb,
  if◌then◌else◌,
}
use runspool.Prelude.Exec.{Result, ok, err, pure, raise, ◌>>=◌}
use runspool.Gate.{asked_value}
use runspool.Models.{
  TaskStatus, queued, paused, terminated, manual_required, completed, partially_completed,
  awaiting_approval, awaiting_external, EventType, Error, step_completed, step_failed,
  approval_asked, item_opened, item_rejected, next_step, NextStep,
}
use runspool.Machine.Outcome.{
  StateMachine, Outcome, succeeded, denied, needs_approval, awaits_external, rejected, is_exhausted,
  unlock, Change, event, event_with, event_of,
}
use runspool.Store.Columns.{Cell}
use runspool.Store.Items.{Request}
use runspool.Store.Rows.{ℤ, pos, negsuc, Task, num, flag}
use runspool.Store.StepRuns.{has_degraded}
use runspool.Store.World.{M, utcnow}
use runspool.Text.{join, decimal}

-- `fields["last_error"] = outcome.error`, of a failed step.
abbrev error_of : Outcome → List Cell
error_of (Outcome.failed error _ _) = Cell.last_error (some error) ∷ []
error_of _ = []

-- Terminate wins over everything.
unfoldable pub on_terminate : String → Outcome → Change
on_terminate step outcome = record {
  fields =
      Cell.status terminated
        ∷ Cell.terminate_requested false
        ∷ Cell.pause_requested false
        ∷ Cell.next_retry_at none
        ∷ unlock
      ++ error_of outcome;
  events = event EventType.terminated step ∷ [];
}

-- `_final_status`.
unfoldable pub final_status : StateMachine → ℕ → Bool → M TaskStatus
unfolding has_degraded
final_status m task_id true = pure partially_completed
final_status m task_id false =
    if m.step_runs
    then (do found ← has_degraded task_id; pure (if found then partially_completed else completed))
    else pure completed

abbrev completion_message : TaskStatus → String
completion_message completed = "workflow completed"
completion_message _ = "workflow completed; some steps were degraded"

abbrev pub step_name : Option String → String
step_name none = "None"
step_name (some step) = step

unfoldable pub on_completion : String → TaskStatus → Change
on_completion step status = record {
  fields = Cell.status status ∷ Cell.pause_requested false ∷ unlock;
  events = event_with EventType.completed step (completion_message status) ∷ [];
}

unfoldable pub on_advance : String → String → Bool → Change
on_advance step next pause =
    let advanced = event_with step_completed step (join ("advanced to " ∷ next ∷ [])) in
    if pause
    then record {
      fields = Cell.step next ∷ Cell.status paused ∷ Cell.pause_requested false ∷ unlock;
      events = advanced ∷ event EventType.paused next ∷ [];
    }
    else record { fields = Cell.step next ∷ Cell.status queued ∷ unlock; events = advanced ∷ [] }

on_next : StateMachine → Task → Bool → Bool → Result Error NextStep → M Change
unfolding final_status
on_next m task degraded pause (err e) = raise e
on_next m task degraded pause (ok next) =
    if next.done
    then (do status ← final_status m task.id degraded; pure (on_completion task.step status))
    else pure (on_advance task.step (step_name next.step) pause)

unfoldable pub on_denied : String → String → Change
on_denied step reason =
    let message = join ("not run: " ∷ reason ∷ []) in
    record {
      fields =
          Cell.status manual_required
          ∷ Cell.last_error (some message)
          ∷ Cell.next_retry_at none
          ∷ Cell.pause_requested false
          ∷ unlock;
      events = event_with EventType.manual_required step message ∷ [];
    }

-- The step was not run: pause in place.
unfoldable pub pause_in_place : String → Change
pause_in_place step = record {
  fields = Cell.status paused ∷ Cell.pause_requested false ∷ unlock;
  events = event EventType.paused step ∷ [];
}

unfoldable pub on_approval : String → String → ℕ → Bool → Change
unfolding pause_in_place
on_approval step reason attempt pause = if pause then pause_in_place step else record {
  fields =
      Cell.status awaiting_approval
      ∷ Cell.approval_grant (some (asked_value step attempt))
      ∷ Cell.next_retry_at none
      ∷ unlock;
  events = event_of approval_asked step reason (("attempt", num attempt) ∷ []) ∷ [];
}

unfoldable pub on_external : String → Request → Bool → Bool → Change
unfolding pause_in_place
on_external step r reuse pause = if pause then pause_in_place step else record {
  fields = Cell.status awaiting_external ∷ Cell.next_retry_at none ∷ unlock;
  events =
      event_of item_opened step
        (join (
          "waiting for external work (attempt "
          ∷ decimal r.attempt
          ∷ " of "
          ∷ decimal r.max_attempts
          ∷ ")"
          ∷ []))
        (("attempt", num r.attempt) ∷ ("reused", flag reuse) ∷ [])
      ∷ [];
}

unfoldable pub on_rejected : String → String → ℕ → ℕ → ℕ → Bool → Change
on_rejected step reason item_id attempt max_attempts pause =
    let refused =
      event_of item_rejected step reason
        (("item_id", num item_id) ∷ ("attempt", num attempt) ∷ []) in
    let error = join (
      "external work rejected " ∷ decimal attempt ∷ " time(s), no attempts left: " ∷ reason ∷ []) in
    if is_exhausted attempt max_attempts
    then record {
      fields =
          Cell.status manual_required
          ∷ Cell.last_error (some error)
          ∷ Cell.next_retry_at none
          ∷ Cell.pause_requested false
          ∷ unlock;
      events = refused ∷ event_with EventType.manual_required step error ∷ [];
    }
    else if pause
    then record {
      fields =
          Cell.status paused ∷ Cell.last_error (some reason) ∷ unlock
          ++ Cell.pause_requested false ∷ [];
      events = refused ∷ event EventType.paused step ∷ [];
    }
    else record {
      fields = Cell.status queued ∷ Cell.last_error (some reason) ∷ unlock;
      events = refused ∷ [];
    }

unfoldable pub on_deferred : String → String → ℕ → Bool → ℕ → Change
on_deferred step reason delay pause now =
    let postponed = event_with EventType.deferred step reason in
    if pause
    then record {
      fields = Cell.status paused ∷ Cell.pause_requested false ∷ unlock;
      events = postponed ∷ event EventType.paused step ∷ [];
    }
    else record {
      fields =
          Cell.status queued
          ∷ Cell.next_retry_at (if ltb 0 delay then some (now + delay) else none)
          ∷ unlock;
      events = postponed ∷ [];
    }

-- `retry_count > max_retries`.
abbrev pub exceeds : ℕ → ℤ → Bool
exceeds n (pos m) = ltb m n
exceeds n (negsuc m) = true

unfoldable pub on_failed : Task → String → ℕ → Bool → Bool → ℕ → Change
on_failed task error delay no_retry pause now =
    let retries = suc task.retry_count in
    let attempt_failed = event_with step_failed task.step error in
    if exceeds retries task.max_retries || no_retry
    then record {
      fields =
          Cell.status manual_required
          ∷ Cell.retry_count retries
          ∷ Cell.last_error (some error)
          ∷ Cell.next_retry_at none
          ∷ Cell.pause_requested false
          ∷ unlock;
      events = event_with EventType.manual_required task.step error ∷ [];
    }
    else if pause
    then record {
      fields =
          Cell.status paused
          ∷ Cell.retry_count retries
          ∷ Cell.last_error (some error)
          ∷ Cell.next_retry_at none
          ∷ Cell.pause_requested false
          ∷ unlock;
      events = attempt_failed ∷ event EventType.paused task.step ∷ [];
    }
    else record {
      fields =
          Cell.status TaskStatus.failed
          ∷ Cell.retry_count retries
          ∷ Cell.last_error (some error)
          ∷ Cell.next_retry_at (some (now + delay))
          ∷ unlock;
      events = attempt_failed ∷ [];
    }

-- The `isinstance` ladder, once terminate is not asked for.
unfoldable pub dispatch : StateMachine → Task → Outcome → Bool → M Change
unfolding on_next
dispatch m task (succeeded degraded _ _ _) pause =
    on_next m task degraded pause (next_step m.workflow task.step)
dispatch m task (denied reason) pause = pure (on_denied task.step reason)
dispatch m task (needs_approval reason attempt) pause =
    pure (on_approval task.step reason attempt pause)
dispatch m task (awaits_external r reuse) pause = pure (on_external task.step r reuse pause)
dispatch m task (rejected reason item attempt max_attempts _) pause =
    pure (on_rejected task.step reason item attempt max_attempts pause)
dispatch m task (Outcome.deferred reason delay) pause = do
  now ← utcnow
  pure (on_deferred task.step reason delay pause now)
dispatch m task (Outcome.failed error delay no_retry) pause = do
  now ← utcnow
  pure (on_failed task error delay no_retry pause now)

-- `_boundary`.
unfoldable pub boundary : StateMachine → Task → Outcome → Bool → Bool → M Change
unfolding dispatch
boundary m task outcome terminate pause =
    if terminate then pure (on_terminate task.step outcome) else dispatch m task outcome pause
