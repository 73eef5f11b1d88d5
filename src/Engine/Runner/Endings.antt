-- ===== src/Engine/Runner/Endings.antt =====
-- engine/runner.py: what `execute` makes of each way in which the run of a step ends.
use runspool.Prelude.{ℕ, String, Option, none, some, List, [], ◌∷◌, if◌then◌else◌, ◌==◌, string_eq}
use runspool.Prelude.Exec.{Result, ok, err, pure, ◌>>=◌, ◌>>◌}
use runspool.Engine.Runner.Attempt.{run_status, or_none}
use runspool.Engine.Runner.Context.{TaskRunner, notify, attempted}
use runspool.Engine.Runner.External.{or_task}
use runspool.Engine.Steps.{
  Step, StepResult, Raised, submission_rejected, step_deferred, exception, described, class_name,
  error_text,
}
use runspool.Machine.Finish.{finish_step}
use runspool.Machine.Outcome.{StateMachine, Outcome}
use runspool.Models.{
  Error, transition_committed, TaskStatus, failed, paused, terminated, completed,
  partially_completed, queued, manual_required,
}
use runspool.Store.Repository.Spawning.{SpawnPlan}
use runspool.Store.Rows.{Task, WorkItem, RunStatus}
use runspool.Store.StepRuns
use runspool.Store.World.{M}
use runspool.Text.{join, decimal}

abbrev pub elapsed_of : TaskRunner → ℕ → M ℕ
elapsed_of r run_id w = (ok (r.elapsed run_id w), w)

abbrev verb_of : TaskStatus → String
verb_of failed = "failed"
verb_of paused = "failed, paused"
verb_of terminated = "failed, terminated"
verb_of _ = "needs attention"

abbrev verb : Option Task → String
verb none = "needs attention"
verb (some after) = verb_of after.status

abbrev attention_of : TaskStatus → String
attention_of manual_required = "; needs attention"
attention_of _ = ""

abbrev attention : Option Task → String
attention none = ""
attention (some after) = attention_of after.status

module _ (r : TaskRunner) (sm : StateMachine) (task : Task) (step : Step) (token : Option String)
    (run_id : ℕ) where
  -- `_fail`.
  unfoldable pub fail : String → M (Unit {0})
  unfolding StepRuns.finish finish_step notify
  fail message = do
    duration ← elapsed_of r run_id
    StepRuns.finish run_id RunStatus.failed duration (some message) none
    after ← finish_step sm task.id (Outcome.failed message r.retry_delay step.no_retry) token
    notify r (or_task after task)
        (join ("step " ∷ task.step ∷ " raised (" ∷ verb after ∷ "): " ∷ message ∷ []))

  -- A validator refused the submission of an item.
  unfoldable pub reject : WorkItem → String → M (Unit {0})
  unfolding StepRuns.finish finish_step notify
  reject item reason = do
    duration ← elapsed_of r run_id
    StepRuns.finish run_id RunStatus.rejected duration (some reason) none
    after ←
        finish_step sm task.id
          (Outcome.rejected reason item.id item.attempt item.max_attempts (some run_id)) token
    notify r (or_task after task) (
        join (
          "step "
          ∷ task.step
          ∷ ": submission of item "
          ∷ decimal item.id
          ∷ " rejected (attempt "
          ∷ decimal item.attempt
          ∷ " of "
          ∷ decimal item.max_attempts
          ∷ ")"
          ∷ attention after
          ∷ []))

  abbrev pub terminated_note : Task → TaskStatus → M (Unit {0})
  terminated_note after terminated =
      notify r after (join ("terminated after step " ∷ task.step ∷ []))
  terminated_note after _ = pure tt

  abbrev pub told_terminated : Option Task → M (Unit {0})
  told_terminated none = pure tt
  told_terminated (some after) = terminated_note after after.status

  -- The step is not ready.
  unfoldable pub put_off : String → ℕ → M (Unit {0})
  unfolding StepRuns.finish finish_step notify
  put_off reason delay = do
    duration ← elapsed_of r run_id
    StepRuns.finish run_id RunStatus.deferred duration none (some reason)
    after ← finish_step sm task.id (Outcome.deferred reason delay) token
    told_terminated after

  abbrev tail : String → String
  tail message = if message == "" then "" else join (": " ∷ message ∷ [])

  abbrev done : Task → List String → M (Unit {0})
  done after how = notify r after (join ("step " ∷ task.step ∷ " done, " ∷ how))

  abbrev pub success_note : StepResult → Task → TaskStatus → M (Unit {0})
  success_note result after terminated =
      notify r after (join ("terminated after step " ∷ task.step ∷ []))
  success_note result after completed = done after ("workflow complete" ∷ tail result.message ∷ [])
  success_note result after partially_completed =
      done after ("workflow partially complete" ∷ tail result.message ∷ [])
  success_note result after paused = done after ("paused before " ∷ after.step ∷ [])
  success_note result after queued =
      done after ("advancing to " ∷ after.step ∷ tail result.message ∷ [])
  success_note result after _ = pure tt

  -- `_report_success`.
  unfoldable pub report_success : StepResult → Option Task → M (Unit {0})
  unfolding notify
  report_success result none = pure tt
  report_success result (some after) = success_note result after after.status

  abbrev pub item_id : Option WorkItem → Option ℕ
  item_id none = none
  item_id (some item) = some item.id

  abbrev pub run_of : Option WorkItem → Option ℕ
  run_of none = none
  run_of (some item) = some run_id

  -- A step without children succeeded.
  unfoldable pub succeed : Option WorkItem → StepResult → M (Unit {0})
  unfolding StepRuns.finish finish_step report_success
  succeed item result = do
    duration ← elapsed_of r run_id
    StepRuns.finish run_id (run_status result.degraded) duration none (or_none result.message)
    after ←
        finish_step sm task.id (Outcome.succeeded result.degraded (item_id item) (run_of item) none)
          token
    report_success result after

  -- What the transition of a spawning step came to.
  unfoldable pub spawned : StepResult → Result Error (Option Task) → M (Unit {0})
  unfolding fail report_success notify class_name error_text
  spawned result (ok after) = report_success result after
  spawned result (err (transition_committed id)) =
      notify r task
        (join ("step " ∷ task.step ∷ " done; " ∷ error_text (transition_committed id) ∷ []))
  spawned result (err e) = fail (join ("cannot create the child tasks: " ∷ class_name e ∷ []))

  -- A step with children succeeded: its run is closed with its transition. The second notification,
  -- which counts the children, is left out.
  unfoldable pub succeed_spawning : Option WorkItem → StepResult → SpawnPlan → M (Unit {0})
  unfolding finish_step spawned
  succeed_spawning item result plan = do
    duration ← elapsed_of r run_id
    after ← attempted (
        finish_step sm task.id
          (Outcome.succeeded result.degraded (item_id item) (some run_id) (
            some (record plan {
              run_status = run_status result.degraded;
              duration_ms = duration;
              note = or_none result.message;
            })))
          token)
    spawned result after

  -- What follows the `try` of `execute`.
  unfoldable pub conclude :
      Option WorkItem → Result Raised (StepResult × Option SpawnPlan) → M (Unit {0})
  unfolding succeed succeed_spawning reject put_off fail described
  conclude item (ok (result, none)) = succeed item result
  conclude item (ok (result, some plan)) = succeed_spawning item result plan
  conclude (some item) (err (submission_rejected reason)) = reject item reason
  conclude none (err (submission_rejected reason)) =
      fail (join ("SubmissionRejected: " ∷ reason ∷ []))
  conclude item (err (step_deferred reason delay)) = put_off reason delay
  conclude item (err (exception e)) = fail (described e)
