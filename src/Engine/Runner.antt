-- ===== src/Engine/Runner.antt =====
-- engine/runner.py: running the step that a claimed task is on. The parts that other code supplies
-- are fields of `TaskRunner`. The thread that refreshes the heartbeat while a step runs is one of
-- the others that write to the database (`Store.World`).
pub mod Context
pub mod Admission
pub mod External
pub mod Attempt
pub mod Endings
pub mod Held
pub mod Keeps
pub mod Ending
pub mod Conclusion
pub mod Live
pub mod Admitted
pub mod Executes
pub mod Refusal
use runspool.Prelude.{
  ℕ, suc, String, Bool, true, false, ◌||◌, not, Option, none, some, List, [], ◌∷◌, ◌++◌,
  if◌then◌else◌, ◌==◌, string_eq, option_eq,
}
use runspool.Prelude.Exec.{Result, ok, err, pure, raise, ◌>>=◌, ◌>>◌}
use runspool.Engine.Runner.Admission.{admit}
use runspool.Engine.Runner.Attempt.{body}
use runspool.Engine.Runner.Endings.{conclude}
use runspool.Engine.Runner.Context.{TaskRunner, machine_of, notify, attempted}
use runspool.Engine.Runner.External.{external_item, submission_of}
use runspool.Engine.Steps.{Step, StepResult, Script}
use runspool.Machine.Finish.{finish_step}
use runspool.Machine.Outcome.{StateMachine, Outcome, is_executing}
use runspool.Models.{Error, other_error, status_text, WorkflowDef, quoted}
use runspool.Store.Columns.{Cell}
use runspool.Store.Repository.{column, get_task, update_fields}
use runspool.Store.Rows.{Task, WorkItem}
use runspool.Store.StepRuns
use runspool.Store.World.{M}
use runspool.Text.{join}

-- The claim that the job was made for is not the task's any more.
abbrev pub is_stale_request : Option String → Task → Bool
is_stale_request none task = false
is_stale_request (some token) task =
    not (is_executing task.status) || not (task.claim_token == some token)

abbrev pub found_or : {A : Type 0} → List String → Option A → M A
found_or why none = raise (other_error "KeyError" (join why))
found_or why (some a) = pure a

module _ (r : TaskRunner) (task : Task) (token : Option String) where
  abbrev pub told_stop : Option Task → M (Unit {0})
  told_stop none = pure tt
  told_stop (some after) =
      notify r after
        (join (status_text after.status ∷ " before step " ∷ task.step ∷ " started" ∷ []))

  -- The run of a step that may run: `attempt`, `item` and `script` are as `execute` chose them.
  unfoldable pub run_step : StateMachine → Step → Option WorkItem → Script StepResult → M (Unit {0})
  unfolding update_fields StepRuns.start body conclude
  run_step sm step item script = do
    _ ← update_fields task.id (column (Cell.progress none) ∷ []) token
    run_id ← StepRuns.start task.id task.step
    outcome ← attempted (body r task step token run_id script)
    conclude r sm task step token run_id item outcome

  abbrev pub run_external : StateMachine → Step → Option WorkItem → M (Unit {0})
  run_external sm step none = pure tt
  run_external sm step (some item) =
      run_step sm step (some item) (step.validate task item.attempt (submission_of item))

  abbrev pub run_admitted : StateMachine → Step → ℕ → Bool → M (Unit {0})
  run_admitted sm step attempt false = pure tt
  run_admitted sm step attempt true =
      if step.external
      then (do item ← external_item r sm task step token; run_external sm step item)
      else run_step sm step none (step.run task attempt)

  -- `execute`, of a task whose claim is current.
  unfoldable pub run_current : WorkflowDef → M (Unit {0})
  unfolding finish_step notify admit external_item run_step StepRuns.count_runs
  run_current workflow =
      let sm = machine_of r workflow in
      if task.terminate_requested || task.pause_requested
      then (do
        after ← finish_step sm task.id (Outcome.deferred "not started" 0) token
        told_stop after)
      else (do
        step ← found_or ("unregistered step: " ∷ quoted task.step) (r.step_of task.step)
        earlier ← StepRuns.count_runs task.id task.step
        admitted ← admit r sm task step (suc earlier) token
        run_admitted sm step (suc earlier) admitted)

  -- `execute`, of a task that is there.
  unfoldable pub run_found : M (Unit {0})
  unfolding notify run_current
  run_found =
      if is_stale_request token task
      then notify r task (
          join (
            "skipped a stale run request (now "
            ∷ status_text task.status
            ∷ " on "
            ∷ task.step
            ∷ ")"
            ∷ []))
      else (do
        workflow ←
            found_or ("undefined workflow: " ∷ quoted task.workflow)
              (r.config.workflow task.workflow)
        run_current workflow)

abbrev pub run_if_found : TaskRunner → Option String → Option Task → M (Unit {0})
run_if_found r token none = pure tt
run_if_found r token (some task) = run_found r task token

-- `TaskRunner.execute`.
unfoldable pub execute : TaskRunner → ℕ → Option String → M (Unit {0})
unfolding get_task run_found
execute r task_id token = do task ← get_task task_id; run_if_found r token task
