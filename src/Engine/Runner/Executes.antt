-- ===== src/Engine/Runner/Executes.antt =====
-- engine/runner.py: `execute` of a claimed task returns and leaves the task without a worker, whatever
-- the gate decides and whatever the step's code does.
use runspool.Engine.Runner.Admitted.{
  IsDecision, if_false, from_some, acted-Ended, count_runs-Holding,
}
use runspool.Prelude.{
  ℕ, suc, String, Bool, true, false, ◌≡◌, refl, Option, none, some, ◌⊎◌, inl, inr, contains,
  string_eq, if◌then◌else◌, ◌||◌, option_eq, beq_refl,
}
use runspool.Engine.Runner.{run_current, run_found, execute, is_stale_request, told_stop}
use runspool.Engine.Runner.Admission.{decide, admit}
use runspool.Engine.Runner.Conclusion.{notify-Calm}
use runspool.Engine.Runner.Context.{TaskRunner, machine_of}
use runspool.Engine.Runner.Ending.{Ended, Ended-Holding, told-Ended}
use runspool.Engine.Runner.Held.{Holds, advance-Holds}
use runspool.Engine.Runner.Live.{IsChildless}
use runspool.Engine.Steps.{Step}
use runspool.Machine.Outcome.{Outcome, is_executing}
use runspool.Models.{WorkflowDef}
use runspool.Store.Quiet.{IsQuiet, Calm, Calm-pure, quiet_get}
use runspool.Store.Repository.{task_key}
use runspool.Store.Rows.{Task}
use runspool.Store.Table.{find}
use runspool.Store.World.{World, M, advance}

module _ (r : TaskRunner) (tells : (at : ℕ) (s : String) → Calm (r.notifier at s))
    (asks : (f : Task → M (Unit {0})) → r.on_approval_asked ≡ some f → (t : Task) → Calm (f t))
    (workflow : WorkflowDef) (task : Task) (token : Option String)
    (known : contains workflow.steps task.step ≡ true) where
  fresh_request :
      is_executing task.status ≡ true
      → (token ≡ none) ⊎ (task.claim_token ≡ token)
      → is_stale_request token task ≡ false
  fresh_request busy claim = fresh_claim token busy claim
    where
      fresh_claim :
          (given : Option String)
          → is_executing task.status ≡ true
          → (given ≡ none) ⊎ (task.claim_token ≡ given)
          → is_stale_request given task ≡ false
      fresh_claim none busy claim = refl
      fresh_claim (some t) busy (inl e) = absurd (cc)
      fresh_claim (some t) busy (inr e) = rw (busy, e, beq_refl (some t)) refl

  stop-Calm : (after : Option Task) → Calm (told_stop r task token after)
  stop-Calm none = Calm-pure tt
  stop-Calm (some after) = notify-Calm r tells after _

  if_either :
      {A : Type 0} (b : Bool) (m n : M A) (w : World)
      → Ended task.id (m w)
      → Ended task.id (n w)
      → Ended task.id ((if b then m else n) w)
  if_either true m n w h k = h
  if_either false m n w h k = k

  module _ (step : Step) (registered : r.step_of task.step ≡ some step)
      (inner : step.external ≡ false) (childless : (n : ℕ) → IsChildless (step.run task n))
      (decides : (n : ℕ) → IsDecision (decide r task step n)) where
    current-Ended :
        (w : World)
        → Holds task.id token task.step w
        → Ended task.id (run_current r task token workflow w)
    unfolding run_current admit
    current-Ended w here =
        if_either (task.terminate_requested || task.pause_requested) _ _ w
          (told-Ended (machine_of r workflow) task.id token task.step known
            (Outcome.deferred "not started" 0) _ w tt stop-Calm here)
          (from_some r tells workflow task token known _ (r.step_of task.step) step _ w registered (
            Ended-Holding task.id token task.step _ _ w
              (count_runs-Holding task.id token task.step task.step w here)
              λ n v h.
                acted-Ended r tells workflow task token known asks step (suc n)
                  (decide r task step (suc n)) v inner (childless (suc n)) (decides (suc n)) h))

    -- When nobody else writes and nothing fails, `execute` of a task that a worker holds under the
    -- given claim, on a step that is registered, in its workflow and not done outside the engine,
    -- returns and leaves the task without a worker and in a sound row: whatever the gate decides (as
    -- long as it returns one of the four decisions or raises), whatever the step's code does and
    -- raises, and whatever it returns, as long as it does not ask for child tasks; the notifications
    -- are taken to return and to write nothing.
    pub execute-Ended :
        (w : World)
        → IsQuiet w
        → find task_key task.id w.db.tasks ≡ some task
        → is_executing task.status ≡ true
        → (token ≡ none) ⊎ (task.claim_token ≡ token)
        → r.config.workflow task.workflow ≡ some workflow
        → Ended task.id (execute r task.id token w)
    unfolding execute run_found
    execute-Ended w q found busy claim configured =
        let here : Holds task.id token task.step w = record {
          quiet = q;
          inside = record {
            row = task;
            left = found;
            held = record { busy = busy; claim = claim; step = refl };
          };
        } in
        let v = advance-Holds task.id token task.step w here in
        rw (quiet_get task.id w q, found)
          (if_false r tells workflow task token known (is_stale_request token task) _ _ (advance w)
            (fresh_request busy claim)
            (from_some r tells workflow task token known _ (r.config.workflow task.workflow)
              workflow _ (advance w) configured (current-Ended (advance w) v)))
