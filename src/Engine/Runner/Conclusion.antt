-- ===== src/Engine/Runner/Conclusion.antt =====
-- engine/runner.py: however a step's run ends, `execute` takes the task from its worker.
use runspool.Prelude.{ℕ, String, true, ◌≡◌, refl, Option, none, some, contains, string_eq}
use runspool.Prelude.Exec.{Result, ok, err, ◌>>=◌}
use runspool.Engine.Runner.Endings
use runspool.Engine.Runner.Attempt.{run_status, or_none}
use runspool.Engine.Runner.Endings.{told_terminated, terminated_note, success_note, report_success}
use runspool.Engine.Runner.Context.{TaskRunner, notify, machine_of}
use runspool.Engine.Runner.Ending.{Ended, Ended-Holding, told-Ended, finish_run-Holding}
use runspool.Engine.Runner.External.{or_task}
use runspool.Engine.Runner.Held.{Holds}
use runspool.Engine.Steps.{Step, StepResult, Raised, submission_rejected, step_deferred, exception}
use runspool.Machine.Finish.{finish_step}
use runspool.Machine.Finish.Live.{IsSimple}
use runspool.Machine.Outcome.{Outcome}
use runspool.Models.{WorkflowDef, TaskStatus}
use runspool.Store.Quiet.{Calm, Calm-pure}
use runspool.Store.Repository.Spawning.{SpawnPlan}
use runspool.Store.Rows.{Task, RunStatus}
use runspool.Store.StepRuns
use runspool.Store.World.{World, M}

module _ (r : TaskRunner) (tells : (at : ℕ) (s : String) → Calm (r.notifier at s)) where
  pub notify-Calm : (task : Task) (reason : String) → Calm (notify r task reason)
  unfolding notify
  notify-Calm task reason = record {
    of = λ w q.
        let x = (tells (w.clock w.tick) _).of w q in
        record { value = x.value; after = x.after; ran = x.ran; quiet = x.quiet; same = x.same };
  }

  module _ (workflow : WorkflowDef) (task : Task) (step : Step) (token : Option String) (run : ℕ)
      (known : contains workflow.steps task.step ≡ true) where
    abbrev Ends : {A : Type 0} → M A → World → Type 0
    Ends m w = Ended task.id (m w)

    note-Calm :
        (after : Task) (s : TaskStatus)
        → Calm (terminated_note r (machine_of r workflow) task step token run after s)
    note-Calm after TaskStatus.terminated = notify-Calm after _
    note-Calm after _ = Calm-pure tt

    success-Calm :
        (result : StepResult) (after : Task) (s : TaskStatus)
        → Calm (success_note r (machine_of r workflow) task step token run result after s)
    success-Calm result after TaskStatus.terminated = notify-Calm after _
    success-Calm result after TaskStatus.completed = notify-Calm after _
    success-Calm result after TaskStatus.partially_completed = notify-Calm after _
    success-Calm result after TaskStatus.paused = notify-Calm after _
    success-Calm result after TaskStatus.queued = notify-Calm after _
    success-Calm result after _ = Calm-pure tt

    -- The run is closed, the state machine is given an outcome, and somebody is told.
    closed-Ended :
        (status : RunStatus) (ms : ℕ) (error remark : Option String) (o : Outcome)
        (k : Option Task → M (Unit {0})) (w : World)
        → IsSimple o
        → ((after : Option Task) → Calm (k after))
        → Holds task.id token task.step w
        → Ends
            (StepRuns.finish run status ms error remark >>= λ _.
              finish_step (machine_of r workflow) task.id o token >>= k)
            w
    closed-Ended status ms error remark o k w simple calm h =
        Ended-Holding task.id token task.step _ _ w
          (finish_run-Holding task.id token task.step run status ms error remark w h)
          λ _ v g.
            told-Ended (machine_of r workflow) task.id token task.step known o k v simple calm g

    fail-Ended :
        (message : String) (w : World)
        → Holds task.id token task.step w
        → Ends (Endings.fail r (machine_of r workflow) task step token run message) w
    unfolding Endings.fail
    fail-Ended message w h =
        closed-Ended RunStatus.failed (r.elapsed run w) (some message) none _ _ w tt
          (λ after. notify-Calm (or_task after task) _) h

    terminated-Calm :
        (after : Option Task)
        → Calm (told_terminated r (machine_of r workflow) task step token run after)
    terminated-Calm none = Calm-pure tt
    terminated-Calm (some after) = note-Calm after after.status

    put_off-Ended :
        (reason : String) (delay : ℕ) (w : World)
        → Holds task.id token task.step w
        → Ends (Endings.put_off r (machine_of r workflow) task step token run reason delay) w
    unfolding Endings.put_off
    put_off-Ended reason delay w h =
        closed-Ended RunStatus.deferred (r.elapsed run w) none (some reason) _ _ w tt
          terminated-Calm h

    report_success-Calm :
        (result : StepResult) (after : Option Task)
        → Calm (report_success r (machine_of r workflow) task step token run result after)
    unfolding report_success
    report_success-Calm result none = Calm-pure tt
    report_success-Calm result (some after) = success-Calm result after after.status

    succeed-Ended :
        (result : StepResult) (w : World)
        → Holds task.id token task.step w
        → Ends (Endings.succeed r (machine_of r workflow) task step token run none result) w
    unfolding Endings.succeed
    succeed-Ended result w h =
        closed-Ended (run_status result.degraded) (r.elapsed run w) none (or_none result.message) _
          _ w tt (report_success-Calm result) h

    -- Every ending of a run that was not of a work item and spawned nothing.
    pub conclude-Ended :
        (x : Result Raised (StepResult × Option SpawnPlan)) (w : World)
        → ((p : StepResult × Option SpawnPlan) → x ≡ ok p → p.1 ≡ none)
        → Holds task.id token task.step w
        → Ends (Endings.conclude r (machine_of r workflow) task step token run none x) w
    unfolding Endings.conclude
    conclude-Ended (ok (result, none)) w simple h = succeed-Ended result w h
    conclude-Ended (ok (result, some plan)) w simple h =
        absurd (cc (simple (result, some plan) refl))
    conclude-Ended (err (submission_rejected reason)) w simple h = fail-Ended _ w h
    conclude-Ended (err (step_deferred reason delay)) w simple h = put_off-Ended reason delay w h
    conclude-Ended (err (exception e)) w simple h = fail-Ended _ w h
