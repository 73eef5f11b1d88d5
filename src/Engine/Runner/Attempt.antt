-- ===== src/Engine/Runner/Attempt.antt =====
-- engine/runner.py: one run of a step, from its code to what is written of its result.
use runspool.Prelude.{
  ℕ, String, Bool, not, Option, none, some, List, [], ◌∷◌, if◌then◌else◌, ◌==◌, string_eq,
}
use runspool.Prelude.Exec.{Result, ok, err, pure, raise, ◌>>=◌, ◌>>◌}
use runspool.Engine.Artifacts.{ArtifactType, Contract}
use runspool.Engine.Artifacts.Declarations.{contract_of}
use runspool.Engine.Artifacts.Recorded.{Artifact, RecordedArtifact, prepare_artifacts}
use runspool.Engine.Children.{plan_children}
use runspool.Engine.Runner.Context.{TaskRunner, Run, raising, perform}
use runspool.Engine.Steps.{Step, StepResult, Script, exception}
use runspool.Models.{Error, value_error, runtime_error, other_error}
use runspool.Store.Artifacts.{record_all}
use runspool.Store.Repository.{Update, prepare_updates, update_fields}
use runspool.Store.Repository.Spawning.{Child, SpawnPlan}
use runspool.Store.Rows.{Task, RunStatus}

abbrev pub lifted : {A : Type 0} → Result Error A → Run A
lifted (ok a) w = (ok a, w)
lifted (err e) w = (err (exception e), w)

abbrev pub explained : {A : Type 0} → (String → Error) → Result String A → Result Error A
explained f (ok a) = ok a
explained f (err text) = err (f text)

abbrev pub provides_of : Contract → Option (List ArtifactType)
provides_of c = if c.declared then some c.provides else none

abbrev pub read_contract : Step → Result Error Contract
read_contract step =
    explained (other_error "ArtifactTypeError") (contract_of step.name step.requires step.provides)

abbrev pub prepared :
    TaskRunner → Task → Contract → List (Option Artifact) → Result Error (List RecordedArtifact)
prepared r task contract artifacts =
    explained value_error (prepare_artifacts r.files task.step (provides_of contract) 1 artifacts)

-- `_record_artifacts`.
unfoldable pub record_artifacts :
    TaskRunner → Task → Step → ℕ → List (Option Artifact) → Run (Unit {0})
unfolding contract_of prepare_artifacts record_all
record_artifacts r task step run_id artifacts =
    if not r.artifacts
    then raise (exception (runtime_error "the active store does not record artifacts"))
    else (do
      contract ← lifted (read_contract step)
      recorded ← lifted (prepared r task contract artifacts)
      raising (record_all task.id task.step recorded (some run_id)))

abbrev pub or_none : String → Option String
or_none message = if message == "" then none else some message

abbrev pub run_status : Bool → RunStatus
run_status degraded = if degraded then RunStatus.degraded else RunStatus.ok

-- The plan of the children, with the updates to be written beside them.
abbrev pub planned :
    TaskRunner → Task → ℕ → StepResult → List Child → Result Error (Option SpawnPlan)
planned r task run_id result [] = ok none
planned r task run_id result (c ∷ cs) =
    if not r.spawns
    then err (runtime_error "the active store cannot spawn child tasks")
    else elim (prepare_updates result.updates) [
      | err e ↦ err e
      | ok updates ↦ ok (
          some (record {
            children = c ∷ cs;
            step = task.step;
            step_run_id = some run_id;
            updates = updates;
            run_status = RunStatus.ok;
            duration_ms = 0;
            note = none;
          }))
    ]

abbrev pub recorded_if : TaskRunner → Task → Step → ℕ → List (Option Artifact) → Run (Unit {0})
recorded_if r task step run_id [] = pure tt
recorded_if r task step run_id (a ∷ as_) = record_artifacts r task step run_id (a ∷ as_)

abbrev pub updated_if : Task → Option String → List Update → Option SpawnPlan → Run (Unit {0})
updated_if task token [] spawn = pure tt
updated_if task token (u ∷ us) (some plan) = pure tt
updated_if task token (u ∷ us) none = do _ ← raising (update_fields task.id (u ∷ us) token); pure tt

-- The `try` of `execute`: the step's code, and what is written of its result.
unfoldable pub body :
    TaskRunner
    → Task
    → Step
    → Option String
    → ℕ
    → Script StepResult
    → Run (StepResult × Option SpawnPlan)
unfolding perform plan_children prepare_updates record_artifacts update_fields
body r task step token run_id script = do
  result ← perform task.id token none script
  children ← lifted (plan_children r.config result.spawn)
  spawn ← lifted (planned r task run_id result children)
  recorded_if r task step run_id result.artifacts
  updated_if task token result.updates spawn
  pure (result, spawn)
