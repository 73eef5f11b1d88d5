-- ===== src/Engine/Steps.antt =====
-- engine/step.py, engine/external.py, engine/registry.py and engine/gate.py: the steps as the
-- engine sees them. A step's code is user code, which the engine can only run: it is a script, a
-- tree of what it asks the engine and how it goes on with each answer, for every user code there is.
use runspool.Prelude.{ℕ, String, Bool, Option, List, [], ◌∷◌}
use runspool.Prelude.Exec.{Result}
use runspool.Engine.Artifacts.Declarations.{Declaration}
use runspool.Engine.Artifacts.Recorded.{Artifact}
use runspool.Engine.Children.{SpawnValue}
use runspool.Models.{
  Error, key_error, value_error, runtime_error, item_conflict, integrity_error, operational_error,
  illegal_transition, transition_committed, other_error, status_text,
}
use runspool.Store.Repository.{Update}
use runspool.Store.Rows.{Task}
use runspool.Text.{join, decimal}

-- What the code of a step may raise: `SubmissionRejected`, `StepDeferred` or another exception.
pub data Raised : Type 0 where
  submission_rejected : String → Raised
  -- reason, delay_seconds
  step_deferred : String → ℕ → Raised
  exception : Error → Raised

pub data Script (A : Type 0) : Type 0 where
  -- it returns
  finish : A → Script A
  -- it raises
  fault : Raised → Script A
  -- `ctx.heartbeat(progress)`, when the monotonic clock shows a number of milliseconds
  beat : ℕ → Option String → (Result Error (Unit {0}) → Script A) → Script A
  -- `ctx.should_stop()`
  asks_stop : (Result Error Bool → Script A) → Script A

-- `class StepResult`.
pub record StepResult : Type 0 where
  pub message : String
  pub updates : List Update
  pub degraded : Bool
  pub artifacts : List (Option Artifact)
  pub spawn : SpawnValue

-- `class WorkRequest`, of any values: a text that is no `str` is `none`, and a payload is its JSON
-- text or what `dict` or `json.dumps` raises.
pub record WorkRequest : Type 0 where
  pub kind : Option String
  pub instructions : Option String
  pub payload : Result Error String

-- `class Submission`.
pub record Submission : Type 0 where
  pub item_id : ℕ
  pub attempt : ℕ
  pub value : String
  pub submitted_by : Option String

-- `class Step` and `class ExternalStep`. The task and the attempt are those of the `StepContext`.
pub record Step : Type 0 where
  pub name : String
  pub side_effect : Bool
  -- `retry is False`
  pub no_retry : Bool
  pub external : Bool
  -- a positive integer, or the text of what it is instead
  pub max_attempts : Result String ℕ
  pub requires : Declaration
  pub provides : Declaration
  pub run : Task → ℕ → Script StepResult
  pub validate : Task → ℕ → Submission → Script StepResult
  pub request : Task → ℕ → Script WorkRequest

-- `Allow`, `Deny`, `Defer` and `Ask` of engine/gate.py, or any other value, with its `repr`.
pub data Decision : Type 0 where
  allow : Decision
  deny : String → Decision
  defer : String → ℕ → Decision
  ask : String → Decision
  other : String → Decision

-- `type(exc).__name__`.
unfoldable pub class_name : Error → String
class_name (key_error _) = "KeyError"
class_name (value_error _) = "ValueError"
class_name (runtime_error _) = "RuntimeError"
class_name (item_conflict _) = "ItemConflict"
class_name (integrity_error _) = "IntegrityError"
class_name (operational_error _) = "OperationalError"
class_name (illegal_transition _ _ _ _) = "IllegalTransition"
class_name (transition_committed _) = "TransitionCommitted"
class_name (other_error name _) = name

-- `str(exc)`, of a `TransitionCommitted` without the class of the error behind it.
unfoldable pub error_text : Error → String
error_text (key_error id) = decimal id
error_text (value_error text) = text
error_text (runtime_error text) = text
error_text (item_conflict text) = text
error_text (integrity_error text) = text
error_text (operational_error text) = text
error_text (illegal_transition id status action allowed) = join (
    "cannot "
    ∷ action
    ∷ " task "
    ∷ decimal id
    ∷ ": it is "
    ∷ status_text status
    ∷ " (allowed when: "
    ∷ allowed
    ∷ ")"
    ∷ [])
error_text (transition_committed id) =
    join ("task " ∷ decimal id ∷ ": transition committed, but reading it back failed" ∷ [])
error_text (other_error _ text) = text

-- `f"{type(exc).__name__}: {exc}"`.
unfoldable pub described : Error → String
unfolding class_name error_text
described e = join (class_name e ∷ ": " ∷ error_text e ∷ [])

-- The same of anything that the code of a step raises.
unfoldable pub described_raised : Raised → String
unfolding described
described_raised (submission_rejected reason) = join ("SubmissionRejected: " ∷ reason ∷ [])
described_raised (step_deferred reason _) = join ("StepDeferred: " ∷ reason ∷ [])
described_raised (exception e) = described e
