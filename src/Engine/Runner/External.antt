-- ===== src/Engine/Runner/External.antt =====
-- engine/runner.py: `_external`, which finds the submitted work item of an external step, or opens
-- one, or waits on the one there is.
use runspool.Prelude.{
  ℕ, suc, String, Bool, true, false, not, Option, none, some, [], ◌∷◌, ◌++◌, if◌then◌else◌, ◌==◌,
  string_eq,
}
use runspool.Prelude.Exec.{Result, ok, err, pure, ◌>>=◌, ◌>>◌}
use runspool.Engine.Runner.Context.{TaskRunner, notify, attempted, perform_request}
use runspool.Engine.Steps.{Step, WorkRequest, Submission, Raised, exception, described_raised}
use runspool.Machine.Finish.{finish_step}
use runspool.Machine.Outcome.{StateMachine, Outcome}
use runspool.Models.{Error, other_error, TaskStatus, awaiting_external, quoted}
use runspool.Store.Items.{Request, active_for, latest_for, is_submitted}
use runspool.Store.Rows.{Task, WorkItem, ItemStatus}
use runspool.Store.World.{M}
use runspool.Text.{join, decimal}

abbrev pub or_task : Option Task → Task → Task
or_task none task = task
or_task (some after) task = after

-- The task fails before its step runs.
unfoldable pub not_opened :
    TaskRunner → StateMachine → Task → Step → Option String → String → M (Option WorkItem)
unfolding finish_step notify
not_opened r sm task step token message = do
  after ← finish_step sm task.id (Outcome.failed message r.retry_delay step.no_retry) token
  notify r (or_task after task)
      (join ("step " ∷ task.step ∷ " could not open a work item: " ∷ message ∷ []))
  pure none

abbrev plain_request : ℕ → ℕ → Request
plain_request attempt max_attempts = record {
  attempt = attempt;
  max_attempts = max_attempts;
  kind = "external";
  instructions = "";
  payload = "{}";
  previous_error = none;
}

abbrev is_rejected : ItemStatus → Bool
is_rejected ItemStatus.rejected = true
is_rejected _ = false

-- The attempt of the next item, and the error that the one before was rejected with.
unfoldable pub next_attempt : Option WorkItem → ℕ × Option String
next_attempt none = (1, none)
next_attempt (some previous) =
    if is_rejected previous.status then (suc previous.attempt, previous.error) else (1, none)

-- What the code checks of a request: its payload, then its two texts.
abbrev checked_texts :
    ℕ × Option String → ℕ → Option String → Option String → String → Result Raised Request
checked_texts (attempt, error) max_attempts (some kind) (some instructions) payload = ok (record {
  attempt = attempt;
  max_attempts = max_attempts;
  kind = kind;
  instructions = instructions;
  payload = payload;
  previous_error = error;
})
checked_texts _ _ _ _ _ =
    err (exception (other_error "TypeError" "kind and instructions must be strings"))

abbrev checked_payload :
    ℕ × Option String → ℕ → WorkRequest → Result Error String → Result Raised Request
checked_payload next max_attempts q (err e) = err (exception e)
checked_payload next max_attempts q (ok payload) =
    checked_texts next max_attempts q.kind q.instructions payload

abbrev checked_request : ℕ × Option String → ℕ → Result Raised WorkRequest → Result Raised Request
checked_request next max_attempts (err e) = err e
checked_request next max_attempts (ok q) = checked_payload next max_attempts q q.payload

abbrev waits_note : ℕ → ℕ → TaskRunner → Task → Task → TaskStatus → M (Unit {0})
waits_note attempt max_attempts r task after awaiting_external = notify r after (
    join (
      "step "
      ∷ task.step
      ∷ " waits for external work (attempt "
      ∷ decimal attempt
      ∷ " of "
      ∷ decimal max_attempts
      ∷ ")"
      ∷ []))
waits_note attempt max_attempts r task after _ = pure tt

abbrev waits : ℕ → ℕ → TaskRunner → Task → Option Task → M (Unit {0})
waits attempt max_attempts r task none = pure tt
waits attempt max_attempts r task (some after) =
    waits_note attempt max_attempts r task after after.status

-- The item is opened with the transition.
unfoldable pub open_item :
    TaskRunner
    → StateMachine
    → Task
    → Step
    → Option String
    → Result Raised Request
    → M (Option WorkItem)
unfolding not_opened finish_step notify
open_item r sm task step token (err e) = not_opened r sm task step token (described_raised e)
open_item r sm task step token (ok q) = do
  after ← finish_step sm task.id (Outcome.awaits_external q false) token
  waits q.attempt q.max_attempts r task after
  pure none

abbrev opened_with :
    TaskRunner → StateMachine → Task → Step → Option String → Result String ℕ → M (Option WorkItem)
opened_with r sm task step token (err text) =
    not_opened r sm task step token
      (join ("max_attempts must be a positive integer, not " ∷ text ∷ []))
opened_with r sm task step token (ok max_attempts) = do
  previous ← latest_for task.id task.step
  let next = next_attempt previous
  asked ← attempted (perform_request task.id (step.request task next.0))
  open_item r sm task step token (checked_request next max_attempts asked)

abbrev found :
    TaskRunner → StateMachine → Task → Step → Option String → Option WorkItem → M (Option WorkItem)
found r sm task step token none = opened_with r sm task step token step.max_attempts
found r sm task step token (some active) =
    if not (active.step == task.step)
    then not_opened r sm task step token (
        join (
          "work item " ∷ decimal active.id ∷ " of step " ∷ quoted active.step
          ++ (" is still active" ∷ [])))
    else if is_submitted active.status
    then pure (some active)
    else (do
      _ ←
          finish_step sm task.id
            (Outcome.awaits_external (plain_request active.attempt active.max_attempts) true) token
      pure none)

-- `_external`: the submitted item, or none when the task has been resolved.
unfoldable pub external_item :
    TaskRunner → StateMachine → Task → Step → Option String → M (Option WorkItem)
unfolding not_opened open_item next_attempt perform_request
external_item r sm task step token =
    if not r.items
    then not_opened r sm task step token
        "the active store has no work items (needed by external steps)"
    else (do active ← active_for task.id; found r sm task step token active)

abbrev submitted_value : Option String → String
submitted_value none = "{}"
submitted_value (some value) = value

-- The `Submission` that the validator gets.
abbrev pub submission_of : WorkItem → Submission
submission_of item = record {
  item_id = item.id;
  attempt = item.attempt;
  value = submitted_value item.submission;
  submitted_by = item.submitted_by;
}
