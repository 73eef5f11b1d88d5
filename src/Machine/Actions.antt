-- ===== src/Machine/Actions.antt =====
-- state_machine.py: what users ask for. Each action decides from the task as it was read, and is
-- applied if the task's status has not changed since; if it has, the action decides again.
pub mod Approval
pub mod Moves
pub mod Ends
pub mod Commit
pub mod Rows
use runspool.Prelude.{
  ℕ, zero, suc, String, Bool, true, false, not, ◌&&◌, ◌||◌, Option, none, some, List, [], ◌∷◌,
  if◌then◌else◌, ◌==◌, contains, option_eq, string_eq,
}
use runspool.Prelude.Exec.{Result, ok, err, pure, raise, ◌>>=◌}
use runspool.Gate.{grant_value}
use runspool.Models.{
  Error, key_error, value_error, runtime_error, illegal_transition, queued, running, pause_pending,
  paused, terminated, failed, manual_required, awaiting_approval, awaiting_external, status_eq,
  is_terminal, EventType, resumed, retry, woken, approval_decided, field_set, item_submitted,
}
use runspool.Machine.Finish.{attempts, move}
use runspool.Machine.Outcome.{StateMachine, is_executing, event, event_with, event_of}
use runspool.Store.Columns.{Cell}
use runspool.Store.Items.{submitter}
use runspool.Store.Repository.{Hook, get_task}
use runspool.Store.Rows.{ℤ, pos, negsuc, Task, Event, text, num, null, Scalar, WorkItem}
use runspool.Store.World.{M}
use runspool.Text.{join, decimal, int, partition, rpartition}

-- What an action has decided: columns, events, and a hook.
pub record Decided : Type 0 where
  pub fields : List Cell
  pub events : List Event
  pub also : Option Hook

abbrev decided : List Cell → List Event → Result Error Decided
decided fields events = ok (record { fields = fields; events = events; also = none })

abbrev refused : Task → String → String → Result Error Decided
refused task action allowed = err (illegal_transition task.id task.status action allowed)

abbrev pub apply_decided : StateMachine → ℕ → Task → M Unit → Result Error Decided → M Unit
apply_decided m task_id task again (err e) = raise e
apply_decided m task_id task again (ok d) = do
  moved ← move m task_id d.fields (task.status ∷ []) [] d.events d.also
  if moved then pure tt else again

-- `_task_or_missing`, and one round of `_user_action`.
unfoldable pub act_once :
    StateMachine → ℕ → (Task → Result Error Decided) → M Unit → Option Task → M Unit
unfolding move
act_once m task_id decide again none = raise (key_error task_id)
act_once m task_id decide again (some task) = apply_decided m task_id task again (decide task)

unfoldable pub act_rounds : ℕ → StateMachine → ℕ → (Task → Result Error Decided) → M Unit
unfolding act_once
act_rounds zero m task_id decide =
    raise
      (runtime_error (join ("task " ∷ decimal task_id ∷ " kept changing; action not applied" ∷ [])))
act_rounds (suc n) m task_id decide = do
  task ← get_task task_id
  act_once m task_id decide (act_rounds n m task_id decide) task

-- `_user_action`.
unfoldable pub user_action : StateMachine → ℕ → (Task → Result Error Decided) → M Unit
unfolding act_rounds
user_action m task_id decide = act_rounds attempts m task_id decide

-- `decide` of `request_pause`.
unfoldable pub decide_pause : Task → Result Error Decided
decide_pause task =
    if not (contains (queued ∷ running ∷ []) task.status)
    then refused task "pause" "queued or running"
    else if task.status == running
    then decided (Cell.status pause_pending ∷ Cell.pause_requested true ∷ [])
        (event EventType.pause_requested task.step ∷ [])
    else decided (Cell.status paused ∷ Cell.next_retry_at none ∷ [])
        (event EventType.pause_requested task.step ∷ [])

-- `decide` of `request_terminate`.
unfoldable pub decide_terminate : Task → Result Error Decided
decide_terminate task =
    if is_terminal task.status
    then refused task "terminate" "any non-terminal state"
    else if is_executing task.status
    then decided (Cell.terminate_requested true ∷ [])
        (event EventType.terminate_requested task.step ∷ [])
    else decided (Cell.status terminated ∷ Cell.next_retry_at none ∷ [])
        (event EventType.terminate_requested task.step ∷ event EventType.terminated task.step ∷ [])

-- `decide` of `resume`.
unfoldable pub decide_resume : Task → Result Error Decided
decide_resume task =
    if not (task.status == paused)
    then refused task "resume" "paused"
    else decided (Cell.status queued ∷ Cell.pause_requested false ∷ Cell.next_retry_at none ∷ [])
        (event resumed task.step ∷ [])

-- `decide` of `retry`.
unfoldable pub decide_retry : Task → Result Error Decided
decide_retry task =
    if not (contains (failed ∷ manual_required ∷ []) task.status)
    then refused task "retry" "failed or manual_required"
    else decided (Cell.status queued ∷ Cell.last_error none ∷ Cell.next_retry_at none ∷ [])
        (event retry task.step ∷ [])

abbrev pub grant_of : Option String → String
grant_of none = ""
grant_of (some grant) = grant

abbrev pub granted_attempt : Task → String → String → Option ℕ → Result Error Decided
granted_attempt task by step none = err (value_error "invalid literal for int() with base 10")
granted_attempt task by step (some attempt) =
    decided (Cell.status queued ∷ Cell.approval_grant (some (grant_value step attempt)) ∷ []) (
      event_of approval_decided task.step (join ("approved by " ∷ by ∷ []))
        (("outcome", text "approved") ∷ ("by", text by) ∷ ("attempt", num attempt) ∷ [])
      ∷ [])

-- `decide` of `approve`.
unfoldable pub decide_approve : String → Task → Result Error Decided
decide_approve by task =
    let (kind, rest) = partition (grant_of task.approval_grant) in
    let (step, attempt) = rpartition rest in
    if not (task.status == awaiting_approval) || not (kind == "asked")
    then refused task "approve" "awaiting_approval"
    else if not (step == task.step)
    then refused task "approve" "awaiting approval of its current step"
    else granted_attempt task by step (int attempt)

abbrev with_reason : String → List String
with_reason String.[] = []
with_reason (String.◌∷◌ c s) = ": " ∷ String.◌∷◌ c s ∷ []

-- `decide` of `reject`.
unfoldable pub decide_reject : String → String → Task → Result Error Decided
decide_reject reason by task =
    let message = join ("approval rejected by " ∷ by ∷ with_reason reason) in
    if not (task.status == awaiting_approval)
    then refused task "reject" "awaiting_approval"
    else decided
        (Cell.status manual_required
          ∷ Cell.approval_grant none
          ∷ Cell.last_error (some message)
          ∷ [])
        (event_of approval_decided task.step message
            (("outcome", text "rejected") ∷ ("by", text by) ∷ ("reason", text reason) ∷ [])
          ∷ [])

abbrev is_null : Option ℕ → Bool
is_null none = true
is_null (some _) = false

-- `decide` of `wake`.
unfoldable pub decide_wake : Task → Result Error Decided
decide_wake task =
    if not (task.status == queued) || is_null task.next_retry_at
    then refused task "wake" "queued and waiting on a delay"
    else decided (Cell.next_retry_at none ∷ []) (event woken task.step ∷ [])

-- `decide` of `set_step`.
unfoldable pub decide_set_step : String → Bool → Task → Result Error Decided
decide_set_step step force task =
    if not force && not (contains (failed ∷ manual_required ∷ []) task.status)
    then refused task "set-step" "failed or manual_required (use --force)"
    else if is_executing task.status
        || is_terminal task.status
        || contains (awaiting_approval ∷ awaiting_external ∷ []) task.status
    then refused task "set-step"
        "not running, awaiting approval or external work, or finished (even with --force)"
    else decided (Cell.step step ∷ Cell.approval_grant none ∷ [])
        (event_with field_set step (join ("step set to " ∷ step ∷ [])) ∷ [])

abbrev submitted_by : Option String → List String
submitted_by none = []
submitted_by (some String.[]) = []
submitted_by (some (String.◌∷◌ c s)) = " by " ∷ String.◌∷◌ c s ∷ []

abbrev by_scalar : Option String → Scalar
by_scalar none = null
by_scalar (some by) = text by

-- `decide` of `submit_external`.
unfoldable pub decide_submit :
    StateMachine → WorkItem → String → String → Option String → Task → Result Error Decided
decide_submit m item token value by task =
    if not (task.status == awaiting_external) || not (task.step == item.step)
    then refused task "submit" (join ("awaiting_external on " ∷ item.step ∷ []))
    else if not m.items
    then err (runtime_error "the active store has no work items (external steps)")
    else ok (record {
      fields = Cell.status queued ∷ Cell.last_error none ∷ [];
      events =
          event_of item_submitted task.step
            (join ("item " ∷ decimal item.id ∷ " submitted" ∷ submitted_by by))
            (("item_id", num item.id) ∷ ("by", by_scalar by) ∷ [])
          ∷ [];
      also = some (submitter item.id token value by);
    })

-- `f"{n}"` of an integer.
abbrev int_text : ℤ → String
int_text (pos n) = decimal n
int_text (negsuc n) = join ("-" ∷ decimal (suc n) ∷ [])

-- `decide` of `set_retries`.
unfoldable pub decide_retries : ℤ → Task → Result Error Decided
decide_retries max_retries task =
    decided (Cell.max_retries max_retries ∷ Cell.retry_count 0 ∷ [])
      (event_with field_set task.step (join ("max_retries=" ∷ int_text max_retries ∷ [])) ∷ [])

module _ (m : StateMachine) (task_id : ℕ) where
  unfoldable pub request_pause : M Unit
  unfolding user_action decide_pause
  request_pause = user_action m task_id decide_pause

  unfoldable pub request_terminate : M Unit
  unfolding user_action decide_terminate
  request_terminate = user_action m task_id decide_terminate

  unfoldable pub resume : M Unit
  unfolding user_action decide_resume
  resume = user_action m task_id decide_resume

  -- `retry`.
  unfoldable pub retry_task : M Unit
  unfolding user_action decide_retry
  retry_task = user_action m task_id decide_retry

  unfoldable pub approve : String → M Unit
  unfolding user_action decide_approve
  approve by = user_action m task_id (decide_approve by)

  unfoldable pub reject : String → String → M Unit
  unfolding user_action decide_reject
  reject reason by = user_action m task_id (decide_reject reason by)

  unfoldable pub wake : M Unit
  unfolding user_action decide_wake
  wake = user_action m task_id decide_wake

  unfoldable pub set_step : String → Bool → M Unit
  unfolding user_action decide_set_step
  set_step step force =
      if not (contains m.workflow.steps step)
      then raise (
          value_error
            (join ("step '" ∷ step ∷ "' is not part of workflow '" ∷ m.workflow.name ∷ "'" ∷ [])))
      else user_action m task_id (decide_set_step step force)

  unfoldable pub set_retries : ℤ → M Unit
  unfolding user_action decide_retries
  set_retries (pos n) = user_action m task_id (decide_retries (pos n))
  set_retries (negsuc n) =
      raise (value_error (join ("max-retries must be >= 0, got " ∷ int_text (negsuc n) ∷ [])))

-- `submit_external`.
unfoldable pub submit_external : StateMachine → WorkItem → String → String → Option String → M Unit
unfolding user_action decide_submit
submit_external m item token value by =
    user_action m item.task_id (decide_submit m item token value by)
