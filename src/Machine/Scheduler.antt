-- ===== src/Machine/Scheduler.antt =====
-- state_machine.py: what the scheduler asks for: claiming, skipping, automatic retries, and
-- releasing tasks whose worker is gone.
pub mod Settle
pub mod Closed
pub mod Ends
pub mod Commit
use runspool.Prelude.{
  ℕ, zero, suc, String, Bool, true, false, not, ◌&&◌, ◌||◌, Option, none, some, List, [], ◌∷◌,
  if◌then◌else◌, ◌==◌, option_eq, string_eq, nat_eq,
}
use runspool.Prelude.Exec.{Result, ok, err, pure, raise, ◌>>=◌, ◌>>◌}
use runspool.Models.{
  Error, queued, running, pause_pending, paused, terminated, failed, manual_required, status_eq,
  EventType, claimed, step_completed, retry, reclaimed, next_step, NextStep,
}
use runspool.Machine.Boundary.{final_status, step_name}
use runspool.Machine.Finish.{attempts, move}
use runspool.Machine.Outcome.{StateMachine, is_executing, unlock, Change, event, event_with}
use runspool.Store.Columns.{Cell}
use runspool.Store.Repository.{get_task, claim_queued}
use runspool.Store.Repository.Queries.{list_by_status}
use runspool.Store.Rows.{Task}
use runspool.Store.StepRuns.{close_running_for_task}
use runspool.Store.World.{M, utcnow}
use runspool.Text.{join}

-- `claim` of a task that was read.
claim_read : StateMachine → ℕ → String → Option String → Option Task → M Bool
unfolding move
claim_read m task_id worker token none = pure false
claim_read m task_id worker token (some task) =
    if task.status == queued && task.terminate_requested
    then (do
      _ ←
          move m task_id (Cell.status terminated ∷ Cell.terminate_requested false ∷ unlock)
            (queued ∷ []) (Cell.terminate_requested true ∷ [])
            (event EventType.terminated task.step ∷ []) none
      pure false)
    else (do
      now ← utcnow
      claim_queued task_id worker now token
          (some (event_with claimed task.step (join ("claimed by " ∷ worker ∷ [])))))

-- `claim`.
unfoldable pub claim : StateMachine → ℕ → String → Option String → M Bool
unfolding claim_read
claim m task_id worker token = do task ← get_task task_id; claim_read m task_id worker token task

skip_to : StateMachine → ℕ → Task → Result Error NextStep → M Unit
unfolding move final_status
skip_to m task_id task (err e) = raise e
skip_to m task_id task (ok next) =
    if next.done
    then (do
      status ← final_status m task_id false
      _ ←
          move m task_id (Cell.status status ∷ []) (queued ∷ []) (Cell.step task.step ∷ [])
            (event_with EventType.completed task.step "last step skipped" ∷ []) none
      pure tt)
    else (do
      _ ←
          move m task_id (Cell.step (step_name next.step) ∷ []) (queued ∷ [])
            (Cell.step task.step ∷ [])
            (event_with step_completed task.step
                (join ("skipped, advanced to " ∷ step_name next.step ∷ []))
              ∷ [])
            none
      pure tt)

skip_read : StateMachine → ℕ → Option Task → M Unit
unfolding skip_to
skip_read m task_id none = pure tt
skip_read m task_id (some task) =
    if not (task.status == queued)
    then pure tt
    else skip_to m task_id task (next_step m.workflow task.step)

-- `skip_step`.
unfoldable pub skip_step : StateMachine → ℕ → M Unit
unfolding skip_read
skip_step m task_id = do task ← get_task task_id; skip_read m task_id task

requeue_read : StateMachine → ℕ → Option Task → M Unit
unfolding move
requeue_read m task_id none = pure tt
requeue_read m task_id (some task) = do
  _ ←
      move m task_id (Cell.status queued ∷ Cell.next_retry_at none ∷ []) (failed ∷ []) []
        (event_with retry task.step "automatic retry" ∷ []) none
  pure tt

-- `requeue_failed`.
unfoldable pub requeue_failed : StateMachine → ℕ → M Unit
unfolding requeue_read
requeue_failed m task_id = do task ← get_task task_id; requeue_read m task_id task

-- `no_retry is not None and no_retry(step)`.
abbrev pub opted_out : Option (String → Bool) → String → Bool
opted_out none step = false
opted_out (some no_retry) step = no_retry step

-- The transition of `_settle`.
unfoldable pub settle_change : String → Option (String → Bool) → Task → Change
settle_change reason no_retry task =
    let error = join (reason ∷ ": step '" ∷ task.step ∷ "' is not requeued automatically" ∷ []) in
    if task.terminate_requested
    then record {
      fields =
          Cell.status terminated
          ∷ Cell.terminate_requested false
          ∷ Cell.pause_requested false
          ∷ unlock;
      events = event_with EventType.terminated task.step reason ∷ [];
    }
    else if task.pause_requested || task.status == pause_pending
    then record {
      fields = Cell.status paused ∷ Cell.pause_requested false ∷ unlock;
      events = event_with EventType.paused task.step reason ∷ [];
    }
    else if opted_out no_retry task.step
    then record {
      fields =
          Cell.status manual_required
          ∷ Cell.last_error (some error)
          ∷ Cell.next_retry_at none
          ∷ unlock;
      events = event_with EventType.manual_required task.step error ∷ [];
    }
    else record {
      fields = Cell.status queued ∷ unlock;
      events = event_with reclaimed task.step (join (reason ∷ ", requeued" ∷ [])) ∷ [];
    }

abbrev heartbeat_cell : Bool → Task → List Cell
heartbeat_cell true task = Cell.heartbeat_at task.heartbeat_at ∷ []
heartbeat_cell false task = []

abbrev pub settle_requires : Bool → Task → List Cell
settle_requires check_alive task =
    Cell.pause_requested task.pause_requested
    ∷ Cell.terminate_requested task.terminate_requested
    ∷ Cell.claim_token task.claim_token
    ∷ heartbeat_cell check_alive task

-- `seen_heartbeat`; `none` is `_UNREAD`.
abbrev pub Seen : Type 0
Seen = Option (Option ℕ)

abbrev pub has_beaten : Bool → Seen → Task → Bool
has_beaten check_alive none task = false
has_beaten check_alive (some seen) task = check_alive && not (task.heartbeat_at == seen)

abbrev pub next_seen : Seen → Task → Seen
next_seen none task = some task.heartbeat_at
next_seen (some seen) task = some seen

-- `_close_running_step_run`.
unfoldable pub close_running_step_run : StateMachine → ℕ → M Unit
close_running_step_run m task_id =
    if m.step_runs then (do _ ← close_running_for_task task_id; pure tt) else pure tt

abbrev pub settled : StateMachine → ℕ → M Bool → Bool → M Bool
settled m task_id again moved =
    if moved then (do close_running_step_run m task_id; pure true) else again

-- One round of `_settle`, once the task is read.
unfoldable pub settle_once :
    StateMachine
    → ℕ
    → String
    → Bool
    → Option (String → Bool)
    → Seen
    → (Seen → M Bool)
    → Option Task
    → M Bool
unfolding move settle_change close_running_step_run
settle_once m task_id reason check_alive no_retry seen again none = pure false
settle_once m task_id reason check_alive no_retry seen again (some task) =
    if not (is_executing task.status) || has_beaten check_alive seen task then pure false else (do
      let change = settle_change reason no_retry task
      moved ←
          move m task_id change.fields (task.status ∷ []) (settle_requires check_alive task)
            change.events none
      settled m task_id (again (next_seen seen task)) moved)

unfoldable pub settle_rounds :
    ℕ → StateMachine → ℕ → String → Bool → Option (String → Bool) → Seen → M Bool
unfolding settle_once
settle_rounds zero m task_id reason check_alive no_retry seen = pure false
settle_rounds (suc n) m task_id reason check_alive no_retry seen = do
  task ← get_task task_id
  settle_once m task_id reason check_alive no_retry seen
      (settle_rounds n m task_id reason check_alive no_retry) task

-- `_settle`.
unfoldable pub settle : StateMachine → ℕ → String → Bool → Option (String → Bool) → M Bool
unfolding settle_rounds
settle m task_id reason check_alive no_retry =
    settle_rounds attempts m task_id reason check_alive no_retry none

-- `requeue_stale`.
unfoldable pub requeue_stale : StateMachine → ℕ → Option (String → Bool) → M Unit
unfolding settle
requeue_stale m task_id no_retry = do
  _ ← settle m task_id "heartbeat timeout" true no_retry
  pure tt

unfoldable pub recover_all : StateMachine → Option (String → Bool) → List Task → M Unit
unfolding settle
recover_all m no_retry [] = pure tt
recover_all m no_retry (t ∷ ts) = do
  _ ← settle m t.id "interrupted" false no_retry
  recover_all m no_retry ts

-- `recover_interrupted`.
unfoldable pub recover_interrupted : StateMachine → Option (String → Bool) → M Unit
unfolding recover_all
recover_interrupted m no_retry = do
  started ← list_by_status running
  recover_all m no_retry started
  pausing ← list_by_status pause_pending
  recover_all m no_retry pausing
