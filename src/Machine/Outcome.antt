-- ===== src/Machine/Outcome.antt =====
-- state_machine.py: the outcomes of a step run, and what a machine is made of.
use runspool.Prelude.{ℕ, String, Bool, true, false, Option, none, some, List, [], ◌∷◌, leb}
use runspool.Models.{EventType, TaskStatus, WorkflowDef, running, pause_pending}
use runspool.Store.Columns.{Cell}
use runspool.Store.Items.{Request}
use runspool.Store.Repository.Spawning.{SpawnPlan}
use runspool.Store.Rows.{Event, Scalar}

-- `StateMachine`: its workflow, and which of its optional parts there are: a step-run log, work
-- items, and a store that can spawn.
pub record StateMachine : Type 0 where
  pub workflow : WorkflowDef
  pub step_runs : Bool
  pub items : Bool
  pub spawns : Bool

-- A delay is in seconds; the source reads a negative one as 0.
pub data Outcome : Type 0 where
  -- degraded, item_id, step_run_id, spawn
  succeeded : Bool → Option ℕ → Option ℕ → Option SpawnPlan → Outcome
  -- reason, delay_seconds
  deferred : String → ℕ → Outcome
  -- error, retry_delay_seconds, no_retry
  failed : String → ℕ → Bool → Outcome
  -- reason
  denied : String → Outcome
  -- reason, attempt
  needs_approval : String → ℕ → Outcome
  -- the request, reuse
  awaits_external : Request → Bool → Outcome
  -- reason, item_id, attempt, max_attempts, step_run_id
  rejected : String → ℕ → ℕ → ℕ → Option ℕ → Outcome

-- `Rejected.exhausted`.
abbrev pub is_exhausted : ℕ → ℕ → Bool
is_exhausted attempt max_attempts = leb max_attempts attempt

-- `status in _EXECUTING`.
abbrev pub is_executing : TaskStatus → Bool
is_executing running = true
is_executing pause_pending = true
is_executing _ = false

-- `_UNLOCK`.
abbrev pub unlock : List Cell
unlock =
    Cell.locked_by none ∷ Cell.locked_at none ∷ Cell.heartbeat_at none ∷ Cell.claim_token none ∷ []

-- The columns that a transition writes, and its events.
pub record Change : Type 0 where
  pub fields : List Cell
  pub events : List Event

abbrev pub event : EventType → String → Event
event type step = record { type = type; step = some step; message = none; payload = none }

abbrev pub event_with : EventType → String → String → Event
event_with type step message = record {
  type = type;
  step = some step;
  message = some message;
  payload = none;
}

abbrev pub event_of : EventType → String → String → List (String × Scalar) → Event
event_of type step message payload = record {
  type = type;
  step = some step;
  message = some message;
  payload = some payload;
}
