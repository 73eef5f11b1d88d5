-- ===== src/Store/Rows.antt =====
-- The rows of the tables (schema.py) and the database. A timestamp is its number of seconds, of
-- which the stored text `YYYY-MM-DD HH:MM:SS` keeps the order; a flag column (0 or 1) is a Bool; a
-- JSON column is its text.
use runspool.Prelude.{ℕ, String, Bool, Option, List}
use runspool.Models.{TaskStatus, EventType}

-- An `integer` column that may be negative; `negsuc n` is -(n + 1).
pub data ℤ : Type 0 where
  pos negsuc : ℕ → ℤ

pub record Task : Type 0 where
  pub id : ℕ
  pub input : String
  pub name : Option String
  pub workflow : String
  pub step : String
  pub status : TaskStatus
  pub priority : ℤ
  pub retry_count : ℕ
  pub max_retries : ℤ
  pub locked_by : Option String
  pub locked_at : Option ℕ
  pub heartbeat_at : Option ℕ
  pub pause_requested : Bool
  pub terminate_requested : Bool
  pub last_error : Option String
  pub next_retry_at : Option ℕ
  pub created_at : ℕ
  pub updated_at : ℕ
  pub progress : Option String
  pub claim_token : Option String
  pub metadata : Option String
  pub parent_task_id : Option ℕ
  pub approval_grant : Option String

-- A value in an event's payload.
pub data Scalar : Type 0 where
  null : Scalar
  flag : Bool → Scalar
  num : ℕ → Scalar
  text : String → Scalar
  nums : List ℕ → Scalar

-- `class Event`.
pub record Event : Type 0 where
  pub type : EventType
  pub step : Option String
  pub message : Option String
  pub payload : Option (List (String × Scalar))

pub record EventRow : Type 0 where
  pub id : ℕ
  pub task_id : ℕ
  pub event : Event
  pub created_at : ℕ

pub data RunStatus : Type 0 where
  running ok degraded failed deferred rejected interrupted : RunStatus

pub record StepRun : Type 0 where
  pub id : ℕ
  pub task_id : ℕ
  pub step : String
  pub status : RunStatus
  pub started_at : ℕ
  pub finished_at : Option ℕ
  pub duration_ms : Option ℕ
  pub error : Option String
  pub note : Option String

-- The statuses of work_items.py; `opened` is the status `open`, a reserved word here.
pub data ItemStatus : Type 0 where
  opened claimed submitted accepted rejected exhausted cancelled : ItemStatus

pub record WorkItem : Type 0 where
  pub id : ℕ
  pub task_id : ℕ
  pub step : String
  pub attempt : ℕ
  pub max_attempts : ℕ
  pub status : ItemStatus
  pub kind : String
  pub instructions : String
  pub payload : String
  pub previous_error : Option String
  pub claimed_by : Option String
  pub claim_token : Option String
  pub claimed_at : Option ℕ
  pub submission : Option String
  pub submitted_by : Option String
  pub submitted_at : Option ℕ
  pub error : Option String
  pub step_run_id : Option ℕ
  pub created_at : ℕ
  pub updated_at : ℕ

pub record Spawn : Type 0 where
  pub id : ℕ
  pub parent_task_id : ℕ
  pub child_task_id : ℕ
  pub step : String
  pub step_run_id : Option ℕ
  pub spawn_key : Option String
  pub created_at : ℕ

pub record ArtifactRow : Type 0 where
  pub id : ℕ
  pub task_id : ℕ
  pub step : String
  pub step_run_id : Option ℕ
  pub type : String
  pub path : String
  pub sha256 : String
  pub size_bytes : Option ℕ
  pub created_at : ℕ

-- The tables, with the last id that `autoincrement` gave in each.
pub record Db : Type 0 where
  pub tasks : List Task
  pub last_task : ℕ
  pub events : List EventRow
  pub last_event : ℕ
  pub step_runs : List StepRun
  pub last_run : ℕ
  pub work_items : List WorkItem
  pub last_item : ℕ
  pub spawns : List Spawn
  pub last_spawn : ℕ
  pub artifacts : List ArtifactRow
  pub last_artifact : ℕ
