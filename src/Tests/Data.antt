-- ===== src/Tests/Data.antt =====
-- The tasks, machines and databases that the runs share.
use runspool.Gate.{asked_value}
use runspool.Machine.Outcome.{StateMachine}
use runspool.Models.{TaskStatus, running, awaiting_approval}
use runspool.Prelude.{true, false, none, some, List, [], ◌∷◌}
use runspool.Store.Items.{Request}
use runspool.Store.Rows.{Task, WorkItem, Db, pos, ItemStatus}
use runspool.Store.World.{World}

abbrev pub task_in : TaskStatus → Task
task_in status = record {
  id = 1;
  input = "book.txt";
  name = none;
  workflow = "novel";
  step = "draft:v2";
  status = status;
  priority = pos 0;
  retry_count = 0;
  max_retries = pos 3;
  locked_by = none;
  locked_at = none;
  heartbeat_at = none;
  pause_requested = false;
  terminate_requested = false;
  last_error = none;
  next_retry_at = none;
  created_at = 0;
  updated_at = 0;
  progress = none;
  claim_token = none;
  metadata = none;
  parent_task_id = none;
  approval_grant = none;
}

abbrev pub busy_task : Task
busy_task = record (task_in running) {
  locked_by = some "worker-1";
  locked_at = some 5;
  heartbeat_at = some 5;
  claim_token = some "t1";
}

abbrev pub stopping_task : Task
stopping_task = record busy_task { pause_requested = true; terminate_requested = true }

abbrev pub asking_task : Task
asking_task = record (task_in awaiting_approval) {
  approval_grant = some (asked_value "draft:v2" 7);
}

abbrev pub machine : StateMachine
machine = record {
  workflow = record { name = "novel"; steps = "outline" ∷ "draft:v2" ∷ "print" ∷ [] };
  step_runs = true;
  items = true;
  spawns = true;
}

abbrev pub item_in : ItemStatus → WorkItem
item_in status = record {
  id = 1;
  task_id = 1;
  step = "draft:v2";
  attempt = 1;
  max_attempts = 3;
  status = status;
  kind = "review";
  instructions = "read it";
  payload = "{}";
  previous_error = none;
  claimed_by = none;
  claim_token = some "k";
  claimed_at = none;
  submission = none;
  submitted_by = none;
  submitted_at = none;
  error = none;
  step_run_id = none;
  created_at = 0;
  updated_at = 0;
}

abbrev pub request : Request
request = record {
  attempt = 1;
  max_attempts = 3;
  kind = "review";
  instructions = "read it";
  payload = "{}";
  previous_error = none;
}

abbrev pub db_of : Task → List WorkItem → Db
db_of task items = record {
  tasks = task ∷ [];
  last_task = 1;
  events = [];
  last_event = 0;
  step_runs = [];
  last_run = 0;
  work_items = items;
  last_item = 1;
  spawns = [];
  last_spawn = 0;
  artifacts = [];
  last_artifact = 0;
}

-- A world in which nobody else writes and nothing fails.
abbrev pub world_of : Db → World
world_of db = record { db = db; tick = 0; others = λ n d. d; fault = λ n. none; clock = λ n. 100 }
