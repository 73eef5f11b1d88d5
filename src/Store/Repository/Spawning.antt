-- ===== src/Store/Repository/Spawning.antt =====
-- repository.py, `result_writer` and `spawner`: what a spawning step writes inside its transition.
pub mod Errors
use runspool.Prelude.{
  ℕ, suc, String, true, ◌&&◌, Option, none, some, List, [], ◌∷◌, ◌++◌, if◌then◌else◌, length, ◌==◌,
  nat_eq, option_eq, string_eq,
}
use runspool.Prelude.Exec.{Result, ok, Exec, pure, gets, ◌>>=◌, ◌>>◌}
use runspool.Models.{Error, created, children_spawned}
use runspool.Text.{join, decimal}
use runspool.Store.Columns.{Cell, write_all}
use runspool.Store.Events.{insert_event}
use runspool.Store.Repository.{Hook, Metadata, NewTask, insert_task, dump, task_key}
use runspool.Store.StepRuns.{is_running}
use runspool.Store.Rows.{ℤ, nums, RunStatus, Spawn, Db}
use runspool.Store.Table.{update_row, update_all}
use runspool.Store.World.{Tx}

-- A child of a SpawnPlan (children.py), checked by `plan_children`.
pub record Child : Type 0 where
  pub input : String
  pub name : Option String
  pub workflow : String
  pub first_step : String
  pub max_retries : ℤ
  pub key : Option String
  pub metadata : Metadata
  pub metadata_json : Option String

-- What a spawning step writes. The ids that the hook leaves in `plan.created` and `plan.existing`
-- are those of its event.
pub record SpawnPlan : Type 0 where
  pub children : List Child
  pub step : String
  pub step_run_id : Option ℕ
  pub updates : List Cell
  pub run_status : RunStatus
  pub duration_ms : ℕ
  pub note : Option String

abbrev write_updates : ℕ → List Cell → Tx Unit
write_updates task_id [] now db = (ok tt, db)
write_updates task_id (c ∷ cs) now db =
    elim (update_row task_key task_id (λ t. true)
      (λ t. record (write_all (c ∷ cs) t) { updated_at = now }) db.tasks) [
        | none ↦ (ok tt, db)
        | some tasks ↦ (ok tt, record db { tasks = tasks })
      ]

abbrev close_run : SpawnPlan → Option ℕ → Tx Unit
close_run plan none now db = (ok tt, db)
close_run plan (some run) now db = (
  ok tt,
  record db {
    step_runs =
        update_all (λ r. r.id == run && is_running r.status)
          (λ r. record r {
            status = plan.run_status;
            finished_at = some now;
            duration_ms = some plan.duration_ms;
            note = plan.note;
          })
          db.step_runs;
  },
)

-- `result_writer`.
unfoldable pub result_writer : ℕ → SpawnPlan → Hook
result_writer task_id plan now = do
  write_updates task_id plan.updates now
  close_run plan plan.step_run_id now

-- `select child_task_id from task_spawns where parent_task_id = ? and spawn_key = ?`.
unfoldable pub find_spawn : ℕ → Option String → List Spawn → Option ℕ
find_spawn parent none spawns = none
find_spawn parent (some key) [] = none
find_spawn parent (some key) (s ∷ ss) =
    if s.parent_task_id == parent && s.spawn_key == some key
    then some s.child_task_id
    else find_spawn parent (some key) ss

abbrev as_new_task : ℕ → Child → NewTask
as_new_task parent c = record {
  input = c.input;
  workflow = c.workflow;
  first_step = c.first_step;
  max_retries = c.max_retries;
  name = c.name;
  metadata = c.metadata;
  parent_task_id = some parent;
}

abbrev child_metadata : Child → Option String → Result Error (Option String)
child_metadata c (some json) = ok (some json)
child_metadata c none = dump c.metadata

abbrev insert_spawn : Spawn → Exec Error Db Unit
insert_spawn row db = (ok tt, record db { spawns = db.spawns ++ row ∷ []; last_spawn = row.id })

-- The body of the loop for a child that is not there yet: its task, its event, its row.
unfoldable pub create_child : ℕ → SpawnPlan → Child → Tx ℕ
unfolding dump insert_task insert_event
create_child parent plan child now = do
  json ← (λ db. (child_metadata child child.metadata_json, db))
  child_id ← insert_task (as_new_task parent child) json now
  insert_event child_id
      (record {
        type = created;
        step = some child.first_step;
        message = some (join ("task created from " ∷ decimal parent ∷ []));
        payload = none;
      })
      now
  id ← gets (λ db. suc db.last_spawn)
  insert_spawn (record {
    id = id;
    parent_task_id = parent;
    child_task_id = child_id;
    step = plan.step;
    step_run_id = plan.step_run_id;
    spawn_key = child.key;
    created_at = now;
  })
  pure child_id

-- The ids that the loop has created and found.
pub record Spawned : Type 0 where
  pub created_ids : List ℕ
  pub existing_ids : List ℕ

abbrev spawn_one : ℕ → SpawnPlan → Child → Spawned → Option ℕ → Tx Spawned
spawn_one parent plan child so_far (some existing) now =
    pure (record so_far { existing_ids = so_far.existing_ids ++ existing ∷ [] })
spawn_one parent plan child so_far none now = do
  id ← create_child parent plan child now
  pure (record so_far { created_ids = so_far.created_ids ++ id ∷ [] })

unfoldable pub spawn_all : ℕ → SpawnPlan → List Child → Spawned → Tx Spawned
unfolding create_child find_spawn
spawn_all parent plan [] so_far now = pure so_far
spawn_all parent plan (child ∷ children) so_far now = do
  existing ← gets (λ db. find_spawn parent child.key db.spawns)
  found ← spawn_one parent plan child so_far existing now
  spawn_all parent plan children found now

abbrev already : List ℕ → List String
already [] = []
already (i ∷ is) = ", " ∷ decimal (length (i ∷ is)) ∷ " already spawned" ∷ []

-- `spawner`.
unfoldable pub spawner : ℕ → SpawnPlan → Hook
unfolding spawn_all insert_event
spawner parent plan now = do
  found ← spawn_all parent plan plan.children (record { created_ids = []; existing_ids = [] }) now
  insert_event parent
      (record {
        type = children_spawned;
        step = some plan.step;
        message = some (
            join (
              "spawned "
              ∷ decimal (length found.created_ids)
              ∷ " child task(s)"
              ∷ already found.existing_ids));
        payload =
            some (("created", nums found.created_ids) ∷ ("existing", nums found.existing_ids) ∷ []);
      })
      now
