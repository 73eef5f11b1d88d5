-- ===== src/Store/Repository.antt =====
-- repository.py: reads and writes of the `tasks` table. `transition` is the compare-and-set that
-- the state machine uses for every change of a task's lifecycle columns.
pub mod Spawning
pub mod Queries
pub mod Cas
pub mod Transition
pub mod Updates
pub mod Claims
pub mod Quiet
use runspool.Prelude.{
  ℕ, suc, String, Bool, true, false, ◌&&◌, ◌||◌, not, Option, none, some, List, [], ◌∷◌, ◌++◌,
  if◌then◌else◌, ◌==◌, contains, nat_eq, option_eq, string_eq,
}
use runspool.Prelude.Exec.{Result, ok, err, Exec, pure, raise, ◌>>=◌, ◌>>◌}
use runspool.Models.{Error, value_error, TaskStatus, queued, running, pause_pending, status_eq}
use runspool.Store.Columns.{Cell, is_lifecycle, is_updatable, write_all, all_hold}
use runspool.Store.Events.{insert_event, insert_events}
use runspool.Store.Rows.{ℤ, pos, Task, Event, Db}
use runspool.Store.Table.{find, update_row}
use runspool.Store.World.{World, Tx, M, connect}

-- A hook that runs inside a transition's transaction.
abbrev pub Hook : Type 0
Hook = Tx Unit

abbrev pub task_key : Task → ℕ
task_key t = t.id

-- A `metadata` value: `None`, a dict (as the JSON text that `json.dumps` gives), or anything else.
pub data Metadata : Type 0 where
  absent other : Metadata
  object : String → Metadata

-- `_dump`, and `dump_metadata`.
unfoldable pub dump : Metadata → Result Error (Option String)
dump absent = ok none
dump (object json) = ok (some json)
dump other = err (value_error "metadata must be a JSON object (a dict)")

-- A write that a caller of `update_fields` asks for.
pub data Update : Type 0 where
  column : Cell → Update
  metadata : Metadata → Update

-- `bad = set(fields) - UPDATABLE_COLUMNS` is not empty.
abbrev has_bad : List Update → Bool
has_bad [] = false
has_bad (column c ∷ us) = not (is_updatable c) || has_bad us
has_bad (metadata _ ∷ us) = has_bad us

dump_all : List Update → Result Error (List Cell)
unfolding dump
dump_all [] = ok []
dump_all (column c ∷ us) = elim (dump_all us) [ ok cs ↦ ok (c ∷ cs) | err e ↦ err e ]
dump_all (metadata m ∷ us) = elim (dump m) [
  | err e ↦ err e
  | ok json ↦ elim (dump_all us) [ ok cs ↦ ok (Cell.metadata json ∷ cs) | err e ↦ err e ]
]

-- `prepare_updates`; the columns that its message lists are left out.
unfoldable pub prepare_updates : List Update → Result Error (List Cell)
unfolding dump_all
prepare_updates fields =
    if has_bad fields then err (value_error "columns not updatable") else dump_all fields

-- The keyword arguments of `create_task`.
pub record NewTask : Type 0 where
  pub input : String
  pub workflow : String
  pub first_step : String
  pub max_retries : ℤ
  pub name : Option String
  pub metadata : Metadata
  pub parent_task_id : Option ℕ

-- `insert into tasks (...)`, with the other columns' defaults.
abbrev pub new_row : ℕ → NewTask → Option String → ℕ → Task
new_row id new json now = record {
  id = id;
  input = new.input;
  name = new.name;
  workflow = new.workflow;
  step = new.first_step;
  status = queued;
  priority = pos 0;
  retry_count = 0;
  max_retries = new.max_retries;
  locked_by = none;
  locked_at = none;
  heartbeat_at = none;
  pause_requested = false;
  terminate_requested = false;
  last_error = none;
  next_retry_at = none;
  created_at = now;
  updated_at = now;
  progress = none;
  claim_token = none;
  metadata = json;
  parent_task_id = new.parent_task_id;
  approval_grant = none;
}

-- `insert into tasks ...` and `cur.lastrowid`.
unfoldable pub insert_task : NewTask → Option String → Tx ℕ
insert_task new json now db =
    let id = suc db.last_task in
    (ok id, record db { tasks = db.tasks ++ new_row id new json now ∷ []; last_task = id })

abbrev pub insert_if : ℕ → Option Event → Tx Unit
insert_if id none now = pure tt
insert_if id (some event) now = insert_event id event now

-- `create_task`.
unfoldable pub create_task : NewTask → Option Event → M ℕ
unfolding insert_task dump
create_task new event = connect λ now. do
  json ← (λ db. (dump new.metadata, db))
  id ← insert_task new json now
  insert_if id event now
  pure id

-- `get_task`.
unfoldable pub get_task : ℕ → M (Option Task)
get_task task_id = connect λ now db. (ok (find task_key task_id db.tasks), db)

-- `cur.rowcount == 1` decides whether the rest of the block runs.
abbrev pub if_changed : Db → Option (List Task) → Exec Error Db Bool → Result Error Bool × Db
if_changed db none rest = (ok false, db)
if_changed db (some tasks) rest = rest (record db { tasks = tasks })

-- `claim_queued`.
unfoldable pub claim_queued : ℕ → String → ℕ → Option String → Option Event → M Bool
claim_queued task_id worker at token event = connect λ now db.
    if_changed db
      (update_row task_key task_id (λ t. t.status == queued && not t.terminate_requested)
        (λ t. record t {
          status = running;
          locked_by = some worker;
          locked_at = some at;
          heartbeat_at = some at;
          claim_token = token;
          next_retry_at = none;
          updated_at = now;
        })
        db.tasks)
      (do insert_if task_id event now; pure true)

abbrev pub has_unwritable : List Cell → Bool
has_unwritable [] = false
has_unwritable (c ∷ cs) = not (is_lifecycle c || is_updatable c) || has_unwritable cs

abbrev pub run_hook : Option Hook → Tx Unit
run_hook none now = pure tt
run_hook (some hook) now = hook now

-- The transaction of `transition`.
unfoldable pub transition_tx :
    ℕ → List Cell → List TaskStatus → List Cell → List Event → Option Hook → Tx Bool
transition_tx task_id fields expect require events also now db =
    if_changed db
      (update_row task_key task_id (λ t. contains expect t.status && all_hold require t)
        (λ t. record (write_all fields t) { updated_at = now }) db.tasks)
      (do insert_events task_id events now; run_hook also now; pure true)

abbrev pub is_empty : List TaskStatus → Bool
is_empty [] = true
is_empty (_ ∷ _) = false

-- `transition`.
unfoldable pub transition :
    ℕ → List Cell → List TaskStatus → List Cell → List Event → Option Hook → M Bool
transition task_id fields expect require events also =
    if is_empty expect
    then raise (value_error "transition needs at least one expected status")
    else if has_unwritable fields || has_unwritable require
    then raise (value_error "columns not writable by a transition")
    else connect (transition_tx task_id fields expect require events also)

abbrev pub token_holds : Option String → Task → Bool
token_holds none t = true
token_holds (some token) t = t.claim_token == some token

abbrev write_progress : Option (Option String) → Task → Task
write_progress none t = t
write_progress (some progress) t = record t { progress = progress }

-- `heartbeat`; a `progress` of `none` is `_UNSET`.
unfoldable pub heartbeat : ℕ → ℕ → Option (Option String) → Option String → M Bool
heartbeat task_id at progress token = connect λ now db.
    if_changed db
      (update_row task_key task_id
        (λ t. contains (running ∷ pause_pending ∷ []) t.status && token_holds token t)
        (λ t. write_progress progress (record t { heartbeat_at = some at })) db.tasks)
      (pure true)

-- `update_fields` once its columns are checked.
abbrev pub write_prepared : ℕ → Option String → Result Error (List Cell) → M Bool
write_prepared task_id token (err e) = raise e
write_prepared task_id token (ok cells) = connect λ now db.
    if_changed db
      (update_row task_key task_id (token_holds token)
        (λ t. record (write_all cells t) { updated_at = now }) db.tasks)
      (pure true)

-- `update_fields`.
unfoldable pub update_fields : ℕ → List Update → Option String → M Bool
unfolding prepare_updates
update_fields task_id [] token = pure false
update_fields task_id (u ∷ us) token = write_prepared task_id token (prepare_updates (u ∷ us))
