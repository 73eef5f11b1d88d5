-- ===== src/Store/Items.antt =====
-- work_items.py: the work that external steps ask for, one row for each attempt.
pub mod Errors
pub mod Active
pub mod Clients
use runspool.Prelude.{
  ℕ, suc, String, Bool, true, false, ◌&&◌, not, Option, none, some, List, [], ◌∷◌, ◌++◌,
  if◌then◌else◌, ◌==◌, nat_eq, string_eq, option_eq,
}
use runspool.Prelude.Exec.{Result, ok, err, Exec, pure, ◌>>◌}
use runspool.Models.{
  Error, item_conflict, integrity_error, awaiting_external, status_eq, EventType, item_claimed,
  item_released,
}
use runspool.Store.Events.{insert_event}
use runspool.Store.Repository.{Hook, task_key}
use runspool.Store.Rows.{
  Task, Event, Scalar, text, num, ItemStatus, opened, claimed, submitted, cancelled, WorkItem, Db,
}
use runspool.Store.Table.{find, select, update_row, update_all}
use runspool.Store.World.{Tx, M, connect}
use runspool.Text.{join, decimal}

abbrev pub item_key : WorkItem → ℕ
item_key i = i.id

-- `status in ACTIVE`.
abbrev pub is_active : ItemStatus → Bool
is_active opened = true
is_active claimed = true
is_active submitted = true
is_active _ = false

abbrev pub is_open : ItemStatus → Bool
is_open opened = true
is_open _ = false

abbrev pub is_claimed : ItemStatus → Bool
is_claimed claimed = true
is_claimed _ = false

abbrev pub is_submitted : ItemStatus → Bool
is_submitted submitted = true
is_submitted _ = false

abbrev first : List WorkItem → Option WorkItem
first [] = none
first (i ∷ _) = some i

last : List WorkItem → Option WorkItem
last [] = none
last (i ∷ []) = some i
last (_ ∷ i ∷ is) = last (i ∷ is)

-- `WorkItems.get`.
unfoldable pub get : ℕ → M (Option WorkItem)
get item_id = connect λ now db. (ok (find item_key item_id db.work_items), db)

abbrev pub is_active_of : ℕ → WorkItem → Bool
is_active_of task_id i = i.task_id == task_id && is_active i.status

-- `active_for`: the index makes the row unique.
unfoldable pub active_for : ℕ → M (Option WorkItem)
active_for task_id =
    connect λ now db. (ok (first (select (is_active_of task_id) db.work_items)), db)

-- `latest_for`: `order by id desc limit 1`.
unfoldable pub latest_for : ℕ → String → M (Option WorkItem)
unfolding last
latest_for task_id step =
    connect
      λ now db. (ok (last (select (λ i. i.task_id == task_id && i.step == step) db.work_items)), db)

-- `exists (select 1 from tasks t where t.id = ? and t.task_status = 'awaiting_external')`.
abbrev task_waits : Option Task → Bool
task_waits none = false
task_waits (some t) = t.status == awaiting_external

-- The event of a client action on an item.
abbrev pub item_event : EventType → ℕ → String → List (String × Scalar) → Event
item_event type item_id step rest = record {
  type = type;
  step = some step;
  message = some (join ("item " ∷ decimal item_id ∷ []));
  payload = some (("item_id", num item_id) ∷ rest);
}

-- `select task_id, step from work_items where id = ?`, and the event.
abbrev pub log_item : EventType → ℕ → List (String × Scalar) → Tx Unit
log_item type item_id rest now db = elim (find item_key item_id db.work_items) [
  | none ↦ (ok tt, db)
  | some i ↦ insert_event i.task_id (item_event type item_id i.step rest) now db
]

-- `cur.rowcount != 1` ends the block with `missed`.
abbrev pub if_changed :
    {A : Type 0}
    → Result Error A
    → Db
    → Option (List WorkItem)
    → Exec Error Db A
    → Result Error A × Db
if_changed missed db none rest = (missed, db)
if_changed missed db (some items) rest = rest (record db { work_items = items })

-- `WorkItems.claim`; `token` is the fresh `uuid4().hex`.
unfoldable pub claim : ℕ → String → String → M (Option String)
claim item_id by token = connect λ now db.
    if_changed (ok none) db
      (update_row item_key item_id
        (λ i. is_open i.status && task_waits (find task_key i.task_id db.tasks))
        (λ i. record i {
          status = claimed;
          claimed_by = some by;
          claim_token = some token;
          claimed_at = some now;
          updated_at = now;
        })
        db.work_items)
      (do log_item item_claimed item_id (("by", text by) ∷ []) now; pure (some token))

abbrev pub claim_holds : Option String → WorkItem → Bool
claim_holds none i = true
claim_holds (some token) i = i.claim_token == some token

-- `WorkItems.release`.
unfoldable pub release : ℕ → Option String → M Bool
release item_id token = connect λ now db.
    if_changed (ok false) db
      (update_row item_key item_id (λ i. is_claimed i.status && claim_holds token i)
        (λ i. record i {
          status = opened;
          claimed_by = none;
          claim_token = none;
          claimed_at = none;
          updated_at = now;
        })
        db.work_items)
      (do log_item item_released item_id [] now; pure true)

-- What an external step asks for; `payload` is the JSON text of the request's payload.
pub record Request : Type 0 where
  pub attempt : ℕ
  pub max_attempts : ℕ
  pub kind : String
  pub instructions : String
  pub payload : String
  pub previous_error : Option String

abbrev pub has_any : List WorkItem → Bool
has_any [] = false
has_any (_ ∷ _) = true

-- `opener`. The unique index on active items refuses a second one of the task.
unfoldable pub opener : ℕ → String → Request → Hook
opener task_id step r now db =
    let id = suc db.last_item in
    if has_any (select (is_active_of task_id) db.work_items)
    then (err (integrity_error "UNIQUE constraint failed: work_items.task_id"), db)
    else (
      ok tt,
      record db {
        work_items =
            db.work_items
            ++ record {
              id = id;
              task_id = task_id;
              step = step;
              attempt = r.attempt;
              max_attempts = r.max_attempts;
              status = opened;
              kind = r.kind;
              instructions = r.instructions;
              payload = r.payload;
              previous_error = r.previous_error;
              claimed_by = none;
              claim_token = none;
              claimed_at = none;
              submission = none;
              submitted_by = none;
              submitted_at = none;
              error = none;
              step_run_id = none;
              created_at = now;
              updated_at = now;
            }
              ∷ [];
        last_item = id;
      },
    )

abbrev conflict : List String → Result Error Unit
conflict parts = err (item_conflict (join parts))

-- `submitter`; `value` is the JSON text of the submission.
unfoldable pub submitter : ℕ → String → String → Option String → Hook
submitter item_id token value by now db =
    if_changed (conflict ("work item " ∷ decimal item_id ∷ " is not claimed with that token" ∷ []))
      db
      (update_row item_key item_id (λ i. is_claimed i.status && i.claim_token == some token)
        (λ i. record i {
          status = submitted;
          submission = some value;
          submitted_by = by;
          submitted_at = some now;
          updated_at = now;
        })
        db.work_items)
      (pure tt)

-- `closer`, with the status `accepted`, `rejected` or `exhausted`.
unfoldable pub closer : ℕ → ItemStatus → Option String → Option ℕ → Hook
closer item_id status error step_run_id now db =
    if_changed (conflict ("work item " ∷ decimal item_id ∷ " is no longer submitted" ∷ [])) db
      (update_row item_key item_id (λ i. is_submitted i.status)
        (λ i. record i {
          status = status;
          error = error;
          step_run_id = step_run_id;
          updated_at = now;
        })
        db.work_items)
      (pure tt)

abbrev pub other_step : Option String → WorkItem → Bool
other_step none i = true
other_step (some step) i = not (i.step == step)

-- `canceller`.
unfoldable pub canceller : ℕ → Option String → Hook
canceller task_id keep_step now db = (
  ok tt,
  record db {
    work_items =
        update_all (λ i. is_active_of task_id i && other_step keep_step i)
          (λ i. record i { status = cancelled; updated_at = now }) db.work_items;
  },
)

-- `chain`: the hooks that are there, in order.
abbrev pub chain : List (Option Hook) → Option Hook
chain [] = none
chain (none ∷ hooks) = chain hooks
chain (some h ∷ hooks) = elim (chain hooks) [
  | none ↦ some h
  | some rest ↦ some (λ now. do h now; rest now)
]
