-- ===== src/Store/Repository/Queries.antt =====
-- repository.py: the queries, with their orders. Rows stand in id order in a table, so an order that
-- ends in `id asc` is a stable sort by the columns before it.
use runspool.Prelude.{
  ℕ, ◌+◌, String, Bool, true, false, ◌&&◌, ◌||◌, not, Option, none, some, List, [], ◌∷◌, ltb, leb,
  if◌then◌else◌, ◌==◌, contains, nat_eq, option_eq, string_eq,
}
use runspool.Prelude.Exec.{ok}
use runspool.Models.{TaskStatus, running, pause_pending, failed, status_eq, is_terminal}
use runspool.Store.Columns.{int_eq}
use runspool.Store.Rows.{ℤ, pos, negsuc, Task}
use runspool.Store.Table.{select}
use runspool.Store.World.{M, connect}

abbrev lt_int : ℤ → ℤ → Bool
lt_int (pos a) (pos b) = ltb a b
lt_int (pos a) (negsuc b) = false
lt_int (negsuc a) (pos b) = true
lt_int (negsuc a) (negsuc b) = ltb b a

-- `priority desc, updated_at asc, created_at asc`: whether the first row goes before the second.
abbrev pub precedes : Task → Task → Bool
precedes s t =
    lt_int t.priority s.priority
    || (s.priority == t.priority
        && (ltb s.updated_at t.updated_at
            || (s.updated_at == t.updated_at && ltb s.created_at t.created_at)))

-- `priority desc, updated_at asc`.
abbrev pub precedes_due : Task → Task → Bool
precedes_due s t =
    lt_int t.priority s.priority || (s.priority == t.priority && ltb s.updated_at t.updated_at)

-- A stable sort: a row goes behind those that precede it and before its equals to the right.
unfoldable pub insert : (Task → Task → Bool) → Task → List Task → List Task
insert before t [] = t ∷ []
insert before t (s ∷ ss) = if before s t then s ∷ insert before t ss else t ∷ s ∷ ss

unfoldable pub order_by : (Task → Task → Bool) → List Task → List Task
unfolding insert
order_by before [] = []
order_by before (t ∷ ts) = insert before t (order_by before ts)

-- `list_by_status`.
unfoldable pub list_by_status : TaskStatus → M (List Task)
unfolding order_by
list_by_status status =
    connect λ now db. (ok (order_by precedes (select (λ t. t.status == status) db.tasks)), db)

-- `list_all`.
unfoldable pub list_all : M (List Task)
list_all = connect λ now db. (ok db.tasks, db)

-- `list_children`.
unfoldable pub list_children : ℕ → M (List Task)
list_children parent =
    connect λ now db. (ok (select (λ t. t.parent_task_id == some parent) db.tasks), db)

abbrev pub is_due : ℕ → Option ℕ → Bool
is_due now none = true
is_due now (some at) = leb at now

-- `list_due_failed`.
unfoldable pub list_due_failed : M (List Task)
unfolding order_by
list_due_failed = connect λ now db. (
  ok (
      order_by precedes_due
        (select (λ t. t.status == failed && is_due now t.next_retry_at) db.tasks)),
  db,
)

abbrev pub is_stale : ℕ → ℕ → Option ℕ → Bool
is_stale timeout now none = true
is_stale timeout now (some at) = ltb (at + timeout) now

-- `list_stale_running`.
unfoldable pub list_stale_running : ℕ → M (List Task)
list_stale_running timeout_seconds = connect λ now db. (
  ok (
      select
        (λ t.
          contains (running ∷ pause_pending ∷ []) t.status
          && is_stale timeout_seconds now t.heartbeat_at)
        db.tasks),
  db,
)

last : List Task → Option Task
last [] = none
last (t ∷ []) = some t
last (_ ∷ t ∷ ts) = last (t ∷ ts)

-- `find_active_by_input`: `order by id desc limit 1`.
unfoldable pub find_active_by_input : String → M (Option Task)
unfolding last
find_active_by_input input = connect λ now db.
    (ok (last (select (λ t. t.input == input && not (is_terminal t.status)) db.tasks)), db)
