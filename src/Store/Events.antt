-- ===== src/Store/Events.antt =====
-- event_log.py: the append-only log of what happened to each task.
use runspool.Prelude.{
  ℕ, suc, Bool, ◌&&◌, Option, none, some, List, [], ◌∷◌, ◌++◌, ltb, ◌==◌, nat_eq,
}
use runspool.Prelude.Exec.{ok, pure, ◌>>◌}
use runspool.Store.Rows.{Event, EventRow}
use runspool.Store.Table.{select}
use runspool.Store.World.{Tx, M, connect}

-- `insert_event`.
unfoldable pub insert_event : ℕ → Event → Tx Unit
insert_event task_id event now db = (
  ok tt,
  record db {
    events =
        db.events
        ++ record { id = suc db.last_event; task_id = task_id; event = event; created_at = now }
          ∷ [];
    last_event = suc db.last_event;
  },
)

-- `for event in events: insert_event(conn, task_id, event)`.
unfoldable pub insert_events : ℕ → List Event → Tx Unit
unfolding insert_event
insert_events task_id [] now = pure tt
insert_events task_id (event ∷ events) now = do
  insert_event task_id event now
  insert_events task_id events now

-- `EventLog.add`.
unfoldable pub add : ℕ → Event → M Unit
add task_id event = connect (insert_event task_id event)

-- `limit ?` of a query.
unfoldable pub limited : ℕ → List EventRow → List EventRow
limited ℕ.zero rows = []
limited (suc n) [] = []
limited (suc n) (r ∷ rs) = r ∷ limited n rs

abbrev of_task : Option ℕ → EventRow → Bool
of_task none row = Bool.true
of_task (some i) row = row.task_id == i

newest_first : List EventRow → List EventRow → List EventRow
newest_first [] rows = rows
newest_first (r ∷ rs) rows = newest_first rs (r ∷ rows)

abbrev up_to : Option ℕ → List EventRow → List EventRow
unfolding limited
up_to none rows = rows
up_to (some limit) rows = limited limit rows

-- `EventLog.list_for_task`: `order by id desc` turns the rows round.
unfoldable pub list_for_task : ℕ → Option ℕ → M (List EventRow)
unfolding limited newest_first
list_for_task task_id limit = connect λ now db.
    (ok (up_to limit (newest_first (select (λ row. row.task_id == task_id) db.events) [])), db)

-- `EventLog.since`: rows stand in id order, so `order by id asc` keeps their order.
unfoldable pub since : ℕ → Option ℕ → ℕ → M (List EventRow)
unfolding limited
since cursor task_id limit = connect λ now db.
    (ok (limited limit (select (λ row. ltb cursor row.id && of_task task_id row) db.events)), db)
