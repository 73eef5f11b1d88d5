-- ===== src/Store/Repository/Cas.antt =====
-- `transition` is a compare-and-set: it changes exactly the row that it names, and only when that
-- row is still in the state that the caller read.
use runspool.Prelude.{
  ℕ, ◌≡◌, refl, sym, ap, ◌∙◌, Bool, true, false, ◌&&◌, Option, none, some, List, [], ◌∷◌, arith,
  contains, inl, inr, ◌⊎◌,
}
use runspool.Prelude.Exec.{ok, Exec, pure, continue, continue-eq-ok, ◌>>◌}
use runspool.Models.{Error, TaskStatus, status_eq, status_beq_iff}
use runspool.Store.Columns.{Cell, write_all, all_hold}
use runspool.Store.Events.{insert_event, insert_events}
use runspool.Store.Repository.{Hook, task_key, run_hook, transition_tx, if_changed}
use runspool.Store.Rows.{Task, Event, Db}
use runspool.Store.Table.{find, replace, update_row, update_row-eq-some}

-- A transition that took effect: the row it found, and what was committed.
pub record Applied (task_id : ℕ) (fields : List Cell) (expect : List TaskStatus)
    (require : List Cell) (events : List Event) (also : Option Hook) (now : ℕ) (db db' : Db)
    : Type 0 where
  pub row : Task
  pub found : find task_key task_id db.tasks ≡ some row
  pub expected : contains expect row.status ≡ true
  pub required : all_hold require row ≡ true
  -- The database once the row is written and the events are recorded.
  pub mid : Db
  pub written :
      mid.tasks
      ≡ replace task_key task_id (record (write_all fields row) { updated_at = now }) db.tasks
  pub hooked : run_hook also now mid ≡ (ok tt, db')

-- A transition that expects one status found it.
pub expects-status : (s : TaskStatus) (t : Task) → contains (s ∷ []) t.status ≡ true → t.status ≡ s
expects-status s t h = ground (arith, status_beq_iff s t.status)

insert_events_ok :
    (i : ℕ) (es : List Event) (now : ℕ) (db : Db)
    → (d : Db) × (insert_events i es now db ≡ (ok tt, d)) × (d.tasks ≡ db.tasks)
unfolding insert_events insert_event
insert_events_ok i [] now db = (db, refl, refl)
insert_events_ok i (e ∷ es) now db =
    let (d, ran, same) = insert_events_ok i es now (insert_event i e now db).1 in (d, ran, same)

hook_applied :
    (also : Option Hook) (now : ℕ) (d db' : Db) (b : Bool)
    → (run_hook also now >> pure true) d ≡ (ok b, db')
    → (run_hook also now d ≡ (ok tt, db')) × (b ≡ true)
hook_applied also now d db' b h =
    let (u, d', ran, e) = continue-eq-ok (λ _. pure true) (run_hook also now d) b db' h in
    (ran ∙ cc, cc)

-- The rest of the block, once the row is written.
rest_applied :
    (i : ℕ) (es : List Event) (also : Option Hook) (now : ℕ) (db db' : Db) (b : Bool)
    → (insert_events i es now >> (run_hook also now >> pure true)) db ≡ (ok b, db')
    → (mid : Db) × (mid.tasks ≡ db.tasks) × (run_hook also now mid ≡ (ok tt, db')) × (b ≡ true)
rest_applied i es also now db db' b h =
    let (mid, ran, same) = insert_events_ok i es now db in
    let k : (run_hook also now >> pure true) mid ≡ (ok b, db') =
      sym (ap (continue (λ _. run_hook also now >> pure true)) ran) ∙ h in
    let (hooked, done) = hook_applied also now mid db' b k in (mid, same, hooked, done)

-- A compare-and-set that answers true or false has, or has not, found its row and changed it.
changed_or_not :
    (db db' : Db) (found : Option (List Task)) (rest : Exec Error Db Bool) (b : Bool)
    → if_changed db found rest ≡ (ok b, db')
    → ((tasks : List Task) × (found ≡ some tasks)
        × (rest (record db { tasks = tasks }) ≡ (ok b, db')))
      ⊎ ((b ≡ false) × (db' ≡ db))
changed_or_not db db' none rest b h = inr (cc, cc)
changed_or_not db db' (some tasks) rest b h = inl (tasks, refl, h)

module _ (i : ℕ) (fields : List Cell) (expect : List TaskStatus) (require : List Cell)
    (es : List Event) (also : Option Hook) (now : ℕ) (db db' : Db) where
  -- When the transaction of `transition` answers, it has either answered false and changed nothing,
  -- or answered true, found the row in an expected status and with the required columns, written the
  -- given columns to it, and run its hook.
  pub transition_tx-Applied :
      (b : Bool)
      → transition_tx i fields expect require es also now db ≡ (ok b, db')
      → ((b ≡ true) × Applied i fields expect require es also now db db')
        ⊎ ((b ≡ false) × (db' ≡ db))
  unfolding transition_tx
  transition_tx-Applied b h =
      elim (changed_or_not db db'
        (update_row task_key i (λ t. contains expect t.status && all_hold require t)
          (λ t. record (write_all fields t) { updated_at = now }) db.tasks)
        (insert_events i es now >> (run_hook also now >> pure true)) b h) [
          | inr kept ↦ inr kept
          | inl (tasks, e, ran) ↦
              let (row, found, holds, tasks_eq) =
                update_row-eq-some task_key i _ _ db.tasks tasks e in
              let (mid, same, hooked, done) = rest_applied i es also now _ db' b ran in
              inl (
                done,
                record {
                  row = row;
                  found = found;
                  expected = ground arith;
                  required = ground arith;
                  mid = mid;
                  written = same ∙ tasks_eq;
                  hooked = hooked;
                },
              )
        ]
