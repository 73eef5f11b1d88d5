-- ===== src/Store/Repository/Quiet.antt =====
-- In quiet, a transition of a row that is in the required state takes effect.
use runspool.Prelude.{
  ℕ, ◌≡◌, refl, ◌∙◌, true, false, ◌&&◌, ◌||◌, Option, some, List, [], ◌∷◌, contains,
}
use runspool.Prelude.Exec.{ok, pure, ◌>>◌}
use runspool.Models.{TaskStatus, status_eq}
use runspool.Store.Columns.{Cell, write_all, all_hold}
use runspool.Store.Events.{insert_event, insert_events}
use runspool.Store.Quiet.{IsQuiet}
use runspool.Store.Repository.{
  Hook, task_key, run_hook, transition_tx, transition, is_empty, has_unwritable,
}
use runspool.Store.Rows.{Task, Event, Db}
use runspool.Store.Table.{find, replace, update_row-eq-written}
use runspool.Store.World.{World, advance, connect}

-- A hook that never raises and does not touch the tasks.
pub record IsHarmless (also : Option Hook) : Type 0 where
  pub at :
      (now : ℕ) (db : Db)
      → (db' : Db) × (run_hook also now db ≡ (ok tt, db')) × (db'.tasks ≡ db.tasks)

module _ (i : ℕ) (fields : List Cell) (expect : List TaskStatus) (require : List Cell)
    (es : List Event) (also : Option Hook) (harmless : IsHarmless also) where
  events_run :
      (es : List Event) (now : ℕ) (db : Db)
      → (d : Db) × (insert_events i es now db ≡ (ok tt, d)) × (d.tasks ≡ db.tasks)
  unfolding insert_events insert_event
  events_run [] now db = (db, refl, refl)
  events_run (e ∷ es) now db =
      let (d, ran, same) = events_run es now (insert_event i e now db).1 in (d, ran, same)

  rest_runs :
      (now : ℕ) (db : Db)
      → (d : Db) × ((insert_events i es now >> (run_hook also now >> pure true)) db ≡ (ok true, d))
        × (d.tasks ≡ db.tasks)
  rest_runs now db =
      let (d, ran, same) = events_run es now db in
      let (d', hooked, kept) = harmless.at now d in (d', rw ran (rw hooked refl), kept ∙ same)

  tx_runs :
      (t : Task) (now : ℕ) (db : Db)
      → find task_key i db.tasks ≡ some t
      → contains expect t.status && all_hold require t ≡ true
      → (d : Db) × (transition_tx i fields expect require es also now db ≡ (ok true, d))
        × (d.tasks ≡ replace task_key i (record (write_all fields t) { updated_at = now }) db.tasks)
  unfolding transition_tx
  tx_runs t now db found holds =
      let new : List Task =
        replace task_key i (record (write_all fields t) { updated_at = now }) db.tasks in
      let (d, ran, same) = rest_runs now (record db { tasks = new }) in
      (d, rw (update_row-eq-written task_key i _ _ db.tasks t found holds) ran, same)

  -- The transition answered true, and wrote the row.
  pub record IsWritten (t : Task) (w : World) : Type 0 where
    pub now : ℕ
    pub after : World
    pub ran : transition i fields expect require es also w ≡ (ok true, after)
    pub quiet : IsQuiet after
    pub tasks :
        after.db.tasks
        ≡ replace task_key i (record (write_all fields t) { updated_at = now }) w.db.tasks

  pub transition-IsWritten :
      (t : Task) (w : World)
      → IsQuiet w
      → is_empty expect ≡ false
      → has_unwritable fields || has_unwritable require ≡ false
      → find task_key i w.db.tasks ≡ some t
      → contains expect t.status && all_hold require t ≡ true
      → IsWritten t w
  unfolding transition connect advance
  transition-IsWritten t w q some_status writable found holds =
      let now = w.clock w.tick in
      let same = q.alone w.tick w.db in
      let (d, ran, e) = tx_runs t now w.db found holds in
      record {
        now = now;
        after = record (advance w) { db = d };
        ran = rw (some_status, writable, q.sound w.tick, same, ran) refl;
        quiet = record { alone = q.alone; sound = q.sound };
        tasks = e;
      }
