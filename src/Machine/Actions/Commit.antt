-- ===== src/Machine/Actions/Commit.antt =====
-- What the one commit of a user's action makes of the task's row.
use runspool.Prelude.{ℕ, ◌≡◌, refl, sym, ◌∙◌, some, List, [], ◌∷◌}
use mathlib.Core.Path.{subst}
use runspool.Machine.Actions.Ends.{IsDone}
use runspool.Machine.Actions.Moves.{Action, IsMove, decide-IsMove}
use runspool.Machine.Actions.Rows.{updated-IsSound, IsSound, decide-IsSound}
use runspool.Machine.Outcome.{StateMachine}
use runspool.Models.{status_eq}
use runspool.Store.Columns.{Cell, write, write_all, write_all-id}
use runspool.Store.Repository.{task_key}
use runspool.Store.Repository.Cas.{expects-status}
use runspool.Store.Rows.{Task, Db}
use runspool.Store.Table.{find, find-replace, find_key}
use runspool.Store.World.{World}

write-status :
    (c : Cell) (s t : Task) → s.status ≡ t.status → (write c s).status ≡ (write c t).status
write-status (Cell.status v) s t h = refl
write-status _ s t h = h

-- What a list of columns makes of a status depends on the status alone.
write_all-status :
    (cs : List Cell) (s t : Task)
    → s.status ≡ t.status
    → (write_all cs s).status ≡ (write_all cs t).status
write_all-status [] s t h = h
write_all-status (c ∷ cs) s t h = write_all-status cs (write c s) (write c t) (write-status c s t h)

-- The row with id `i` made a move of the action, from `before` to `after`.
pub record IsMoved (i : ℕ) (a : Action) (before after : Db) : Type 0 where
  pub row : Task
  pub row' : Task
  pub found : find task_key i before.tasks ≡ some row
  pub left : find task_key i after.tasks ≡ some row'
  pub moved : IsMove a row.status row'.status

module _ (m : StateMachine) (i : ℕ) (a : Action) (u : World) (db : Db) (c : IsDone m i a u db) where
  same_status : c.applied.row.status ≡ c.seen.status
  same_status = expects-status c.seen.status c.applied.row c.applied.expected

  abbrev new_row : Task
  new_row = record (write_all c.decided.fields c.applied.row) { updated_at = c.now }

  new_row-Found : find task_key i c.applied.mid.tasks ≡ some new_row
  new_row-Found = rw c.applied.written (
      find-replace task_key i _ u.db.tasks c.applied.row c.applied.found (
        write_all-id c.decided.fields c.applied.row
        ∙ find_key task_key i u.db.tasks c.applied.row c.applied.found))

  -- The one commit of a user's action moves the row, as it stands at that moment, along a move that
  -- the action has.
  pub done-IsMoved : IsMoved i a u.db c.applied.mid
  done-IsMoved = record {
    row = c.applied.row;
    row' = new_row;
    found = c.applied.found;
    left = new_row-Found;
    moved =
        subst (λ s. IsMove a s new_row.status) (sym same_status)
          (subst (λ s. IsMove a c.seen.status s)
            (sym (write_all-status c.decided.fields c.applied.row c.seen same_status))
            (decide-IsMove m a c.seen c.decided c.decision));
  }

  -- If the row was sound when the action's commit found it, the row that the commit leaves is sound.
  pub done-IsSound :
      IsSound c.applied.row
      → (t : Task) × (find task_key i c.applied.mid.tasks ≡ some t) × IsSound t
  done-IsSound sound = (
    new_row,
    new_row-Found,
    updated-IsSound (write_all c.decided.fields c.applied.row) c.now
        (decide-IsSound m a c.seen c.applied.row c.decided same_status sound c.decision),
  )
