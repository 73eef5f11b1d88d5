-- ===== src/Machine/Scheduler/Commit.antt =====
-- What the one commit of `_settle` makes of the task's row.
use runspool.Prelude.{
  ℕ, ◌≡◌, String, Bool, true, false, Option, some, ◌⊎◌, nat_eq, string_eq, option_eq,
}
use runspool.Machine.Actions.Rows.{IsSound}
use runspool.Machine.Boundary.Effects.{IsReleased}
use runspool.Machine.Outcome.{StateMachine, is_executing}
use runspool.Machine.Scheduler.Closed.{CloseEnds}
use runspool.Machine.Scheduler.Ends.{IsRelease}
use runspool.Store.Interleaving.{Idle}
use runspool.Prelude.Exec.{ok}
use runspool.Machine.Scheduler.Settle.{IsSettledTo}
use runspool.Models.{status_eq}
use runspool.Store.Repository.{task_key}
use runspool.Store.Rows.{Task, Db}
use runspool.Store.Table.{find}
use runspool.Store.World.{World}

-- The row has what the decision was made from.
record Agrees (check_alive : Bool) (s t : Task) : Type 0 where
  pause : t.pause_requested ≡ s.pause_requested
  terminate : t.terminate_requested ≡ s.terminate_requested
  token : t.claim_token ≡ s.claim_token
  beat : (check_alive ≡ false) ⊎ (t.heartbeat_at ≡ s.heartbeat_at)

-- The row with id `i` was released, from `before` to `after`, as was decided for `seen`.
pub record IsFreed (i : ℕ) (check_alive : Bool) (no_retry : Option (String → Bool)) (seen : Task)
    (before after : Db) : Type 0 where
  pub row : Task
  pub row' : Task
  pub found : find task_key i before.tasks ≡ some row
  pub executing : is_executing row.status ≡ true
  pub same_claim : row.claim_token ≡ seen.claim_token
  pub no_beat : (check_alive ≡ false) ⊎ (row.heartbeat_at ≡ seen.heartbeat_at)
  pub left : find task_key i after.tasks ≡ some row'
  pub freed : IsReleased row row'
  pub sound : IsSound row'
  pub settled : IsSettledTo no_retry seen row'.status
  pub same_step : row'.step ≡ row.step
  pub same_retries : row'.retry_count ≡ row.retry_count

module _ (m : StateMachine) (i : ℕ) (reason : String) (check_alive : Bool)
    (no_retry : Option (String → Bool)) where
  -- What a call of `_settle` that answered true has done since it began at `w`.
  pub record Freed (w w' : World) : Type 0 where
    pub begun : World
    pub db : Db
    pub waited : Idle w begun
    pub commit : IsRelease m i reason check_alive no_retry begun db
    pub read_within : Idle w commit.read_at
    pub freed : IsFreed i check_alive no_retry commit.seen begun.db commit.applied.mid
    pub closed : CloseEnds m.step_runs i (record begun { db = db }) (ok true, w')
