-- ===== src/Machine/Scheduler/Settle.antt =====
-- state_machine.py, `_settle`: what becomes of a task whose worker is gone.
use runspool.Prelude.{String, Bool, true, false, ◌≡◌, ◌≢◌, Option, ◌⊎◌, arith}
use runspool.Models.{
  TaskStatus, queued, pause_pending, paused, terminated, manual_required, status_eq, status_beq_iff,
}
use runspool.Machine.Actions.Rows.{IsSound}
use runspool.Machine.Boundary.Effects.{IsReleased}
use runspool.Machine.Outcome.{is_executing}
use runspool.Machine.Scheduler.{settle_change, opted_out}
use runspool.Store.Columns.{write_all}
use runspool.Store.Rows.{Task}

-- Terminating comes before pausing, and pausing before what the step allows.
abbrev pub IsSettledTo : Option (String → Bool) → Task → TaskStatus → Type 0
IsSettledTo no_retry t s =
    ((t.terminate_requested ≡ true) × (s ≡ terminated))
    ⊎ ((t.terminate_requested ≡ false)
        × ((t.pause_requested ≡ true) ⊎ (t.status ≡ pause_pending))
        × (s ≡ paused))
    ⊎ ((t.terminate_requested ≡ false)
        × (t.pause_requested ≡ false)
        × (t.status ≢ pause_pending)
        × (((opted_out no_retry t.step ≡ true) × (s ≡ manual_required))
            ⊎ ((opted_out no_retry t.step ≡ false) × (s ≡ queued))))

-- A change of `_settle` that was decided for a task `t` releases every row with the same status and
-- flags, whatever else of it has changed, and makes it sound: terminated when that was asked for,
-- else paused when that was asked for or under way, else left to a human when the step of `t` opted out of
-- automatic retries, and else queued. The row's step, counters and identity stay.
pub settle_change-Sound :
    (reason : String) (no_retry : Option (String → Bool)) (t q : Task)
    → is_executing t.status ≡ true
    → q.status ≡ t.status
    → q.pause_requested ≡ t.pause_requested
    → q.terminate_requested ≡ t.terminate_requested
    → IsReleased q (write_all (settle_change reason no_retry t).fields q)
      × IsSound (write_all (settle_change reason no_retry t).fields q)
      × IsSettledTo no_retry t (write_all (settle_change reason no_retry t).fields q).status
      × ((write_all (settle_change reason no_retry t).fields q).step ≡ q.step)
      × ((write_all (settle_change reason no_retry t).fields q).retry_count ≡ q.retry_count)
unfolding settle_change
settle_change-Sound reason no_retry t q busy same pause terminate =
    ground (arith, status_beq_iff t.status pause_pending)
