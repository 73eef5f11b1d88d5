-- ===== src/Machine/Finish/Sound.antt =====
-- The row that `finish_step` leaves is sound.
use runspool.Prelude.{ℕ, Bool, true, false, ◌≡◌, arith}
use runspool.Machine.Actions.Rows.{IsSound}
use runspool.Machine.Boundary.Effects.{Leads, IsSettled, IsTerminated}
use runspool.Machine.Outcome.{
  Outcome, succeeded, deferred, failed, denied, needs_approval, awaits_external, rejected, Change,
  is_executing,
}
use runspool.Models.{TaskStatus}
use runspool.Store.Columns.{write_all}
use runspool.Store.Rows.{Task}

-- An outcome always takes the task away from its worker.
pub Leads-idle :
    (o : Outcome) (pause : Bool) (s : TaskStatus) → Leads o pause s → is_executing s ≡ false
Leads-idle (succeeded _ _ _ _) true s h = ground arith
Leads-idle (succeeded _ _ _ _) false s h = ground arith
Leads-idle (denied _) pause s h = ground arith
Leads-idle (needs_approval _ _) true s h = ground arith
Leads-idle (needs_approval _ _) false s h = ground arith
Leads-idle (awaits_external _ _) true s h = ground arith
Leads-idle (awaits_external _ _) false s h = ground arith
Leads-idle (rejected _ _ _ _ _) true s h = ground arith
Leads-idle (rejected _ _ _ _ _) false s h = ground arith
Leads-idle (deferred _ _) true s h = ground arith
Leads-idle (deferred _ _) false s h = ground arith
Leads-idle (failed _ _ _) true s h = ground arith
Leads-idle (failed _ _ _) false s h = ground arith

pub settled-IsSound :
    (o : Outcome) (t : Task) (c : Change) (now : ℕ)
    → t.terminate_requested ≡ false
    → IsSettled o t.pause_requested t c
    → IsSound (record (write_all c.fields t) { updated_at = now })
settled-IsSound o t c now h s =
    let idle = Leads-idle o t.pause_requested (write_all c.fields t).status s.leads in ground arith

pub terminated-IsSound :
    (t : Task) (c : Change) (now : ℕ)
    → IsTerminated t c
    → IsSound (record (write_all c.fields t) { updated_at = now })
terminated-IsSound t c now s = ground arith
