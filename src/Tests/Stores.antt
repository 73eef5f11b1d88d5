-- ===== src/Tests/Stores.antt =====
-- Runs of the store.
use runspool.Gate.{grant_value, granted}
use runspool.Gate.Grants.{granted_iff}
use runspool.Models.{awaiting_external, queued, running, paused}
use runspool.Prelude.{
  Bool, ◌==◌, nat_eq, ℕ, String, ◌≡◌, ◌≢◌, ◌↔◌, ◌⊎◌, refl, string_eq, ne_beq, some_inj, arith, inl,
  true, false, none, some, List, [], ◌∷◌,
}
use runspool.Prelude.Exec.{ok}
use runspool.Store.Columns.{Cell, write_all}
use runspool.Store.Events.{insert_events}
use runspool.Store.Items.{claim, canceller}
use runspool.Store.Items.Clients.{claim-IsSingle, canceller-count}
use runspool.Store.Quiet.{IsQuiet}
use runspool.Store.StepRuns.{has_degraded}
use runspool.Store.StepRuns.Latest.{last_status, has_degraded-Latest}
use runspool.Store.Items.Active.{count, IsSingle, hook, close, hook-IsSingle}
use runspool.Store.Repository.{
  transition_tx, transition, claim_queued, heartbeat, update_fields, prepare_updates, column,
}
use runspool.Store.Repository.Cas.{Applied, transition_tx-Applied}
use runspool.Store.Repository.Claims.{
  IsClaimed, IsRefused, claim_queued-IsClaimed, claim_queued-Exclusive, claim_queued-IsRefused,
  heartbeat-IsRefused, update_fields-IsRefused,
}
use runspool.Store.Repository.Transition.{TransitionEnds, transition-Ends}
use runspool.Store.Repository.Updates.{SameLifecycle, prepare_updates-SameLifecycle}
use runspool.Store.Events.{insert_event}
use runspool.Store.Rows.{opened, StepRun, degraded, pos, rejected, submitted}
use runspool.Store.Table.{find, update_row, replace, select}
use runspool.Store.World.{World, connect, advance}
use runspool.Text.{append, decimal, int, rpartition}
use runspool.Text.RoundTrip.{int-decimal, rpartition-decimal}
use runspool.Tests.Data.{task_in, busy_task, item_in, db_of, world_of}

int-decimal_example : int (decimal 120) ≡ some 120
int-decimal_example = int-decimal 120

rpartition-decimal_example :
    rpartition (append "draft:v2" (append ":" (decimal 7))) ≡ ("draft:v2", decimal 7)
rpartition-decimal_example = rpartition-decimal "draft:v2" 7

granted_iff_example :
    (granted
        (record (task_in queued) { approval_grant = some (grant_value "draft:v2" 7) })
        "draft:v2"
        7
      ≡ true)
    ↔ ((◌≡◌ {A = String} "draft:v2" "draft:v2") × (◌≡◌ {A = ℕ} 7 7))
granted_iff_example =
    granted_iff (record (task_in queued) { approval_grant = some (grant_value "draft:v2" 7) })
      "draft:v2" "draft:v2" 7 7 refl

abbrev idle_world : World
idle_world = world_of (db_of (task_in queued) (item_in submitted ∷ []))

abbrev busy_world : World
busy_world = world_of (db_of busy_task [])

-- The world that a claim of the queued task leaves.
abbrev claimed_world : World
unfolding claim_queued connect update_row advance find replace
claimed_world = (claim_queued 1 "worker-1" 9 (some "t1") none idle_world).1

claim_runs : claim_queued 1 "worker-1" 9 (some "t1") none idle_world ≡ (ok true, claimed_world)
unfolding claim_queued connect update_row advance find replace
claim_runs = refl

claim_queued-IsClaimed_example : IsClaimed 1 "worker-1" 9 (some "t1") idle_world.db claimed_world.db
claim_queued-IsClaimed_example =
    claim_queued-IsClaimed 1 "worker-1" 9 (some "t1") none idle_world claimed_world claim_runs

claim_queued-Exclusive_example :
    IsRefused claimed_world (claim_queued 1 "worker-2" 10 (some "t2") none claimed_world)
unfolding claimed_world
claim_queued-Exclusive_example =
    claim_queued-Exclusive 1 "worker-1" "worker-2" 9 10 (some "t1") (some "t2") none none idle_world
      claimed_world claim_runs refl

running_queued : running ≢ queued
running_queued h = cc

claim_queued-IsRefused_example :
    IsRefused busy_world (claim_queued 1 "worker-2" 10 none none busy_world)
unfolding find
claim_queued-IsRefused_example =
    claim_queued-IsRefused 1 "worker-2" 10 none none busy_world busy_task refl (inl running_queued)

other_token : busy_task.claim_token ≢ some "t2"
other_token h = ne_beq "t1" "t2" refl (some_inj h)

heartbeat-IsRefused_example : IsRefused busy_world (heartbeat 1 50 none (some "t2") busy_world)
unfolding find
heartbeat-IsRefused_example =
    heartbeat-IsRefused 1 50 none "t2" busy_world busy_task refl other_token

update_fields-IsRefused_example :
    IsRefused busy_world
      (update_fields 1 (column (Cell.priority (pos 4)) ∷ []) (some "t2") busy_world)
unfolding find prepare_updates
update_fields-IsRefused_example =
    update_fields-IsRefused 1 (column (Cell.priority (pos 4))) [] (Cell.priority (pos 4) ∷ []) "t2"
      busy_world busy_task refl refl other_token

prepare_updates-SameLifecycle_example :
    SameLifecycle busy_task (write_all (Cell.priority (pos 4) ∷ []) busy_task)
unfolding prepare_updates
prepare_updates-SameLifecycle_example =
    prepare_updates-SameLifecycle (column (Cell.priority (pos 4)) ∷ []) (Cell.priority (pos 4) ∷ [])
      busy_task refl

submitted-IsSingle : IsSingle 1 (item_in submitted ∷ [])
unfolding select
submitted-IsSingle = record { most = omega arith }

hook-IsSingle_example :
    IsSingle 1 (hook (close 1 rejected refl none none) 9 idle_world.db).1.work_items
hook-IsSingle_example =
    hook-IsSingle 1 (close 1 rejected refl none none) 9 idle_world.db submitted-IsSingle

abbrev paused_cells : List Cell
paused_cells = Cell.status paused ∷ []

transition-Ends_example :
    TransitionEnds 1 paused_cells
      (queued ∷ [])
      []
      []
      none
      idle_world
      (transition 1 paused_cells (queued ∷ []) [] [] none idle_world)
transition-Ends_example = transition-Ends 1 paused_cells (queued ∷ []) [] [] none tt idle_world

transition_runs :
    transition_tx 1 paused_cells (queued ∷ []) [] [] none 9 idle_world.db
    ≡ (ok true, (transition_tx 1 paused_cells (queued ∷ []) [] [] none 9 idle_world.db).1)
unfolding transition_tx update_row find replace insert_events
transition_runs = refl

transition_tx-Applied_example :
    ((true ≡ true)
      × Applied 1 paused_cells
          (queued ∷ [])
          []
          []
          none
          9
          idle_world.db
          (transition_tx 1 paused_cells (queued ∷ []) [] [] none 9 idle_world.db).1)
    ⊎ ((true ≡ false)
        × ((transition_tx 1 paused_cells (queued ∷ []) [] [] none 9 idle_world.db).1
            ≡ idle_world.db))
transition_tx-Applied_example =
    transition_tx-Applied 1 paused_cells (queued ∷ []) [] [] none 9 idle_world.db
      (transition_tx 1 paused_cells (queued ∷ []) [] [] none 9 idle_world.db).1 true transition_runs

abbrev degraded_run : StepRun
degraded_run = record {
  id = 1;
  task_id = 1;
  step = "outline";
  status = degraded;
  started_at = 0;
  finished_at = some 3;
  duration_ms = some 3000;
  error = none;
  note = none;
}

abbrev degraded_world : World
degraded_world = world_of (record idle_world.db { step_runs = degraded_run ∷ [] })

degraded_world-IsQuiet : IsQuiet degraded_world
degraded_world-IsQuiet = record { alone = λ n db. refl; sound = λ n. refl }

has_degraded-Latest_example :
    (b : Bool) × ((has_degraded 1 degraded_world).0 ≡ ok b)
    × ((b ≡ true) ↔ (
        (step : String) × (last_status
            (select (λ r. r.task_id == 1) degraded_world.db.step_runs)
            step
            none
          ≡ some degraded)))
has_degraded-Latest_example = has_degraded-Latest 1 degraded_world degraded_world-IsQuiet

-- A task that waits for the client of its open item.
abbrev waiting_world : World
waiting_world = world_of (db_of (task_in awaiting_external) (item_in opened ∷ []))

opened-IsSingle : IsSingle 1 (item_in opened ∷ [])
unfolding select
opened-IsSingle = record { most = omega arith }

claim_wins : (claim 1 "ada" "k2" waiting_world).0 ≡ ok (some "k2")
unfolding claim connect advance update_row find replace insert_event
claim_wins = refl

claim-IsSingle_example : IsSingle 1 (claim 1 "ada" "k2" waiting_world).1.db.work_items
claim-IsSingle_example = claim-IsSingle 1 1 "ada" "k2" waiting_world opened-IsSingle

canceller-count_example : count 1 (canceller 1 none 9 idle_world.db).1.work_items ≡ 0
canceller-count_example = canceller-count 1 9 idle_world.db
