-- ===== src/Tests/Rounds.antt =====
-- Runs of the scheduler's rounds.
use runspool.Engine.Coordinator.{Coordinator, Here, tick}
use runspool.Engine.Coordinator.Calls.{Calls}
use runspool.Models.{queued}
use runspool.Prelude.{true, false, ◌≡◌, refl, some, [], ◌∷◌}
use runspool.Prelude.Exec.{ok}
use runspool.Store.Events.{insert_event}
use runspool.Store.Repository.{get_task, claim_queued}
use runspool.Store.Table.{select, find, update_row}
use runspool.Store.World.{World, connect, advance}
use runspool.Tests.Data.{db_of, world_of, machine, task_in}

abbrev coordinator : Coordinator
coordinator = record {
  workflow = λ name. some machine.workflow;
  step_quota = λ step. 1;
  registry = λ name. some (record { when = λ task. ok true; no_retry = false });
  items = true;
  spawns = true;
}

abbrev here : Here
here = record {
  world = world_of (db_of (task_in queued) []);
  inflight = [];
  jobs = [];
  issued = 0;
  uuid = λ n. "c0ffee";
  gone = λ n j. false;
}

abbrev after_tick : Here
after_tick = (tick coordinator here).1

one_job : after_tick.jobs ≡ record { task_id = 1; token = "c0ffee" } ∷ []
unfolding tick connect select advance get_task find claim_queued update_row insert_event
one_job = refl
