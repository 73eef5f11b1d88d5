-- ===== src/Tests/Runs.antt =====
-- Runs of whole methods of the state machine, and their commits.
use runspool.Machine.Actions.{Decided, user_action, decide_terminate}
use runspool.Machine.Actions.Commit.{IsMoved, done-IsMoved, done-IsSound}
use runspool.Machine.Actions.Ends.{ActionEnds, IsDone, user_action-Ends}
use runspool.Machine.Actions.Moves.{terminate, decide}
use runspool.Machine.Actions.Rows.{IsSound}
use runspool.Machine.Finish.{finish_step}
use runspool.Machine.Finish.Live.{IsFinished, finish_step-IsFinished}
use runspool.Machine.Outcome.{succeeded, event}
use runspool.Machine.Scheduler.{settle}
use runspool.Machine.Scheduler.Ends.{SettleEnds, settle-Ends}
use runspool.Models.{TaskStatus, EventType, queued}
use runspool.Store.Interleaving.{here}
use runspool.Prelude.{◌≡◌, refl, inr, true, false, none, some, [], ◌∷◌, arith}
use runspool.Store.Columns.{Cell, write_all}
use runspool.Store.Events.{insert_events, insert_event}
use runspool.Store.Items.{canceller}
use runspool.Store.Quiet.{IsQuiet}
use runspool.Store.Repository.{task_key}
use runspool.Store.Rows.{Task, Db}
use runspool.Store.Table.{find, replace, update_all}
use runspool.Store.World.{World}
use runspool.Tests.Data.{task_in, busy_task, stopping_task, machine, db_of, world_of}

abbrev idle_world : World
idle_world = world_of (db_of (task_in queued) [])

user_action-Ends_example :
    ActionEnds machine 1 terminate idle_world
      (user_action machine 1 (decide machine terminate) idle_world)
user_action-Ends_example = user_action-Ends machine 1 terminate idle_world

abbrev ended : Decided
ended = record {
  fields = Cell.status TaskStatus.terminated ∷ Cell.next_retry_at none ∷ [];
  events =
      event EventType.terminate_requested "draft:v2" ∷ event EventType.terminated "draft:v2" ∷ [];
  also = none;
}

abbrev ended_db : Db
unfolding insert_events insert_event
ended_db =
    (insert_events 1 ended.events 9 (record idle_world.db {
      tasks = record (write_all ended.fields (task_in queued)) { updated_at = 9 } ∷ [];
    })).1

ended_commit : IsDone machine 1 terminate idle_world ended_db
unfolding decide_terminate find replace insert_events insert_event ended_db canceller update_all
ended_commit = record {
  seen = task_in queued;
  read_at = idle_world;
  read = refl;
  since = here;
  decided = ended;
  decision = refl;
  now = 9;
  applied = record {
    row = task_in queued;
    found = refl;
    expected = refl;
    required = refl;
    mid = ended_db;
    written = refl;
    hooked = refl;
  };
}

done-IsMoved_example : IsMoved 1 terminate idle_world.db ended_commit.applied.mid
done-IsMoved_example = done-IsMoved machine 1 terminate idle_world ended_db ended_commit

queued-IsSound : IsSound (task_in queued)
queued-IsSound = ground arith

done-IsSound_example :
    (t : Task) × (find task_key 1 ended_commit.applied.mid.tasks ≡ some t) × IsSound t
unfolding ended_commit
done-IsSound_example =
    done-IsSound machine 1 terminate idle_world ended_db ended_commit queued-IsSound

abbrev lost_world : World
lost_world = world_of (db_of stopping_task [])

settle-Ends_example :
    SettleEnds machine 1 "interrupted" true none lost_world
      (settle machine 1 "interrupted" true none lost_world)
settle-Ends_example = settle-Ends machine 1 "interrupted" true none lost_world

abbrev after_settle : World
after_settle = (settle machine 1 "interrupted" true none lost_world).1

abbrev busy_world : World
busy_world = world_of (db_of busy_task [])

busy_world-IsQuiet : IsQuiet busy_world
busy_world-IsQuiet = record { alone = λ n db. refl; sound = λ n. refl }

finish_step-IsFinished_example :
    IsFinished machine 1
      (succeeded false none none none)
      (some "t1")
      (finish_step machine 1 (succeeded false none none none) (some "t1") busy_world)
unfolding find
finish_step-IsFinished_example =
    finish_step-IsFinished machine 1 (succeeded false none none none) (some "t1") busy_task
      busy_world busy_world-IsQuiet refl refl (inr refl) refl tt
