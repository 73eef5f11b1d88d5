-- ===== src/Tests/Machines.antt =====
-- Runs of the state machine.
use runspool.Gate.{granted}
use runspool.Machine.Actions.{Decided, decide_approve, decide_terminate, decide_retries}
use runspool.Machine.Actions.Approval.{approve_grants, approve_refused}
use runspool.Machine.Actions.Moves.{
  terminate, set_retries, decide, IsMove, decide-IsMove, decide-terminal,
}
use runspool.Machine.Actions.Rows.{IsSound}
use runspool.Machine.Boundary.{boundary, on_terminate, dispatch, on_denied}
use runspool.Machine.Boundary.Effects.{
  IsReleased, IsSettled, IsTerminated, boundary_settles, boundary_terminates,
}
use runspool.Machine.Finish.{hooks, item_change, result_change, spawn_change, finish_step}
use runspool.Machine.Finish.Commit.{IsCommit, FinishEnds, finish_step-Ends}
use runspool.Machine.Finish.Row.{IsResolved, commit-IsResolved}
use runspool.Machine.Outcome.{denied, event, event_with}
use runspool.Machine.Scheduler.{settle_change}
use runspool.Machine.Scheduler.Settle.{IsSettledTo, settle_change-Sound}
use runspool.Store.Interleaving.{here}
use runspool.Models.{
  illegal_transition, TaskStatus, queued, completed, awaiting_approval, EventType, field_set,
}
use runspool.Prelude.{
  ℕ, String, ◌≡◌, ◌↔◌, refl, inr, true, false, none, some, [], ◌∷◌, arith, string_eq,
}
use runspool.Prelude.Exec.{ok, err}
use runspool.Store.Columns.{Cell, write_all}
use runspool.Store.Events.{insert_events, insert_event}
use runspool.Store.Items.{canceller}
use runspool.Store.Rows.{Task, Db, pos}
use runspool.Store.Table.{find, replace, update_all}
use runspool.Store.World.{World}
use runspool.Text.{join, decimal}
use runspool.Tests.Data.{task_in, busy_task, stopping_task, asking_task, machine, db_of, world_of}

abbrev busy_world : World
busy_world = world_of (db_of busy_task [])

finish_step-Ends_example :
    FinishEnds machine 1
      (denied "no")
      (some "t1")
      busy_world
      (finish_step machine 1 (denied "no") (some "t1") busy_world)
finish_step-Ends_example = finish_step-Ends machine 1 (denied "no") (some "t1") busy_world

denied_decision :
    boundary machine busy_task (denied "no") false false busy_world
    ≡ (ok (on_denied "draft:v2" "no"), busy_world)
unfolding boundary dispatch on_denied
denied_decision = refl

boundary_settles_example : IsSettled (denied "no") false busy_task (on_denied "draft:v2" "no")
boundary_settles_example =
    boundary_settles machine busy_task busy_task (denied "no") false busy_world busy_world
      (on_denied "draft:v2" "no") denied_decision

terminate_decision :
    boundary machine stopping_task (denied "no") true true busy_world
    ≡ (ok (on_terminate "draft:v2" (denied "no")), busy_world)
unfolding boundary on_terminate
terminate_decision = refl

boundary_terminates_example : IsTerminated stopping_task (on_terminate "draft:v2" (denied "no"))
boundary_terminates_example =
    boundary_terminates machine stopping_task stopping_task (denied "no") true busy_world busy_world
      (on_terminate "draft:v2" (denied "no")) terminate_decision

abbrev denied_row : Task
unfolding on_denied
denied_row = record (write_all (on_denied "draft:v2" "no").fields busy_task) { updated_at = 9 }

abbrev denied_db : Db
unfolding on_denied insert_events insert_event denied_row
denied_db =
    (insert_events 1 (on_denied "draft:v2" "no").events 9
      (record busy_world.db { tasks = denied_row ∷ [] })).1

denied_commit : IsCommit machine 1 (denied "no") (some "t1") busy_world denied_db
unfolding on_denied find replace hooks item_change result_change spawn_change denied_db denied_row
    canceller update_all insert_events insert_event
denied_commit = record {
  seen = busy_task;
  executing = refl;
  claimed = refl;
  decided_at = busy_world;
  read = refl;
  since = here;
  decided_by = busy_world;
  change = on_denied "draft:v2" "no";
  decision = denied_decision;
  also = none;
  hooked = refl;
  now = 9;
  applied = record {
    row = busy_task;
    found = refl;
    expected = refl;
    required = refl;
    mid = denied_db;
    written = refl;
    hooked = refl;
  };
}

commit-IsResolved_example :
    IsResolved 1 (denied "no") (some "t1") busy_world.db denied_commit.applied.mid
commit-IsResolved_example =
    commit-IsResolved machine 1 (denied "no") (some "t1") busy_world denied_db denied_commit

-- What a user's request to terminate a queued task decides.
abbrev ended : Decided
ended = record {
  fields = Cell.status TaskStatus.terminated ∷ Cell.next_retry_at none ∷ [];
  events =
      event EventType.terminate_requested "draft:v2" ∷ event EventType.terminated "draft:v2" ∷ [];
  also = none;
}

ended_decision : decide machine terminate (task_in queued) ≡ ok ended
unfolding decide_terminate
ended_decision = refl

decide-IsMove_example : IsMove terminate queued (write_all ended.fields (task_in queued)).status
decide-IsMove_example = decide-IsMove machine terminate (task_in queued) ended ended_decision

queued-IsSound : IsSound (task_in queued)
queued-IsSound = ground arith

abbrev more_retries : Decided
unfolding decide_retries
more_retries = record {
  fields = Cell.max_retries (pos 5) ∷ Cell.retry_count 0 ∷ [];
  events = event_with field_set "draft:v2" (join ("max_retries=" ∷ decimal 5 ∷ [])) ∷ [];
  also = none;
}

retries_decision : decide machine (set_retries (pos 5)) (task_in completed) ≡ ok more_retries
unfolding decide_retries
retries_decision = refl

decide-terminal_example : (write_all more_retries.fields (task_in completed)).status ≡ completed
decide-terminal_example =
    decide-terminal machine (set_retries (pos 5)) (task_in completed) more_retries refl
      retries_decision

settle_change-Sound_example :
    IsReleased stopping_task
      (write_all (settle_change "interrupted" none stopping_task).fields stopping_task)
    × IsSound (write_all (settle_change "interrupted" none stopping_task).fields stopping_task)
    × IsSettledTo none stopping_task
        (write_all (settle_change "interrupted" none stopping_task).fields stopping_task).status
    × ((write_all (settle_change "interrupted" none stopping_task).fields stopping_task).step
        ≡ "draft:v2")
    × ((write_all (settle_change "interrupted" none stopping_task).fields stopping_task).retry_count
        ≡ 0)
settle_change-Sound_example =
    settle_change-Sound "interrupted" none stopping_task stopping_task refl refl refl refl

approve_grants_example :
    (d : Decided) × (decide_approve "ada" asking_task ≡ ok d)
    × ((write_all d.fields asking_task).status ≡ queued)
    × ((s : String) (k : ℕ)
        → (granted (write_all d.fields asking_task) s k ≡ true) ↔ (("draft:v2" ≡ s) × (7 ≡ k)))
approve_grants_example = approve_grants "ada" asking_task 7 refl refl

approve_refused_example :
    (allowed : String) × (decide_approve "ada" (record asking_task { step = "print" })
      ≡ err (illegal_transition 1 awaiting_approval "approve" allowed))
approve_refused_example =
    approve_refused "ada" (record asking_task { step = "print" })
      (inr (inr (inr ("draft:v2", 7, refl, λ h. absurd (cc)))))
