-- ===== src/Tests/Engine.antt =====
-- Runs of the runner and of the check of child tasks.
use runspool.Engine.Children.{ChildTask, ChildConfig, TextValue, listed, plan_children}
use runspool.Engine.Children.Checked.{AllPlanned, plan_children-AllPlanned}
use runspool.Engine.Runner.{execute}
use runspool.Engine.Runner.Admission.{decide}
use runspool.Engine.Runner.Context.{TaskRunner}
use runspool.Engine.Runner.Ending.{Ended}
use runspool.Engine.Runner.Executes.{execute-Ended}
use runspool.Engine.Runner.Refusal.{with_code, with_step, execute_stale, execute_blind}
use runspool.Engine.Steps.{Step, finish, fault, beat, exception}
use runspool.Engine.Artifacts.Declarations.{absent}
use runspool.Gate.{granted}
use runspool.Models.{first_step, value_error}
use runspool.Prelude.{
  ℕ, String, ne_beq, some_inj, string_eq, true, false, ◌≡◌, refl, inr, Option, none, some, List, [],
  ◌∷◌, length,
}
use runspool.Prelude.Exec.{ok, pure}
use runspool.Store.Columns.{Cell}
use runspool.Store.Quiet.{IsQuiet, Calm-pure}
use runspool.Store.Repository.{column, Metadata}
use runspool.Store.Repository.Spawning.{Child}
use runspool.Store.Rows.{pos}
use runspool.Store.World.{World, advance}
use runspool.Store.Table.{find}
use runspool.Tests.Data.{busy_task, db_of, world_of, machine}
use runspool.Tests.Steps.{files}

abbrev config : ChildConfig
config = record { workflow = λ name. some machine.workflow; max_retries = pos 3 }

abbrev draft : Step
draft = record {
  name = "draft:v2";
  side_effect = false;
  no_retry = false;
  external = false;
  max_attempts = ok 3;
  requires = absent;
  provides = absent;
  run = λ task attempt. beat 5 (some "half") λ answer. finish (record {
    message = "drafted";
    updates = column (Cell.name (some "draft")) ∷ [];
    degraded = false;
    artifacts = [];
    spawn = listed [];
  });
  validate = λ task attempt submission. fault (exception (value_error "no"));
  request = λ task attempt. fault (exception (value_error "no"));
}

abbrev runner : TaskRunner
runner = record {
  config = config;
  retry_delay = 60;
  step_of = λ name. some draft;
  gate = none;
  notifier = λ at message. pure tt;
  on_approval_asked = none;
  artifacts = true;
  items = true;
  spawns = true;
  files = files;
  elapsed = λ run w. 7;
}

abbrev held_world : World
held_world = world_of (db_of busy_task [])

held_world-IsQuiet : IsQuiet held_world
held_world-IsQuiet = record { alone = λ n db. refl; sound = λ n. refl }

execute-Ended_example : Ended 1 (execute runner 1 (some "t1") held_world)
unfolding find decide
execute-Ended_example =
    execute-Ended runner (λ at message. Calm-pure tt) (λ f e. absurd (cc)) machine.workflow
      busy_task (some "t1") refl draft refl refl (λ n answer. refl) (λ n. tt) held_world
      held_world-IsQuiet refl refl (inr refl) refl

execute_stale_example :
    (at : ℕ) × (message : String) × (execute runner 1 (some "t2") held_world
      ≡ runner.notifier at message (advance held_world))
    × ((advance held_world).db ≡ held_world.db)
unfolding find
execute_stale_example =
    execute_stale runner busy_task "t2" held_world held_world-IsQuiet refl
      (inr (λ h. ne_beq "t1" "t2" refl (some_inj h)))

abbrev publish : Step
publish = record draft { side_effect = true }

execute_blind_example :
    execute
      (with_step runner (
        with_code publish
          (λ t n. fault (exception (value_error "no")))
          publish.validate
          publish.request))
      1
      (some "t1")
      held_world
    ≡ execute (with_step runner publish) 1 (some "t1") held_world
unfolding find granted
execute_blind_example =
    execute_blind runner publish busy_task (λ t n. fault (exception (value_error "no")))
      publish.validate publish.request (some "t1") refl refl (λ n. refl) held_world
      held_world-IsQuiet refl

abbrev child : ChildTask
child = record {
  input = TextValue.text "part.txt";
  workflow = TextValue.text "novel";
  name = none;
  metadata = none;
  key = some (TextValue.text "part-1");
}

abbrev planned_child : List Child
planned_child =
    record {
      input = "part.txt";
      name = none;
      workflow = "novel";
      first_step = "outline";
      max_retries = pos 3;
      key = some "part-1";
      metadata = Metadata.absent;
      metadata_json = none;
    }
    ∷ []

child_planned : plan_children config (listed (some child ∷ [])) ≡ ok planned_child
unfolding plan_children first_step
child_planned = refl

plan_children-AllPlanned_example :
    (entries : List (Option ChildTask)) × (listed (some child ∷ []) ≡ listed entries)
    × (length planned_child ≡ length entries)
    × AllPlanned config [] planned_child
plan_children-AllPlanned_example =
    plan_children-AllPlanned config (listed (some child ∷ [])) planned_child child_planned
