-- ===== src/Store/Repository/Spawning/Errors.antt =====
-- The hooks of a spawning step raise no `TransitionCommitted`.
use runspool.Prelude.{ℕ, String, Option, none, some, List, [], ◌∷◌, arith}
use runspool.Store.Columns.{Cell}
use runspool.Store.Interleaving.{IsPlainResult}
use runspool.Store.Plain.{
  IsPlainHook, IsPlainTx, plain-bind, plain-pure, plain-continue, plain-insert_event,
}
use runspool.Store.Repository.{Metadata, dump}
use runspool.Store.Repository.Spawning.{
  SpawnPlan, Child, result_writer, spawner, spawn_all, spawn_one, create_child, Spawned,
  write_updates, close_run, child_metadata,
}
use runspool.Store.Table.{update_row}

plain-write_updates : (i : ℕ) (cs : List Cell) (now : ℕ) → IsPlainTx (write_updates i cs now)
unfolding update_row
plain-write_updates i [] now = plain-pure tt
plain-write_updates i (c ∷ cs) now = record { of = λ db. ground arith }

plain-close_run : (plan : SpawnPlan) (run : Option ℕ) (now : ℕ) → IsPlainTx (close_run plan run now)
plain-close_run plan none now = plain-pure tt
plain-close_run plan (some run) now = record { of = λ db. tt }

pub result_writer-IsPlainHook : (i : ℕ) (plan : SpawnPlan) → IsPlainHook (result_writer i plan)
unfolding result_writer
result_writer-IsPlainHook i plan = record {
  at = λ now.
      plain-bind _ _ (plain-write_updates i plan.updates now)
        (λ _. plain-close_run plan plan.step_run_id now);
}

plain_dump : (m : Metadata) → IsPlainResult (dump m)
unfolding dump
plain_dump m = ground arith

plain_metadata : (c : Child) (json : Option String) → IsPlainResult (child_metadata c json)
plain_metadata c (some json) = tt
plain_metadata c none = plain_dump c.metadata

plain-create_child :
    (i : ℕ) (plan : SpawnPlan) (c : Child) (now : ℕ) → IsPlainTx (create_child i plan c now)
unfolding create_child dump
plain-create_child i plan c now = record { of = λ db. ground arith }

plain-spawn_one :
    (i : ℕ) (plan : SpawnPlan) (c : Child) (s : Spawned) (found : Option ℕ) (now : ℕ)
    → IsPlainTx (spawn_one i plan c s found now)
plain-spawn_one i plan c s (some e) now = record { of = λ db. tt }
plain-spawn_one i plan c s none now = record {
  of = λ db.
      plain-continue _ (λ id. record { of = λ d. tt }) _ ((plain-create_child i plan c now).of db);
}

plain-spawn_all :
    (i : ℕ) (plan : SpawnPlan) (cs : List Child) (s : Spawned) (now : ℕ)
    → IsPlainTx (spawn_all i plan cs s now)
unfolding spawn_all
plain-spawn_all i plan [] s now = plain-pure s
plain-spawn_all i plan (c ∷ cs) s now = record {
  of = λ db.
      plain-continue _ (λ found. plain-spawn_all i plan cs found now) _
        ((plain-spawn_one i plan c s _ now).of db);
}

pub spawner-IsPlainHook : (i : ℕ) (plan : SpawnPlan) → IsPlainHook (spawner i plan)
unfolding spawner
spawner-IsPlainHook i plan = record {
  at = λ now. record {
    of = λ db.
        plain-continue _ (λ found. plain-insert_event i _ now) _
          ((plain-spawn_all i plan plan.children _ now).of db);
  };
}
