-- ===== src/Store/StepRuns.antt =====
-- step_run_log.py: one row for each execution of a step.
pub mod Latest
use runspool.Prelude.{
  ℕ, suc, String, Bool, true, false, ◌&&◌, ◌||◌, Option, none, some, List, [], ◌∷◌, ◌++◌, length,
  if◌then◌else◌, ◌==◌, nat_eq, string_eq,
}
use runspool.Prelude.Exec.{ok, pure, ◌>>=◌}
use runspool.Store.Rows.{RunStatus, degraded, interrupted, StepRun}
use runspool.Store.Table.{select, update_all}
use runspool.Store.World.{M, connect}

abbrev pub is_running : RunStatus → Bool
is_running RunStatus.running = true
is_running _ = false

abbrev pub is_degraded : RunStatus → Bool
is_degraded degraded = true
is_degraded _ = false

-- `StepRunLog.start`.
unfoldable pub start : ℕ → String → M ℕ
start task_id step = connect λ now db.
    let id = suc db.last_run in
    (
      ok id,
      record db {
        step_runs =
            db.step_runs
            ++ record {
              id = id;
              task_id = task_id;
              step = step;
              status = RunStatus.running;
              started_at = now;
              finished_at = none;
              duration_ms = none;
              error = none;
              note = none;
            }
              ∷ [];
        last_run = id;
      },
    )

-- `StepRunLog.finish`.
unfoldable pub finish : ℕ → RunStatus → ℕ → Option String → Option String → M Unit
finish run_id status duration_ms error note = connect λ now db. (
  ok tt,
  record db {
    step_runs =
        update_all (λ r. r.id == run_id)
          (λ r. record r {
            status = status;
            finished_at = some now;
            duration_ms = some duration_ms;
            error = error;
            note = note;
          })
          db.step_runs;
  },
)

-- `StepRunLog.count_runs`.
unfoldable pub count_runs : ℕ → String → M ℕ
count_runs task_id step =
    connect λ now db.
      (ok (length (select (λ r. r.task_id == task_id && r.step == step) db.step_runs)), db)

-- `latest[run["step"]] = run["status"]`, over the runs in id order.
abbrev pub put : String → RunStatus → List (String × RunStatus) → List (String × RunStatus)
put step status [] = (step, status) ∷ []
put step status ((s, old) ∷ rest) =
    if s == step then (s, status) ∷ rest else (s, old) ∷ put step status rest

unfoldable pub latest : List StepRun → List (String × RunStatus) → List (String × RunStatus)
latest [] found = found
latest (r ∷ rs) found = latest rs (put r.step r.status found)

unfoldable pub any_degraded : List (String × RunStatus) → Bool
any_degraded [] = false
any_degraded ((_, status) ∷ rest) = is_degraded status || any_degraded rest

-- `StepRunLog.list_for_task`.
unfoldable pub list_for_task : ℕ → M (List StepRun)
list_for_task task_id = connect λ now db. (ok (select (λ r. r.task_id == task_id) db.step_runs), db)

-- `StepRunLog.has_degraded`.
unfoldable pub has_degraded : ℕ → M Bool
unfolding list_for_task latest any_degraded
has_degraded task_id = do runs ← list_for_task task_id; pure (any_degraded (latest runs []))

-- `StepRunLog.close_running_for_task`, with the status `interrupted`.
unfoldable pub close_running_for_task : ℕ → M ℕ
close_running_for_task task_id = connect λ now db.
    let mine : StepRun → Bool = λ r. r.task_id == task_id && is_running r.status in
    (
      ok (length (select mine db.step_runs)),
      record db {
        step_runs =
            update_all mine (λ r. record r { status = interrupted; finished_at = some now })
              db.step_runs;
      },
    )
