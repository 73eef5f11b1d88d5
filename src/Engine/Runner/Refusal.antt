-- ===== src/Engine/Runner/Refusal.antt =====
-- engine/runner.py: what `execute` does not run: a job whose claim is stale, and a step with side
-- effects that nobody could approve.
use runspool.Prelude.{
  ℕ, suc, String, Bool, true, false, ◌≡◌, ◌≢◌, refl, ◌⊎◌, inl, inr, arith, option_beq_iff, Option,
  none, some, [], ◌∷◌, if◌then◌else◌, ◌||◌, string_eq, option_eq,
}
use runspool.Prelude.Exec.{Result, ok, err, pure, continue, ◌>>=◌, ◌>>◌}
use runspool.Engine.Runner.{run_current, run_found, execute, is_stale_request, found_or}
use runspool.Engine.Runner.Admission.{decide, admit, turn_away, outcome_of}
use runspool.Engine.Runner.Context.{TaskRunner, notify, machine_of}
use runspool.Engine.Steps.{Step, StepResult, WorkRequest, Submission, Script, deny}
use runspool.Gate.{granted}
use runspool.Machine.Finish.{finish_step}
use runspool.Machine.Outcome.{is_executing}
use runspool.Models.{Error, WorkflowDef, TaskStatus, running, pause_pending, status_text, quoted}
use runspool.Store.Quiet.{IsQuiet, quiet_get, quiet_same}
use runspool.Store.Repository.{task_key}
use runspool.Store.Rows.{Task}
use runspool.Store.StepRuns
use runspool.Store.Table.{find}
use runspool.Store.World.{World, M, advance}
use runspool.Text.{join}

not_executing : (s : TaskStatus) → s ≢ running → s ≢ pause_pending → is_executing s ≡ false
not_executing s h k = ground arith

stale-request :
    (task : Task) (token : String)
    → ((task.status ≢ running) × (task.status ≢ pause_pending)) ⊎ (task.claim_token ≢ some token)
    → is_stale_request (some token) task ≡ true
stale-request task token (inl (idle, unpaused)) = rw (not_executing task.status idle unpaused) refl
stale-request task token (inr other) = ground (arith, option_beq_iff task.claim_token (some token))

told_stale :
    (r : TaskRunner) (task : Task) (token : String) (w : World)
    → IsQuiet w
    → find task_key task.id w.db.tasks ≡ some task
    → is_stale_request (some token) task ≡ true
    → execute r task.id (some token) w
      ≡ notify r task
          (join (
            "skipped a stale run request (now "
            ∷ status_text task.status
            ∷ " on "
            ∷ task.step
            ∷ ")"
            ∷ []))
          (advance w)
unfolding execute run_found
told_stale r task token w q found stale = rw (quiet_get task.id w q, found, stale) refl

-- When nobody else writes and nothing fails, a job made for a claim that is not the task's any more
-- (no worker runs the task, or it has another claim, or none) does nothing but tell of it: it is one
-- call of the notifier, with the database as it was.
pub execute_stale :
    (r : TaskRunner) (task : Task) (token : String) (w : World)
    → IsQuiet w
    → find task_key task.id w.db.tasks ≡ some task
    → ((task.status ≢ running) × (task.status ≢ pause_pending)) ⊎ (task.claim_token ≢ some token)
    → (at : ℕ) × (message : String) × (execute r task.id (some token) w
        ≡ r.notifier at message (advance w))
      × ((advance w).db ≡ w.db)
unfolding notify
execute_stale r task token w q found h =
    (_, _, told_stale r task token w q found (stale-request task token h), quiet_same w q)

module _ {A B : Type 0} where
  continue_same :
      (f g : A → M B) (x : Result Error A × World)
      → ((a : A) (v : World) → f a v ≡ g a v)
      → continue f x ≡ continue g x
  continue_same f g (ok a, v) h = h a v
  continue_same f g (err e, v) h = refl

module _ {A : Type 0} where
  if_same :
      (b : Bool) (m n n' : M A) (w : World)
      → n w ≡ n' w
      → (if b then m else n) w ≡ (if b then m else n') w
  if_same true m n n' w h = refl
  if_same false m n n' w h = h

-- The same step with other code, and a runner whose registry has a step.
abbrev pub with_code :
    Step
    → (Task → ℕ → Script StepResult)
    → (Task → ℕ → Submission → Script StepResult)
    → (Task → ℕ → Script WorkRequest)
    → Step
with_code s run validate request = record s { run = run; validate = validate; request = request }

abbrev pub with_step : TaskRunner → Step → TaskRunner
with_step r s = record r { step_of = λ name. some s }

turned_same :
    {B : Type 0} (k : Option Task → M (Unit {0})) (g g' : Bool → M B)
    (x : Result Error (Option Task) × World)
    → ((v : World) → g false v ≡ g' false v)
    → continue g (continue (λ a. k a >> pure false) x)
      ≡ continue g' (continue (λ a. k a >> pure false) x)
turned_same k g g' (err e, v) h = refl
turned_same {B} k g g' (ok a, v) h = answered_same (k a v)
  where
    answered_same :
        (y : Result Error (Unit {0}) × World)
        → continue g (continue (λ (_ : Unit {0}). pure {E = Error} {S = World} false) y)
          ≡ continue g' (continue (λ (_ : Unit {0}). pure {E = Error} {S = World} false) y)
    answered_same (ok u, v) = h v
    answered_same (err e, v) = refl

abbrev no_gate : String
no_gate = "the step has side effects and no approval gate is configured"

denied :
    (r : TaskRunner) (s : Step) (task : Task) (n : ℕ)
    → r.gate ≡ none
    → s.side_effect ≡ true
    → granted task s.name n ≡ false
    → decide r task s n ≡ deny no_gate
unfolding decide
denied r s task n ungated effects ungranted = rw (ungated, effects, ungranted) refl

module _ (r : TaskRunner) (s : Step) (task : Task) (run : Task → ℕ → Script StepResult)
    (validate : Task → ℕ → Submission → Script StepResult) (request : Task → ℕ → Script WorkRequest)
    (token : Option String) (ungated : r.gate ≡ none) (effects : s.side_effect ≡ true)
    (ungranted : (n : ℕ) → granted task s.name n ≡ false) where
  current_same :
      (workflow : WorkflowDef) (w : World)
      → run_current (with_step r (with_code s run validate request)) task token workflow w
        ≡ run_current (with_step r s) task token workflow w
  unfolding run_current admit turn_away notify
  current_same workflow w = if_same (task.terminate_requested || task.pause_requested) _ _ _ w (
      continue_same _ _ (StepRuns.count_runs task.id task.step w) λ n v.
        rw
          (
            denied (with_step r (with_code s run validate request))
                (with_code s run validate request) task (suc n) ungated effects (ungranted (suc n)),
            denied (with_step r s) s task (suc n) ungated effects (ungranted (suc n)),
          )
          (turned_same _ _ _
            (finish_step (machine_of r workflow) task.id (outcome_of (suc n) (deny no_gate)) token
              v)
            (λ u. refl)))

  -- When nobody else writes and nothing fails, the code of a step with side effects that the task
  -- is on has no effect on what `execute` does, if no gate is configured and no attempt of the step
  -- has been granted on the task: with any other code in its place all that happens is the same.
  pub execute_blind :
      (w : World)
      → IsQuiet w
      → find task_key task.id w.db.tasks ≡ some task
      → execute (with_step r (with_code s run validate request)) task.id token w
        ≡ execute (with_step r s) task.id token w
  unfolding execute run_found notify
  execute_blind w q found =
      rw (quiet_get task.id w q, found)
        (if_same (is_stale_request token task) _ _ _ (advance w)
          (configured (r.config.workflow task.workflow)))
    where
      configured :
          (o : Option WorkflowDef)
          → (found_or ("undefined workflow: " ∷ quoted task.workflow) o
                >>= run_current (with_step r (with_code s run validate request)) task token)
              (advance w)
            ≡ (found_or ("undefined workflow: " ∷ quoted task.workflow) o
                  >>= run_current (with_step r s) task token)
                (advance w)
      configured none = refl
      configured (some workflow) = current_same workflow (advance w)
