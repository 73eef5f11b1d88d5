-- ===== src/Engine/Runner/Context.antt =====
-- engine/runner.py: what a `TaskRunner` is made of, its notifications, and running the code of a
-- step with the heartbeat and the stop check that its context offers.
use runspool.Prelude.{
  ℕ, ◌-◌, String, Bool, true, false, Option, none, some, [], ◌∷◌, ltb, if◌then◌else◌, ◌==◌,
  string_eq, option_eq,
}
use runspool.Prelude.Exec.{Result, ok, err, Exec, pure, ◌>>=◌}
use runspool.Engine.Artifacts.Recorded.{Files}
use runspool.Engine.Children.{ChildConfig}
use runspool.Engine.Steps.{
  Step, Decision, Raised, exception, Script, finish, fault, beat, asks_stop,
}
use runspool.Machine.Outcome.{StateMachine}
use runspool.Models.{Error, WorkflowDef}
use runspool.Store.Repository.{get_task, heartbeat}
use runspool.Store.Rows.{Task}
use runspool.Store.World.{World, M, utcnow}
use runspool.Text.{join, decimal}

pub record TaskRunner : Type 0 where
  pub config : ChildConfig
  -- `config.scheduler.retry_delay_seconds`
  pub retry_delay : ℕ
  -- the registry's step of a name
  pub step_of : String → Option Step
  pub gate : Option (Task → Step → ℕ → Result Error Decision)
  -- at a time, a message
  pub notifier : ℕ → String → M (Unit {0})
  pub on_approval_asked : Option (Task → M (Unit {0}))
  -- whether the store records artifacts, has work items, and can spawn
  pub artifacts : Bool
  pub items : Bool
  pub spawns : Bool
  pub files : Files
  -- `_ms_since(t0)`, of the step run with an id
  pub elapsed : ℕ → World → ℕ

-- The `StateMachine` of a task's workflow.
abbrev pub machine_of : TaskRunner → WorkflowDef → StateMachine
machine_of r w = record { workflow = w; step_runs = true; items = r.items; spawns = r.spawns }

abbrev label : Option String → String → String
label none input = input
label (some name) input = if name == "" then input else name

-- `_notify`.
unfoldable pub notify : TaskRunner → Task → String → M (Unit {0})
notify r task reason w =
    r.notifier (w.clock w.tick)
      (join ("task #" ∷ decimal task.id ∷ " (" ∷ label task.name task.input ∷ ") " ∷ reason ∷ [])) w

-- Code that raises what the code of a step may raise.
abbrev pub Run : Type 0 → Type 0
Run A = Exec Raised World A

module _ {A : Type 0} where
  abbrev pub as_raised : Result Error A × World → Result Raised A × World
  as_raised (ok a, w) = (ok a, w)
  as_raised (err e, w) = (err (exception e), w)

  -- A call of the store inside such code.
  abbrev pub raising : M A → Run A
  raising m w = as_raised (m w)

  abbrev pub kept : {E : Type 0} → Result E A × World → Result Error (Result E A) × World
  kept (r, w) = (ok r, w)

  -- `try: ... except`, with what came of it.
  abbrev pub attempted : {E : Type 0} → Exec E World A → M (Result E A)
  attempted m w = kept (m w)

-- `now - last < _HEARTBEAT_MIN_INTERVAL`.
abbrev pub throttled : Option ℕ → ℕ → Bool
throttled none now = false
throttled (some last) now = ltb (now - last) 1000

abbrev pub as_progress : Option String → Option (Option String)
as_progress none = none
as_progress (some progress) = some (some progress)

-- `_heartbeat`, behind the throttle.
unfoldable pub beat_once : ℕ → Option String → Option String → M (Unit {0})
beat_once task_id token progress = do
  now ← utcnow
  _ ← heartbeat task_id now (as_progress progress) token
  pure tt

abbrev pub asked_to_stop : Option Task → Bool
asked_to_stop none = false
asked_to_stop (some task) = task.terminate_requested

-- `_stop_requested`.
unfoldable pub stop_requested : ℕ → M Bool
stop_requested task_id = do task ← get_task task_id; pure (asked_to_stop task)

module _ {A : Type 0} (task_id : ℕ) where
  -- `call(ctx)`; `last` is `hb_state["last"]`.
  unfoldable pub perform : Option String → Option ℕ → Script A → Run A
  unfolding beat_once stop_requested
  perform token last (finish a) w = (ok a, w)
  perform token last (fault e) w = (err e, w)
  perform token last (beat now progress k) w = elim (throttled last now) [
    | true ↦ perform token last (k (ok tt)) w
    | false ↦
        let (answer, w') = beat_once task_id token progress w in
        perform token (some now) (k answer) w'
  ]
  perform token last (asks_stop k) w =
      let (answer, w') = stop_requested task_id w in perform token last (k answer) w'

  -- `step.request(ctx)`, whose heartbeat does nothing.
  unfoldable pub perform_request : Script A → Run A
  unfolding stop_requested
  perform_request (finish a) w = (ok a, w)
  perform_request (fault e) w = (err e, w)
  perform_request (beat now progress k) w = perform_request (k (ok tt)) w
  perform_request (asks_stop k) w =
      let (answer, w') = stop_requested task_id w in perform_request (k answer) w'
