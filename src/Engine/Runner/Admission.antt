-- ===== src/Engine/Runner/Admission.antt =====
-- engine/runner.py: `_admit`, which asks the gate whether a step may run now.
use runspool.Prelude.{
  ℕ, String, Bool, true, false, ◌&&◌, not, Option, none, some, [], ◌∷◌, if◌then◌else◌,
}
use runspool.Prelude.Exec.{Result, ok, err, pure, raise, ◌>>=◌, ◌>>◌}
use runspool.Engine.Runner.Context.{TaskRunner, notify}
use runspool.Engine.Steps.{Step, Decision, allow, deny, defer, ask, other, described}
use runspool.Gate.{granted}
use runspool.Machine.Finish.{finish_step}
use runspool.Machine.Outcome.{StateMachine, Outcome}
use runspool.Models.{Error, other_error, TaskStatus, awaiting_approval, manual_required}
use runspool.Store.Rows.{Task}
use runspool.Store.World.{M}
use runspool.Text.{join}

abbrev answered : Result Error Decision → Decision
answered (ok d) = d
answered (err e) = deny (join ("pre-execute gate failed: " ∷ described e ∷ []))

-- What the gate says; without one, steps with side effects are refused.
unfoldable pub decide : TaskRunner → Task → Step → ℕ → Decision
unfolding granted
decide r task step attempt = elim r.gate [
  | some gate ↦ answered (gate task step attempt)
  | none ↦
      if step.side_effect && not (granted task step.name attempt)
      then deny "the step has side effects and no approval gate is configured"
      else allow
]

-- The outcome of a step that may not run.
abbrev pub outcome_of : ℕ → Decision → Outcome
outcome_of attempt (defer reason delay) = Outcome.deferred reason delay
outcome_of attempt (ask reason) = Outcome.needs_approval reason attempt
outcome_of attempt (deny reason) = Outcome.denied reason
outcome_of attempt (other text) = Outcome.denied text
outcome_of attempt allow = Outcome.denied ""

-- `decision.reason`, which a value that is no decision does not have.
abbrev pub with_reason : Decision → (String → M (Unit {0})) → M (Unit {0})
with_reason (defer reason _) f = f reason
with_reason (ask reason) f = f reason
with_reason (deny reason) f = f reason
with_reason (other text) f = raise (other_error "AttributeError" "reason")
with_reason allow f = raise (other_error "AttributeError" "reason")

abbrev pub tell : Option (Task → M (Unit {0})) → Task → M (Unit {0})
tell none after = pure tt
tell (some f) after = f after

abbrev pub reported : TaskRunner → Task → Decision → TaskStatus → Task → M (Unit {0})
reported r task decision awaiting_approval after = do
  with_reason decision
      (λ why. notify r after (join ("step " ∷ task.step ∷ " awaits approval: " ∷ why ∷ [])))
  tell r.on_approval_asked after
reported r task decision manual_required after =
    with_reason decision
      (λ why. notify r after (join ("step " ∷ task.step ∷ " refused: " ∷ why ∷ [])))
reported r task decision _ after = pure tt

abbrev pub reported_if : TaskRunner → Task → Decision → Option Task → M (Unit {0})
reported_if r task decision none = pure tt
reported_if r task decision (some after) = reported r task decision after.status after

-- The task of a step that may not run is resolved.
unfoldable pub turn_away : TaskRunner → StateMachine → Task → ℕ → Option String → Decision → M Bool
unfolding finish_step notify
turn_away r sm task attempt token decision = do
  after ← finish_step sm task.id (outcome_of attempt decision) token
  reported_if r task decision after
  pure false

abbrev pub acted : TaskRunner → StateMachine → Task → ℕ → Option String → Decision → M Bool
acted r sm task attempt token allow = pure true
acted r sm task attempt token decision = turn_away r sm task attempt token decision

-- `_admit`.
unfoldable pub admit : TaskRunner → StateMachine → Task → Step → ℕ → Option String → M Bool
unfolding decide turn_away
admit r sm task step attempt token = acted r sm task attempt token (decide r task step attempt)
