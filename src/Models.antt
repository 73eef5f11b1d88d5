-- ===== src/Models.antt =====
-- models.py: the states of a task, the kinds of events, and workflows; with the errors that the
-- modelled operations raise.
pub mod Workflow
use runspool.Prelude.{
  ℕ, zero, suc, ◌+◌, String, Bool, true, false, ◌≡◌, ◌↔◌, not, Option, none, some, List, [], ◌∷◌,
  arith, leb, length, if◌then◌else◌, Eq, ◌==◌, contains, nat_eq, string_eq,
}
use runspool.Prelude.Exec.{Result, ok, err}
use runspool.Text.{join}

-- `class TaskStatus(StrEnum)`.
pub data TaskStatus : Type 0 where
  queued running pause_pending paused terminated failed manual_required : TaskStatus
  completed partially_completed awaiting_approval awaiting_external : TaskStatus

-- The text of a status, which is what the database stores and error messages show.
pub status_text : TaskStatus → String
status_text queued = "queued"
status_text running = "running"
status_text pause_pending = "pause_pending"
status_text paused = "paused"
status_text terminated = "terminated"
status_text failed = "failed"
status_text manual_required = "manual_required"
status_text completed = "completed"
status_text partially_completed = "partially_completed"
status_text awaiting_approval = "awaiting_approval"
status_text awaiting_external = "awaiting_external"

abbrev status_rank : TaskStatus → ℕ
status_rank queued = 0
status_rank running = 1
status_rank pause_pending = 2
status_rank paused = 3
status_rank terminated = 4
status_rank failed = 5
status_rank manual_required = 6
status_rank completed = 7
status_rank partially_completed = 8
status_rank awaiting_approval = 9
status_rank awaiting_external = 10

abbrev status_beq : TaskStatus → TaskStatus → Bool
status_beq a b = status_rank a == status_rank b

pub status_beq_iff : (a b : TaskStatus) → (status_beq a b ≡ true) ↔ (a ≡ b)
status_beq_iff a b = ground arith

instance abbrev pub status_eq : Eq TaskStatus
status_eq = record { test = status_beq; test_iff = status_beq_iff }

-- `status in TERMINAL_STATUSES`.
abbrev pub is_terminal : TaskStatus → Bool
is_terminal completed = true
is_terminal partially_completed = true
is_terminal terminated = true
is_terminal _ = false

-- `class EventType(StrEnum)`. A constructor that a status has too is written behind the type.
pub data EventType : Type 0 where
  created claimed step_completed step_failed pause_requested paused resumed : EventType
  terminate_requested terminated retry manual_required completed field_set : EventType
  reclaimed deferred woken approval_asked approval_decided item_opened : EventType
  item_claimed item_released item_submitted item_rejected children_spawned : EventType

-- What the modelled operations raise.
pub data Error : Type 0 where
  key_error : ℕ → Error
  value_error runtime_error item_conflict integrity_error operational_error : String → Error
  -- task, status, action, allowed
  illegal_transition : ℕ → TaskStatus → String → String → Error
  transition_committed : ℕ → Error
  -- any other exception: its class and its text
  other_error : String → String → Error

-- `class NextStep`.
pub record NextStep : Type 0 where
  pub step : Option String
  pub done : Bool

-- `class WorkflowDef`: an ordered tuple of step names.
pub record WorkflowDef : Type 0 where
  pub name : String
  pub steps : List String

-- `repr` of a text with no quote, backslash or control character in it.
abbrev pub quoted : String → List String
quoted s = "'" ∷ s ∷ "'" ∷ []

-- `WorkflowDef.__init__`.
pub workflow_def : String → List String → Result Error WorkflowDef
workflow_def name [] =
    err (value_error (join ("workflow '" ∷ name ∷ "' must define at least one step" ∷ [])))
workflow_def name (s ∷ ss) = ok (record { name = name; steps = s ∷ ss })

abbrev pub get_elem? {ℓ} : {A : Type ℓ} → List A → ℕ → Option A
get_elem? [] i = none
get_elem? (x ∷ xs) zero = some x
get_elem? (x ∷ xs) (suc i) = get_elem? xs i

-- `self.steps[0]`, of a workflow that `__init__` let through.
unfoldable pub first_step : WorkflowDef → Option String
first_step w = get_elem? w.steps 0

-- `xs.index(x)`: the first place of an element that is there.
unfoldable pub index : List String → String → ℕ
index [] x = 0
index (y ∷ ys) x = if y == x then 0 else suc (index ys x)

-- `WorkflowDef.next_step`.
unfoldable pub next_step : WorkflowDef → String → Result Error NextStep
unfolding index
next_step w current =
    let idx = index w.steps current in
    if not (contains w.steps current)
    then err (
        value_error (join ("step '" ∷ current ∷ "' is not part of workflow '" ∷ w.name ∷ "'" ∷ [])))
    else if leb (length w.steps) (idx + 1)
    then ok (record { step = none; done = true })
    else ok (record { step = get_elem? w.steps (idx + 1); done = false })
