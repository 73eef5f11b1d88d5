-- ===== src/Machine/Actions/Moves.antt =====
-- The task state machine that users drive: which action leads from which status to which.
use runspool.Prelude.{
  ℕ, String, Bool, true, false, ◌≡◌, Option, none, some, [], ◌∷◌, ◌⊎◌, arith, ◌==◌, string_eq, ◌||◌,
  not, if◌then◌else◌,
}
use runspool.Prelude.Exec.{Result, ok, err}
use runspool.Models.{
  Error, illegal_transition, TaskStatus, queued, running, pause_pending, paused, terminated, failed,
  manual_required, awaiting_approval, awaiting_external, is_terminal, status_eq, status_beq_iff,
}
use runspool.Gate.{grant_value}
use runspool.Machine.Actions.{
  Decided, grant_of, granted_attempt, decide_pause, decide_terminate, decide_resume, decide_retry,
  decide_approve, decide_reject, decide_wake, decide_set_step, decide_submit, decide_retries,
}
use runspool.Machine.Outcome.{StateMachine, is_executing}
use runspool.Store.Columns.{Cell, write_all}
use runspool.Store.Rows.{ℤ, Task, WorkItem}
use runspool.Text.{partition, rpartition, int}

-- What a user can ask for.
pub data Action : Type 0 where
  pause terminate resume retry wake : Action
  approve : String → Action
  reject : String → String → Action
  set_step : String → Bool → Action
  set_retries : ℤ → Action
  submit : WorkItem → String → String → Option String → Action

abbrev pub decide : StateMachine → Action → Task → Result Error Decided
decide m pause = decide_pause
decide m terminate = decide_terminate
decide m resume = decide_resume
decide m retry = decide_retry
decide m wake = decide_wake
decide m (approve by) = decide_approve by
decide m (reject reason by) = decide_reject reason by
decide m (set_step step force) = decide_set_step step force
decide m (set_retries n) = decide_retries n
decide m (submit item token value by) = decide_submit m item token value by

abbrev Stays : TaskStatus → TaskStatus → Type 0
Stays s s' = (s' ≡ s) × (is_executing s ≡ false) × (is_terminal s ≡ false)

-- The moves of each action.
abbrev pub IsMove : Action → TaskStatus → TaskStatus → Type 0
IsMove pause s s' = ((s ≡ queued) × (s' ≡ paused)) ⊎ ((s ≡ running) × (s' ≡ pause_pending))
IsMove terminate s s' =
    ((is_executing s ≡ true) × (s' ≡ s))
    ⊎ ((is_executing s ≡ false) × (is_terminal s ≡ false) × (s' ≡ terminated))
IsMove resume s s' = (s ≡ paused) × (s' ≡ queued)
IsMove retry s s' = ((s ≡ failed) ⊎ (s ≡ manual_required)) × (s' ≡ queued)
IsMove wake s s' = (s ≡ queued) × (s' ≡ queued)
IsMove (approve by) s s' = (s ≡ awaiting_approval) × (s' ≡ queued)
IsMove (reject reason by) s s' = (s ≡ awaiting_approval) × (s' ≡ manual_required)
IsMove (set_step step true) s s' = Stays s s'
IsMove (set_step step false) s s' = ((s ≡ failed) ⊎ (s ≡ manual_required)) × (s' ≡ s)
IsMove (set_retries n) s s' = s' ≡ s
IsMove (submit item token value by) s s' = (s ≡ awaiting_external) × (s' ≡ queued)

-- What an approval writes.
abbrev pub Approves : Task → Decided → Type 0
Approves t d =
    (t.status ≡ awaiting_approval)
    × (grant : String) × (d.fields ≡ Cell.status queued ∷ Cell.approval_grant (some grant) ∷ [])

granted_attempt-Approves :
    (t : Task) (d : Decided) (by step : String) (n : Option ℕ)
    → t.status ≡ awaiting_approval
    → granted_attempt t by step n ≡ ok d
    → Approves t d
granted_attempt-Approves t d by step none w h = absurd (cc)
granted_attempt-Approves t d by step (some n) w h = (w, grant_value step n, ground arith)

approved :
    (t : Task) (d : Decided) (by kind step attempt : String)
    → (if not (t.status == awaiting_approval) || not (kind == "asked")
        then err (illegal_transition t.id t.status "approve" "awaiting_approval")
        else if not (step == t.step)
        then err
            (illegal_transition t.id t.status "approve" "awaiting approval of its current step")
        else granted_attempt t by step (int attempt))
      ≡ ok d
    → Approves t d
approved t d by kind step attempt h =
    granted_attempt-Approves t d by step (int attempt)
      (ground (arith, status_beq_iff t.status awaiting_approval)) (ground arith)

pub decide_approve-Approves :
    (t : Task) (d : Decided) (by : String) → decide_approve by t ≡ ok d → Approves t d
unfolding decide_approve
decide_approve-Approves t d by h =
    let parts : String × String = partition (grant_of t.approval_grant) in
    approved t d by parts.0 (rpartition parts.1).0 (rpartition parts.1).1 h

module _ (m : StateMachine) (t : Task) (d : Decided) where
  pause-IsMove : decide_pause t ≡ ok d → IsMove pause t.status (write_all d.fields t).status
  unfolding decide_pause
  pause-IsMove h = ground (
    arith,
    status_beq_iff queued t.status,
    status_beq_iff running t.status,
    status_beq_iff t.status running,
  )

  terminate-IsMove :
      decide_terminate t ≡ ok d → IsMove terminate t.status (write_all d.fields t).status
  unfolding decide_terminate
  terminate-IsMove h = ground arith

  resume-IsMove : decide_resume t ≡ ok d → IsMove resume t.status (write_all d.fields t).status
  unfolding decide_resume
  resume-IsMove h = ground (arith, status_beq_iff t.status paused)

  retry-IsMove : decide_retry t ≡ ok d → IsMove retry t.status (write_all d.fields t).status
  unfolding decide_retry
  retry-IsMove h =
      ground (arith, status_beq_iff failed t.status, status_beq_iff manual_required t.status)

  wake-IsMove : decide_wake t ≡ ok d → IsMove wake t.status (write_all d.fields t).status
  unfolding decide_wake
  wake-IsMove h = ground (arith, status_beq_iff t.status queued)

  reject-IsMove :
      (reason by : String)
      → decide_reject reason by t ≡ ok d
      → IsMove (reject reason by) t.status (write_all d.fields t).status
  unfolding decide_reject
  reject-IsMove reason by h = ground (arith, status_beq_iff t.status awaiting_approval)

  set_step-IsMove :
      (step : String) (force : Bool)
      → decide_set_step step force t ≡ ok d
      → IsMove (set_step step force) t.status (write_all d.fields t).status
  unfolding decide_set_step
  set_step-IsMove step true h = ground arith
  set_step-IsMove step false h =
      ground (arith, status_beq_iff failed t.status, status_beq_iff manual_required t.status)

  submit-IsMove :
      (item : WorkItem) (token value : String) (by : Option String)
      → decide_submit m item token value by t ≡ ok d
      → IsMove (submit item token value by) t.status (write_all d.fields t).status
  unfolding decide_submit
  submit-IsMove item token value by h = ground (arith, status_beq_iff t.status awaiting_external)

  retries-IsMove :
      (n : ℤ)
      → decide_retries n t ≡ ok d
      → IsMove (set_retries n) t.status (write_all d.fields t).status
  unfolding decide_retries
  retries-IsMove n h = ground arith

  approve-IsMove :
      (by : String)
      → decide_approve by t ≡ ok d
      → IsMove (approve by) t.status (write_all d.fields t).status
  approve-IsMove by h =
      let (waits, grant, e) = decide_approve-Approves t d by h in (waits, ground arith)

-- An action that is not refused makes a move of its own, as `IsMove` lists them, from the status of
-- the row that it was decided for.
pub decide-IsMove :
    (m : StateMachine) (a : Action) (t : Task) (d : Decided)
    → decide m a t ≡ ok d
    → IsMove a t.status (write_all d.fields t).status
decide-IsMove m pause t d h = pause-IsMove m t d h
decide-IsMove m terminate t d h = terminate-IsMove m t d h
decide-IsMove m resume t d h = resume-IsMove m t d h
decide-IsMove m retry t d h = retry-IsMove m t d h
decide-IsMove m wake t d h = wake-IsMove m t d h
decide-IsMove m (approve by) t d h = approve-IsMove m t d by h
decide-IsMove m (reject reason by) t d h = reject-IsMove m t d reason by h
decide-IsMove m (set_step step force) t d h = set_step-IsMove m t d step force h
decide-IsMove m (set_retries n) t d h = retries-IsMove m t d n h
decide-IsMove m (submit item token value by) t d h = submit-IsMove m t d item token value by h

terminal_IsMove : (a : Action) (s s' : TaskStatus) → is_terminal s ≡ true → IsMove a s s' → s' ≡ s
terminal_IsMove pause s s' h k = ground arith
terminal_IsMove terminate s s' h k = ground arith
terminal_IsMove resume s s' h k = ground arith
terminal_IsMove retry s s' h k = ground arith
terminal_IsMove wake s s' h k = ground arith
terminal_IsMove (approve by) s s' h k = ground arith
terminal_IsMove (reject reason by) s s' h k = ground arith
terminal_IsMove (set_step step true) s s' h k = ground arith
terminal_IsMove (set_step step false) s s' h k = ground arith
terminal_IsMove (set_retries n) s s' h k = ground arith
terminal_IsMove (submit item token value by) s s' h k = ground arith

-- No user action takes a finished task (completed, partially completed or terminated) into another
-- status.
pub decide-terminal :
    (m : StateMachine) (a : Action) (t : Task) (d : Decided)
    → is_terminal t.status ≡ true
    → decide m a t ≡ ok d
    → (write_all d.fields t).status ≡ t.status
decide-terminal m a t d h k =
    terminal_IsMove a t.status (write_all d.fields t).status h (decide-IsMove m a t d k)
