-- ===== src/Machine/Actions/Rows.antt =====
-- What every row keeps to, and that neither users nor the release of a lost worker break it.
use runspool.Prelude.{
  ℕ, ℕ, String, Bool, true, false, ◌≡◌, ◌≢◌, Option, none, ◌⊎◌, arith, string_eq,
}
use runspool.Prelude.Exec.{ok}
use runspool.Models.{
  queued, running, pause_pending, paused, failed, manual_required, awaiting_approval,
  awaiting_external, status_eq, status_beq_iff,
}
use runspool.Machine.Actions.{
  Decided, decide_pause, decide_terminate, decide_resume, decide_retry, decide_approve,
  decide_reject, decide_wake, decide_set_step, decide_submit, decide_retries,
}
use runspool.Machine.Actions.Moves.{
  Action, pause, terminate, resume, retry, wake, approve, reject, set_step, set_retries, submit,
  decide, decide_approve-Approves,
}
use runspool.Machine.Outcome.{StateMachine, is_executing}
use runspool.Store.Columns.{write_all}
use runspool.Store.Rows.{ℤ, Task, WorkItem}

-- A row with no worker holds no lock, and no request to terminate waits on it; one whose worker is
-- to pause says so.
pub record IsSound (t : Task) : Type 0 where
  pub unlocked :
      (is_executing t.status ≡ true)
      ⊎ ((t.locked_by ≡ none)
          × (t.locked_at ≡ none)
          × (t.heartbeat_at ≡ none)
          × (t.claim_token ≡ none)
          × (t.terminate_requested ≡ false))
  pub pausing : (t.status ≢ pause_pending) ⊎ (t.pause_requested ≡ true)

-- The time of the last change is no matter.
pub updated-IsSound : (t : Task) (now : ℕ) → IsSound t → IsSound (record t { updated_at = now })
updated-IsSound t now s = ground arith

module _ (m : StateMachine) (t q : Task) (same : q.status ≡ t.status) (s : IsSound q)
    (d : Decided) where
  pause-IsSound : decide_pause t ≡ ok d → IsSound (write_all d.fields q)
  unfolding decide_pause
  pause-IsSound h = ground (
    arith,
    status_beq_iff queued t.status,
    status_beq_iff running t.status,
    status_beq_iff t.status running,
  )

  terminate-IsSound : decide_terminate t ≡ ok d → IsSound (write_all d.fields q)
  unfolding decide_terminate
  terminate-IsSound h = ground arith

  resume-IsSound : decide_resume t ≡ ok d → IsSound (write_all d.fields q)
  unfolding decide_resume
  resume-IsSound h = ground (arith, status_beq_iff t.status paused)

  retry-IsSound : decide_retry t ≡ ok d → IsSound (write_all d.fields q)
  unfolding decide_retry
  retry-IsSound h =
      ground (arith, status_beq_iff failed t.status, status_beq_iff manual_required t.status)

  wake-IsSound : decide_wake t ≡ ok d → IsSound (write_all d.fields q)
  unfolding decide_wake
  wake-IsSound h = ground (arith, status_beq_iff t.status queued)

  reject-IsSound :
      (reason by : String) → decide_reject reason by t ≡ ok d → IsSound (write_all d.fields q)
  unfolding decide_reject
  reject-IsSound reason by h = ground (arith, status_beq_iff t.status awaiting_approval)

  set_step-IsSound :
      (step : String) (force : Bool)
      → decide_set_step step force t ≡ ok d
      → IsSound (write_all d.fields q)
  unfolding decide_set_step
  set_step-IsSound step force h = ground arith

  submit-IsSound :
      (item : WorkItem) (token value : String) (by : Option String)
      → decide_submit m item token value by t ≡ ok d
      → IsSound (write_all d.fields q)
  unfolding decide_submit
  submit-IsSound item token value by h = ground (arith, status_beq_iff t.status awaiting_external)

  retries-IsSound : (n : ℤ) → decide_retries n t ≡ ok d → IsSound (write_all d.fields q)
  unfolding decide_retries
  retries-IsSound n h = ground arith

  approve-IsSound : (by : String) → decide_approve by t ≡ ok d → IsSound (write_all d.fields q)
  approve-IsSound by h = let (waits, grant, e) = decide_approve-Approves t d by h in ground arith

-- A sound row stays sound when an action that is not refused is written to it, also where the action
-- was decided for an earlier state of the row that had the same status.
pub decide-IsSound :
    (m : StateMachine) (a : Action) (t q : Task) (d : Decided)
    → q.status ≡ t.status
    → IsSound q
    → decide m a t ≡ ok d
    → IsSound (write_all d.fields q)
decide-IsSound m pause t q d same s h = pause-IsSound m t q same s d h
decide-IsSound m terminate t q d same s h = terminate-IsSound m t q same s d h
decide-IsSound m resume t q d same s h = resume-IsSound m t q same s d h
decide-IsSound m retry t q d same s h = retry-IsSound m t q same s d h
decide-IsSound m wake t q d same s h = wake-IsSound m t q same s d h
decide-IsSound m (approve by) t q d same s h = approve-IsSound m t q same s d by h
decide-IsSound m (reject reason by) t q d same s h = reject-IsSound m t q same s d reason by h
decide-IsSound m (set_step step force) t q d same s h = set_step-IsSound m t q same s d step force h
decide-IsSound m (set_retries n) t q d same s h = retries-IsSound m t q same s d n h
decide-IsSound m (submit item token value by) t q d same s h =
    submit-IsSound m t q same s d item token value by h
