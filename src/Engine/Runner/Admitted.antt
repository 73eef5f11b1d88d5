-- ===== src/Engine/Runner/Admitted.antt =====
-- engine/runner.py: the run of a step that the gate admits, and what becomes of a task that it turns
-- away, when nobody else writes and SQLite does not fail.
use mathlib.Core.Path.{subst}
use runspool.Prelude.{
  some_inj, ℕ, suc, String, Bool, true, false, ◌≡◌, refl, sym, ap, Option, none, some, List, [],
  ◌∷◌, contains, string_eq, if◌then◌else◌, option_eq,
}
use runspool.Prelude.Exec.{Result, ok, err, pure, continue, ◌>>=◌}
use runspool.Engine.Runner.{run_step, run_admitted, found_or}
use runspool.Engine.Runner.Admission.{
  acted, turn_away, reported, reported_if, outcome_of, tell, with_reason,
}
use runspool.Engine.Runner.Attempt.{body}
use runspool.Engine.Runner.Conclusion.{notify-Calm, conclude-Ended}
use runspool.Engine.Runner.Context.{TaskRunner, machine_of}
use runspool.Engine.Runner.Ending.{Ended, Freed, Calm-Ended, Ended-Holding, finish-Ended}
use runspool.Engine.Runner.Held.{Holds, Holding, Holding-connect, Keeping, HoldsIn-same}
use runspool.Engine.Runner.Keeps.{update_fields-Keeping}
use runspool.Engine.Runner.Live.{IsChildless, body-Keeping, body-childless}
use runspool.Engine.Steps.{
  Step, StepResult, Script, Raised, Decision, allow, deny, defer, ask, other,
}
use runspool.Machine.Finish.{finish_step}
use runspool.Machine.Finish.Live.{IsSimple}
use runspool.Models.{Error, WorkflowDef, TaskStatus}
use runspool.Store.Columns.{Cell}
use runspool.Store.Quiet.{Calm, Calm-pure, Calm-bind}
use runspool.Store.Repository.{column, update_fields, if_changed}
use runspool.Store.Repository.Spawning.{SpawnPlan}
use runspool.Store.Rows.{Task, Db}
use runspool.Store.StepRuns
use runspool.Store.World.{World, M, connect, attempt, advance}

module _ (i : ℕ) (token : Option String) (name : String) where
  returned-Holding :
      {A : Type 0} (m : M A) (w : World) (a : A)
      → Keeping i token name m
      → (m w).0 ≡ ok a
      → Holds i token name w
      → Holding i token name m w
  returned-Holding {A} m w a k e h = record {
    value = a;
    after = (m w).1;
    ran = ap (λ (x : Result Error A). (x, (m w).1)) e;
    holds = k.of w h;
  }

  changed_returns :
      (w : World) (f : Option String) (db : Db) (o : Option (List Task))
      → f ≡ none
      → (b : Bool) × ((attempt w f (if_changed db o (pure true))).0 ≡ ok b)
  changed_returns w f db none e = (false, rw e refl)
  changed_returns w f db (some tasks) e = (true, rw e refl)

  progress-Holding :
      (w : World)
      → Holds i token name w
      → Holding i token name (update_fields i (column (Cell.progress none) ∷ []) token) w
  unfolding update_fields connect
  progress-Holding w h =
      let (b, e) =
        changed_returns (advance w) (w.fault w.tick) (advance w).db _ (h.quiet.sound w.tick) in
      returned-Holding _ w b
        (update_fields-Keeping i token name (column (Cell.progress none) ∷ []) token) e h

  start-Holding :
      (step : String) (w : World)
      → Holds i token name w
      → Holding i token name (StepRuns.start i step) w
  unfolding StepRuns.start
  start-Holding step w h =
      Holding-connect i token name _ (λ now db. suc db.last_run) _ (λ now db. refl)
        (λ now db k. HoldsIn-same i token name db _ refl k) w h

  pub count_runs-Holding :
      (step : String) (w : World)
      → Holds i token name w
      → Holding i token name (StepRuns.count_runs i step) w
  unfolding StepRuns.count_runs
  count_runs-Holding step w h =
      Holding-connect i token name _ _ (λ now db. db) (λ now db. refl) (λ now db k. k) w h

-- A value that a gate may return.
abbrev pub IsDecision : Decision → Type 0
IsDecision (other text) = ⊥
IsDecision _ = Unit {0}

module _ (r : TaskRunner) (tells : (at : ℕ) (s : String) → Calm (r.notifier at s))
    (workflow : WorkflowDef) (task : Task) (token : Option String)
    (known : contains workflow.steps task.step ≡ true) where
  abbrev Ends : {A : Type 0} → M A → World → Type 0
  Ends m w = Ended task.id (m w)

  abbrev IsHere : World → Type 0
  IsHere w = Holds task.id token task.step w

  run_step-Ended :
      (step : Step) (s : Script StepResult) (w : World)
      → IsChildless s
      → IsHere w
      → Ends (run_step r task token (machine_of r workflow) step none s) w
  unfolding run_step
  run_step-Ended step s w childless h =
      Ended-Holding task.id token task.step _ _ w (progress-Holding task.id token task.step w h)
        λ _ w1 h1.
          Ended-Holding task.id token task.step _ _ w1
            (start-Holding task.id token task.step task.step w1 h1)
            λ run w2 h2.
              let b = body r task step token run s in
              conclude-Ended r tells workflow task step token run known (b w2).0 (b w2).1
                (λ p e.
                  body-childless r task step token run s w2 (b w2).1 p childless
                    (ap (λ (x : Result Raised (StepResult × Option SpawnPlan)). (x, (b w2).1)) e))
                ((body-Keeping r task step token run s).of w2 h2)

  pub if_false :
      {A : Type 0} (b : Bool) (m n : M A) (w : World)
      → b ≡ false
      → Ends n w
      → Ends (if b then m else n) w
  if_false true m n w e h = absurd (cc)
  if_false false m n w e h = h

  pub from_some :
      {A B : Type 0} (why : List String) (o : Option A) (a : A) (k : A → M B) (w : World)
      → o ≡ some a
      → Ends (k a) w
      → Ends (found_or why o >>= k) w
  from_some why none a k w e h = absurd (cc)
  from_some {A} why (some b) a k w e h =
      subst (λ (x : A). Ended task.id (k x w)) (sym (some_inj e)) h

  -- A decision to turn the task away, for a reason.
  abbrev Refuses : Decision → Type 0
  Refuses allow = ⊥
  Refuses (other text) = ⊥
  Refuses _ = Unit {0}

  with_reason-Calm :
      (d : Decision) (f : String → M (Unit {0}))
      → Refuses d
      → ((why : String) → Calm (f why))
      → Calm (with_reason d f)
  with_reason-Calm allow f h k = absurd h
  with_reason-Calm (other text) f h k = absurd h
  with_reason-Calm (defer reason delay) f h k = k reason
  with_reason-Calm (ask reason) f h k = k reason
  with_reason-Calm (deny reason) f h k = k reason

  outcome-IsSimple : (n : ℕ) (d : Decision) → Refuses d → IsSimple (outcome_of n d)
  outcome-IsSimple n allow h = absurd h
  outcome-IsSimple n (other text) h = absurd h
  outcome-IsSimple n (defer reason delay) h = tt
  outcome-IsSimple n (ask reason) h = tt
  outcome-IsSimple n (deny reason) h = tt

  module _
      (asks : (f : Task → M (Unit {0}))
        → r.on_approval_asked ≡ some f
        → (t : Task) → Calm (f t)) where
    tell-Calm :
        (o : Option (Task → M (Unit {0}))) (after : Task)
        → r.on_approval_asked ≡ o
        → Calm (tell o after)
    tell-Calm none after e = Calm-pure tt
    tell-Calm (some f) after e = asks f e after

    reported-Calm :
        (d : Decision) (s : TaskStatus) (after : Task)
        → Refuses d
        → Calm (reported r task d s after)
    reported-Calm d TaskStatus.awaiting_approval after h =
        Calm-bind _ _ (with_reason-Calm d _ h λ why. notify-Calm r tells after _)
          λ _. tell-Calm r.on_approval_asked after refl
    reported-Calm d TaskStatus.manual_required after h =
        with_reason-Calm d _ h λ why. notify-Calm r tells after _
    reported-Calm d _ after h = Calm-pure tt

    reported_if-Calm :
        (d : Decision) (after : Option Task) → Refuses d → Calm (reported_if r task d after)
    reported_if-Calm d none h = Calm-pure tt
    reported_if-Calm d (some after) h = reported-Calm d after.status after h

    answered_no :
        (k : Bool → M (Unit {0})) (x : Result Error (Unit {0}) × World)
        → ((v : World) → k false v ≡ (ok tt, v))
        → Ended task.id x
        → Ended task.id (continue k (continue (λ _. pure false) x))
    answered_no k (ok a, v) e h = rw (e v) (record { value = tt; returned = refl; freed = h.freed })
    answered_no k (err x, v) e h = absurd (cc (h.returned))

    turned :
        (k : Option Task → M Bool) (g : Bool → M (Unit {0}))
        (x : Result Error (Option Task) × World)
        → Ended task.id x
        → ((after : Option Task) (v : World)
            → Freed task.id v
            → Ended task.id (continue g (k after v)))
        → Ended task.id (continue g (continue k x))
    turned k g (ok a, v) h f = f a v h.freed
    turned k g (err x, v) h f = absurd (cc (h.returned))

    turn_away-Ended :
        (step : Step) (n : ℕ) (d : Decision) (w : World)
        → Refuses d
        → IsHere w
        → Ends
            (turn_away r (machine_of r workflow) task n token d
              >>= run_admitted r task token (machine_of r workflow) step n)
            w
    unfolding turn_away
    turn_away-Ended step n d w h here =
        turned _ _ (finish_step (machine_of r workflow) task.id (outcome_of n d) token w)
          (finish-Ended (machine_of r workflow) task.id token task.step known (outcome_of n d) w
            (outcome-IsSimple n d h) here)
          λ after v f.
            answered_no _ (reported_if r task d after v) (λ u. refl)
              (Calm-Ended task.id (reported_if r task d after) v (reported_if-Calm d after h) f)

    pub acted-Ended :
        (step : Step) (n : ℕ) (d : Decision) (w : World)
        → step.external ≡ false
        → IsChildless (step.run task n)
        → IsDecision d
        → IsHere w
        → Ends
            (acted r (machine_of r workflow) task n token d
              >>= run_admitted r task token (machine_of r workflow) step n)
            w
    acted-Ended step n allow w inner childless h here =
        if_false step.external _ _ w inner (run_step-Ended step (step.run task n) w childless here)
    acted-Ended step n (other text) w inner childless h here = absurd h
    acted-Ended step n (defer reason delay) w inner childless h here =
        turn_away-Ended step n (defer reason delay) w tt here
    acted-Ended step n (ask reason) w inner childless h here =
        turn_away-Ended step n (ask reason) w tt here
    acted-Ended step n (deny reason) w inner childless h here =
        turn_away-Ended step n (deny reason) w tt here
