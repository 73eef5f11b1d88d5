-- ===== src/Machine/Finish/Live.antt =====
-- `finish_step` gets its work done when nobody interferes.
use runspool.Prelude.{
  ℕ, suc, ◌≡◌, refl, ◌∙◌, String, Bool, true, false, ◌&&◌, Option, none, some, List, [], ◌∷◌, inl,
  inr, ◌⊎◌, Bool-cases, contains, arith, string_eq, option_eq, bool_beq_iff, nat_beq_iff,
  option_beq_iff,
}
use runspool.Prelude.Exec.{Result, ok}
use runspool.Machine.Actions.Rows.{IsSound}
use runspool.Machine.Boundary.{boundary}
use runspool.Machine.Boundary.Calm.{boundary-Calm}
use runspool.Machine.Boundary.Effects.{boundary_settles, boundary_terminates}
use runspool.Machine.Finish.{
  move, with_cancel, cancels_for, hooks, item_change, result_change, spawn_change, read_back,
  is_stale_claim, requires, resolve, finish_rounds, finish_step,
}
use runspool.Machine.Finish.Sound.{settled-IsSound, terminated-IsSound, Leads-idle}
use runspool.Machine.Outcome.{
  StateMachine, Outcome, succeeded, deferred, failed, denied, needs_approval, awaits_external,
  rejected, Change, is_executing,
}
use runspool.Models.{Error, TaskStatus, status_eq, status_beq_iff, is_terminal}
use runspool.Store.Columns.{
  Cell, all_hold, int_beq_iff, write_all, write_all-id, get_status, get_step,
}
use runspool.Store.Items.{canceller, chain}
use runspool.Store.Quiet.{IsQuiet, advance-IsQuiet, quiet_same, quiet_get}
use runspool.Store.Repository.{task_key, has_unwritable}
use runspool.Store.Repository.Quiet.{IsHarmless, transition-IsWritten}
use runspool.Store.Rows.{Task}
use runspool.Store.Table.{find, find-replace, find_key}
use runspool.Store.World.{World, M, advance}

-- An outcome that changes no work item and spawns no child.
abbrev pub IsSimple : Outcome → Type 0
IsSimple (succeeded _ none _ none) = Unit
IsSimple (succeeded _ none _ (some _)) = ⊥
IsSimple (succeeded _ (some _) _ _) = ⊥
IsSimple (awaits_external _ _) = ⊥
IsSimple (rejected _ _ _ _ _) = ⊥
IsSimple _ = Unit

simple_hooks :
    (m : StateMachine) (t : Task) (o : Outcome) (fields : List Cell)
    → IsSimple o
    → hooks m t o fields ≡ ok none
unfolding hooks item_change result_change spawn_change
simple_hooks m t (succeeded _ none _ none) fields h = refl
simple_hooks m t (succeeded _ none _ (some _)) fields h = absurd h
simple_hooks m t (succeeded _ (some _) _ _) fields h = absurd h
simple_hooks m t (awaits_external _ _) fields h = absurd h
simple_hooks m t (rejected _ _ _ _ _) fields h = absurd h
simple_hooks m t (deferred _ _) fields h = refl
simple_hooks m t (failed _ _ _) fields h = refl
simple_hooks m t (denied _) fields h = refl
simple_hooks m t (needs_approval _ _) fields h = refl

none-IsHarmless : IsHarmless none
none-IsHarmless = record { at = λ now db. (db, refl, refl) }

canceller-IsHarmless : (i : ℕ) (keep : Option String) → IsHarmless (some (canceller i keep))
unfolding canceller
canceller-IsHarmless i keep = record { at = λ now db. ((canceller i keep now db).1, refl, refl) }

cancels-IsHarmless :
    (i : ℕ) (s : Option TaskStatus) (step : Option String)
    → IsHarmless (chain (none ∷ cancels_for i s step ∷ []))
cancels-IsHarmless i none none = none-IsHarmless
cancels-IsHarmless i none (some step) = canceller-IsHarmless i (some step)
cancels-IsHarmless i (some s) none = elim (Bool-cases (is_terminal s)) [
  | inl e ↦ rw e (canceller-IsHarmless i none)
  | inr e ↦ rw e none-IsHarmless
]
cancels-IsHarmless i (some s) (some step) = elim (Bool-cases (is_terminal s)) [
  | inl e ↦ rw e (canceller-IsHarmless i none)
  | inr e ↦ rw e (canceller-IsHarmless i (some step))
]

with_cancel-IsHarmless :
    (m : StateMachine) (i : ℕ) (fields : List Cell) → IsHarmless (with_cancel m i fields none)
with_cancel-IsHarmless m i fields = elim (Bool-cases m.items) [
  | inl e ↦ rw e (cancels-IsHarmless i (get_status fields) (get_step fields))
  | inr e ↦ rw e none-IsHarmless
]

requires_self :
    (t : Task) (token : Option String)
    → (token ≡ none) ⊎ (t.claim_token ≡ token)
    → contains (t.status ∷ []) t.status && all_hold (requires t token) t ≡ true
requires_self t none h = ground (
  arith,
  status_beq_iff t.status t.status,
  bool_beq_iff t.pause_requested t.pause_requested,
  bool_beq_iff t.terminate_requested t.terminate_requested,
  nat_beq_iff t.retry_count t.retry_count,
  int_beq_iff t.max_retries t.max_retries,
)
requires_self t (some k) h = ground (
  arith,
  status_beq_iff t.status t.status,
  bool_beq_iff t.pause_requested t.pause_requested,
  bool_beq_iff t.terminate_requested t.terminate_requested,
  nat_beq_iff t.retry_count t.retry_count,
  int_beq_iff t.max_retries t.max_retries,
  option_beq_iff t.claim_token (some k),
)

requires-Writable : (t : Task) (token : Option String) → has_unwritable (requires t token) ≡ false
requires-Writable t none = refl
requires-Writable t (some k) = refl

fresh_claim :
    (t : Task) (token : Option String)
    → (token ≡ none) ⊎ (t.claim_token ≡ token)
    → is_stale_claim token t ≡ false
fresh_claim t none h = refl
fresh_claim t (some k) h = ground (arith, option_beq_iff t.claim_token (some k))

-- What is left of a decided change: it can be written, and leaves a sound row with no worker.
record IsGood (t : Task) (c : Change) : Type 0 where
  writable : has_unwritable c.fields ≡ false
  idle : is_executing (write_all c.fields t).status ≡ false
  sound : (now : ℕ) → IsSound (record (write_all c.fields t) { updated_at = now })

module _ (m : StateMachine) (i : ℕ) (o : Outcome) (token : Option String) where
  change-IsGood :
      (t : Task) (terminate : Bool) (w w' : World) (c : Change)
      → t.terminate_requested ≡ terminate
      → boundary m t o terminate t.pause_requested w ≡ (ok c, w')
      → IsGood t c
  change-IsGood t true w w' c e h =
      let s = boundary_terminates m t t o t.pause_requested w w' c h in
      let status = s.status in
      record {
        writable = s.writable;
        idle = ground arith;
        sound = λ now. terminated-IsSound t c now s;
      }
  change-IsGood t false w w' c e h =
      let s = boundary_settles m t t o t.pause_requested w w' c h in
      record {
        writable = s.writable;
        idle = Leads-idle o t.pause_requested (write_all c.fields t).status s.leads;
        sound = λ now. settled-IsSound o t c now e s;
      }

  -- A call that returned the row that it left, which is sound and has no worker.
  pub record IsFinished (r : Result Error (Option Task) × World) : Type 0 where
    pub row : Task
    pub returned : r.0 ≡ ok (some row)
    pub left : find task_key i r.1.db.tasks ≡ some row
    pub idle : is_executing row.status ≡ false
    pub sound : IsSound row
    pub quiet : IsQuiet r.1

  read_back_quiet :
      (n : ℕ) (w : World) (t : Task)
      → IsQuiet w
      → find task_key i w.db.tasks ≡ some t
      → is_executing t.status ≡ false
      → IsSound t
      → IsFinished (read_back (suc n) i w)
  unfolding read_back
  read_back_quiet n w t q found idle sound =
      rw (quiet_get i w q, found)
        (record {
          row = t;
          returned = refl;
          left = rw (quiet_same w q) found;
          idle = idle;
          sound = sound;
          quiet = advance-IsQuiet w q;
        })

  -- The round in which the task is read: what it decides is committed and read back.
  resolve_finishes :
      (again : M (Option Task)) (t : Task) (w v : World) (c : Change)
      → is_executing t.status ≡ true
      → (token ≡ none) ⊎ (t.claim_token ≡ token)
      → IsSimple o
      → find task_key i v.db.tasks ≡ some t
      → boundary m t o t.terminate_requested t.pause_requested w ≡ (ok c, v)
      → IsQuiet v
      → IsFinished (resolve m i o token again (some t) w)
  unfolding resolve move
  resolve_finishes again t w v c busy claim simple found decision q =
      let good = change-IsGood t t.terminate_requested w v c refl decision in
      let x =
        transition-IsWritten i c.fields (t.status ∷ []) (requires t token) c.events
          (with_cancel m i c.fields none) (with_cancel-IsHarmless m i c.fields) t v q refl
          (rw (good.writable, requires-Writable t token) refl) found
          (requires_self t token claim) in
      let new : Task = record (write_all c.fields t) { updated_at = x.now } in
      rw (busy, fresh_claim t token claim, decision, simple_hooks m t o c.fields simple, x.ran)
        (read_back_quiet 2 x.after new x.quiet
          (rw x.tasks (
            find-replace task_key i new v.db.tasks t found
              (write_all-id c.fields t ∙ find_key task_key i v.db.tasks t found)))
          good.idle (good.sound x.now))

  -- When nobody else writes and nothing fails, `finish_step` of an executing task whose claim is the
  -- given one and whose step is part of the workflow, with an outcome that concerns no work item and
  -- no children, returns the task's row as it leaves it, which has no worker and is sound.
  pub finish_step-IsFinished :
      (t : Task) (w : World)
      → IsQuiet w
      → find task_key i w.db.tasks ≡ some t
      → is_executing t.status ≡ true
      → (token ≡ none) ⊎ (t.claim_token ≡ token)
      → contains m.workflow.steps t.step ≡ true
      → IsSimple o
      → IsFinished (finish_step m i o token w)
  unfolding finish_step finish_rounds
  finish_step-IsFinished t w q found busy claim known simple =
      let r =
        (boundary-Calm m t o t.terminate_requested t.pause_requested known).of (advance w)
          (advance-IsQuiet w q) in
      rw (quiet_get i w q, found)
        (resolve_finishes (finish_rounds 4 m i o token) t (advance w) r.after r.value busy claim
          simple (rw (r.same ∙ quiet_same w q) found) r.ran r.quiet)
