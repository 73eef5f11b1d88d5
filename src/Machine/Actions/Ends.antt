-- ===== src/Machine/Actions/Ends.antt =====
-- `_user_action` is one atomic transition or an error, whatever other processes commit between its
-- reads and its write, and whatever SQLite does.
use runspool.Prelude.{
  ℕ, zero, suc, ◌≡◌, refl, String, Bool, true, false, not, ◌||◌, Option, none, some, [], ◌∷◌, ◌==◌,
  string_eq, if◌then◌else◌, arith,
}
use runspool.Prelude.Exec.{Result, ok, err, pure, continue}
use runspool.Machine.Actions.{
  Decided, grant_of, granted_attempt, decide_pause, decide_terminate, decide_resume, decide_retry,
  decide_approve, decide_reject, decide_wake, decide_set_step, decide_submit, decide_retries,
  act_once, act_rounds, user_action, apply_decided,
}
use runspool.Machine.Actions.Moves.{
  Action, pause, terminate, resume, retry, wake, approve, reject, set_step, set_retries, submit,
  decide,
}
use runspool.Machine.Boundary.Reading.{get_task-Reads, get_task-Row}
use runspool.Machine.Finish.{attempts, move, with_cancel}
use runspool.Machine.Finish.Hooks.{with_cancel-IsPlain}
use runspool.Machine.Outcome.{StateMachine}
use runspool.Models.{Error, illegal_transition, awaiting_approval, status_eq}
use runspool.Store.Interleaving.{Idle, here, Idle-trans, IsPlain, Untouched, untouched}
use runspool.Store.Items.Errors.{IsPlainOption, submitter-IsPlainHook}
use runspool.Store.Repository.{get_task, task_key}
use runspool.Store.Table.{find}
use runspool.Store.Repository.Cas.{Applied}
use runspool.Store.Repository.Transition.{TransitionEnds, kept, changed, transition-Ends}
use runspool.Store.Rows.{Task, Db}
use runspool.Store.World.{World, M}
use runspool.Text.{partition, rpartition, int}

-- A refusal is a plain error, and a hook raises only plain errors.
abbrev IsPlainDecided : Result Error Decided → Type 0
IsPlainDecided (ok d) = IsPlainOption d.also
IsPlainDecided (err e) = IsPlain e

plain-granted_attempt :
    (t : Task) (by step : String) (n : Option ℕ) → IsPlainDecided (granted_attempt t by step n)
plain-granted_attempt t by step none = tt
plain-granted_attempt t by step (some n) = tt

-- Two refusals before the decision.
plain_guarded :
    (b c : Bool) (e e' : Error) (r : Result Error Decided)
    → IsPlain e
    → IsPlain e'
    → IsPlainDecided r
    → IsPlainDecided (if b then err e else if c then err e' else r)
plain_guarded true c e e' r p q s = p
plain_guarded false true e e' r p q s = q
plain_guarded false false e e' r p q s = s

plain-decide : (m : StateMachine) (a : Action) (t : Task) → IsPlainDecided (decide m a t)
unfolding decide_pause decide_terminate decide_resume decide_retry decide_wake decide_approve
    decide_reject decide_set_step decide_submit decide_retries
plain-decide m pause t = ground arith
plain-decide m terminate t = ground arith
plain-decide m resume t = ground arith
plain-decide m retry t = ground arith
plain-decide m wake t = ground arith
plain-decide m (approve by) t =
    let parts : String × String = partition (grant_of t.approval_grant) in
    let (step, attempt) = rpartition parts.1 in
    plain_guarded (not (t.status == awaiting_approval) || not (parts.0 == "asked"))
      (not (step == t.step)) (illegal_transition t.id t.status "approve" "awaiting_approval")
      (illegal_transition t.id t.status "approve" "awaiting approval of its current step")
      (granted_attempt t by step (int attempt)) tt tt
      (plain-granted_attempt t by step (int attempt))
plain-decide m (reject reason by) t = ground arith
plain-decide m (set_step step force) t = ground arith
plain-decide m (set_retries n) t = tt
plain-decide m (submit item token value by) t =
    let hook = submitter-IsPlainHook item.id token value by in ground arith

module _ (m : StateMachine) (i : ℕ) (a : Action) where
  -- The one commit of an action: the row that it was decided for, as it stood in the database at
  -- `read_at`, and the transaction, with nothing but what others do in between.
  pub record IsDone (begun : World) (db : Db) : Type 0 where
    pub seen : Task
    pub read_at : World
    pub read : find task_key i read_at.db.tasks ≡ some seen
    pub since : Idle read_at begun
    pub decided : Decided
    pub decision : decide m a seen ≡ ok decided
    pub now : ℕ
    pub applied :
        Applied i decided.fields
          (seen.status ∷ [])
          []
          decided.events
          (with_cancel m i decided.fields decided.also)
          now
          begun.db
          db

  -- An action raises and has changed nothing, or returns and has made one commit, of a decision for
  -- what it has read itself.
  pub data ActionEnds (w : World) : Result Error Unit × World → Type 0 where
    raised : (e : Error) {w' : World} → Idle w w' → IsPlain e → ActionEnds w (err e, w')
    done :
        (u : World) (db : Db)
        → Idle w u
        → (c : IsDone u db) → Idle w c.read_at
        → ActionEnds w (ok tt, record u { db = db })

  ends_later :
      (v w : World) (r : Result Error Unit × World) → Idle w v → ActionEnds v r → ActionEnds w r
  ends_later v w _ h (raised e k p) = raised e (Idle-trans h k) p
  ends_later v w _ h (done u db k c b) = done u db (Idle-trans h k) c (Idle-trans h b)

  -- Reading the task, and what follows.
  read_ends :
      (w : World) (f : Option Task → M Unit) (r : Result Error (Option Task) × World)
      → Untouched w r
      → ((t : Option Task) (v : World) → r ≡ (ok t, v) → ActionEnds v (f t v))
      → ActionEnds w (continue f r)
  read_ends w f (ok t, v) (untouched h p) k = ends_later v w (f t v) h (k t v refl)
  read_ends w f (err e, v) (untouched h p) k = raised e h p

  moved_ends :
      (w : World) (fields : _) (expect : _) (require : _) (events : _) (also : _) (again : M Unit)
      (r : Result Error Bool × World)
      → TransitionEnds i fields expect require events also w r
      → ((u : World) (now : ℕ) (db : Db)
          → Idle w u
          → Applied i fields expect require events also now u.db db
          → (c : IsDone u db) × Idle w c.read_at)
      → ((v : World) → ActionEnds v (again v))
      → ActionEnds w (continue (λ moved. if moved then pure tt else again) r)
  moved_ends w fields expect require events also again (err e, v) (kept h p s) c k = raised e h p
  moved_ends w fields expect require events also again (ok b, v) (kept h p s) c k =
      rw s (ends_later v w (again v) h (k v))
  moved_ends w fields expect require events also again _ (changed u now db h applied) c k =
      let (commit, read) = c u now db h applied in done u db h commit read

  decided_ends :
      (again : M Unit)
      → ((v : World) → ActionEnds v (again v))
      → (t : Task) (w : World) → find task_key i w.db.tasks ≡ some t
      → (r : Result Error Decided) → decide m a t ≡ r
      → IsPlainDecided r
      → ActionEnds w (apply_decided m i t again r w)
  unfolding move
  decided_ends again k t w row (err e) decision p = raised e here p
  decided_ends again k t w row (ok d) decision p =
      let also = with_cancel m i d.fields d.also in
      moved_ends w d.fields (t.status ∷ []) [] d.events also again _
        (transition-Ends i d.fields (t.status ∷ []) [] d.events also
          (with_cancel-IsPlain m i d.fields d.also p) w)
        (λ u now db since applied. (
          record {
            seen = t;
            read_at = w;
            read = row;
            since = since;
            decided = d;
            decision = decision;
            now = now;
            applied = applied;
          },
          here,
        ))
        k

  once_ends :
      (again : M Unit)
      → ((v : World) → ActionEnds v (again v))
      → (t : Option Task) (w : World) → find task_key i w.db.tasks ≡ t
      → ActionEnds w (act_once m i (decide m a) again t w)
  unfolding act_once
  once_ends again k none w row = raised _ here tt
  once_ends again k (some t) w row =
      decided_ends again k t w row (decide m a t) refl (plain-decide m a t)

  rounds_end : (n : ℕ) (w : World) → ActionEnds w (act_rounds n m i (decide m a) w)
  unfolding act_rounds
  rounds_end zero w = raised _ here tt
  rounds_end (suc n) w = read_ends w _ (get_task i w) ((get_task-Reads i).of w) (λ t v e.
      once_ends (act_rounds n m i (decide m a)) (rounds_end n) t v (get_task-Row i w v t e))

  -- Whatever the others do and whatever fails, a user's action returns exactly when it has made one
  -- commit, the transition that was decided for the task's row as it stood at a moment of the call,
  -- with no change of its own in between; otherwise it raises an error other than
  -- `TransitionCommitted`, and has changed nothing.
  pub user_action-Ends : (w : World) → ActionEnds w (user_action m i (decide m a) w)
  unfolding user_action
  user_action-Ends w = rounds_end attempts w
