-- ===== src/Machine/Finish/Row.antt =====
-- What the one commit of `finish_step` makes of the task's row.
use runspool.Prelude.{
  ℕ, ◌≡◌, refl, ◌∙◌, String, Bool, true, false, Option, none, some, ◌⊎◌, inl, inr, arith,
  bool_beq_iff, nat_beq_iff, option_beq_iff, string_eq, option_eq,
}
use runspool.Prelude.Exec.{ok}
use runspool.Machine.Boundary.{boundary}
use runspool.Machine.Boundary.Effects.{
  IsSettled, IsTerminated, boundary_settles, boundary_terminates,
}
use runspool.Machine.Finish.{requires}
use runspool.Machine.Finish.Commit.{IsCommit}
use runspool.Machine.Outcome.{StateMachine, Outcome, Change, is_executing}
use runspool.Models.{status_eq}
use runspool.Store.Columns.{all_hold, int_beq_iff, write_all, write_all-id}
use runspool.Store.Repository.{task_key}
use runspool.Store.Repository.Cas.{expects-status}
use runspool.Store.Rows.{Task, Db}
use runspool.Store.Table.{find, find-replace, find_key}
use runspool.Store.World.{World}

-- The row has the flags and counters that the decision was made from.
record Agrees (s t : Task) : Type 0 where
  pause : t.pause_requested ≡ s.pause_requested
  terminate : t.terminate_requested ≡ s.terminate_requested
  retries : t.retry_count ≡ s.retry_count
  limit : t.max_retries ≡ s.max_retries

requires-Agrees :
    (s t : Task) (token : Option String) → all_hold (requires s token) t ≡ true → Agrees s t
requires-Agrees s t token h = ground (
  arith,
  bool_beq_iff t.pause_requested s.pause_requested,
  bool_beq_iff t.terminate_requested s.terminate_requested,
  nat_beq_iff t.retry_count s.retry_count,
  int_beq_iff t.max_retries s.max_retries,
)

token-Holds :
    (s t : Task) (token : Option String)
    → all_hold (requires s token) t ≡ true
    → (token ≡ none) ⊎ (t.claim_token ≡ token)
token-Holds s t none h = inl refl
token-Holds s t (some k) h = inr (ground (arith, option_beq_iff t.claim_token (some k)))

-- The step boundary of the row with id `i`, from `before` to `after`, the row then being written.
pub record IsResolved (i : ℕ) (o : Outcome) (token : Option String) (before after : Db)
    : Type 0 where
  pub row : Task
  pub now : ℕ
  pub found : find task_key i before.tasks ≡ some row
  pub executing : is_executing row.status ≡ true
  pub claimed : (token ≡ none) ⊎ (row.claim_token ≡ token)
  pub change : Change
  pub written :
      find task_key i after.tasks ≡ some (record (write_all change.fields row) { updated_at = now })
  pub effect :
      ((row.terminate_requested ≡ true) × IsTerminated row change)
      ⊎ ((row.terminate_requested ≡ false) × IsSettled o row.pause_requested row change)

module _ (m : StateMachine) (i : ℕ) (o : Outcome) (token : Option String) where
  effect_for :
      (q t : Task) (terminate : Bool) (w w' : World) (c : Change)
      → t.terminate_requested ≡ terminate
      → boundary m q o terminate t.pause_requested w ≡ (ok c, w')
      → ((t.terminate_requested ≡ true) × IsTerminated t c)
        ⊎ ((t.terminate_requested ≡ false) × IsSettled o t.pause_requested t c)
  effect_for q t true w w' c e h = inl (e, boundary_terminates m q t o t.pause_requested w w' c h)
  effect_for q t false w w' c e h = inr (e, boundary_settles m q t o t.pause_requested w w' c h)

  -- The one commit of `finish_step` finds the task still executing, and still claimed by the given
  -- token, and writes to its row the change that belongs to the flags that the row has at that
  -- moment, not those that were read before: termination when it is asked for, and else what the
  -- outcome leads to under the row's pause flag.
  pub commit-IsResolved :
      (u : World) (db : Db) (c : IsCommit m i o token u db)
      → IsResolved i o token u.db c.applied.mid
  commit-IsResolved u db c =
      let s = c.seen in
      let t = c.applied.row in
      let agrees = requires-Agrees s t token c.applied.required in
      record {
        row = t;
        now = c.now;
        found = c.applied.found;
        executing = rw (expects-status s.status t c.applied.expected) c.executing;
        claimed = token-Holds s t token c.applied.required;
        change = c.change;
        written = rw c.applied.written (
            find-replace task_key i _ u.db.tasks t c.applied.found
              (write_all-id c.change.fields t ∙ find_key task_key i u.db.tasks t c.applied.found));
        effect =
            effect_for s t s.terminate_requested c.decided_at c.decided_by c.change agrees.terminate
              (rw agrees.pause c.decision);
      }
