-- ===== src/Engine/Runner/Ending.antt =====
-- engine/runner.py: the endings of a run, when nobody else writes and SQLite does not fail: each
-- hands an outcome to the state machine and tells of it, and so takes the task from its worker.
use mathlib.Core.Path.{subst}
use runspool.Prelude.{
  ℕ, String, true, false, ◌≡◌, refl, sym, ap, ◌∙◌, Option, some, contains, string_eq,
}
use runspool.Prelude.Exec.{Result, ok, err, continue, ◌>>=◌}
use runspool.Engine.Runner.Held.{Holds, Holding, Holding-connect, HoldsIn-same}
use runspool.Machine.Actions.Rows.{IsSound}
use runspool.Machine.Finish.{finish_step}
use runspool.Machine.Finish.Live.{IsSimple, finish_step-IsFinished}
use runspool.Machine.Outcome.{StateMachine, Outcome, is_executing}
use runspool.Models.{Error}
use runspool.Store.Quiet.{IsQuiet, Calm}
use runspool.Store.Repository.{task_key}
use runspool.Store.Rows.{Task, RunStatus, Db}
use runspool.Store.StepRuns
use runspool.Store.Table.{find}
use runspool.Store.World.{World, M}

-- The task has no worker, and its row is sound.
pub record Freed (i : ℕ) (w : World) : Type 0 where
  pub row : Task
  pub left : find task_key i w.db.tasks ≡ some row
  pub idle : is_executing row.status ≡ false
  pub sound : IsSound row
  pub quiet : IsQuiet w

-- The call returned, and the task is so.
pub record Ended {A : Type 0} (i : ℕ) (r : Result Error A × World) : Type 0 where
  pub value : A
  pub returned : r.0 ≡ ok value
  pub freed : Freed i r.1

module _ (i : ℕ) where
  pub moved : (w v : World) → v.db ≡ w.db → IsQuiet v → Freed i w → Freed i v
  moved w v e q f = record {
    row = f.row;
    left = ap (λ (db : Db). find task_key i db.tasks) e ∙ f.left;
    idle = f.idle;
    sound = f.sound;
    quiet = q;
  }

  module _ {A : Type 0} where
    ended_at :
        (r : Result Error A × World) (a : A) (w : World) → r ≡ (ok a, w) → Freed i w → Ended i r
    ended_at r a w e f = record {
      value = a;
      returned = ap (λ (x : Result Error A × World). x.0) e;
      freed = subst (Freed i) (sym (ap (λ (x : Result Error A × World). x.1) e)) f;
    }

    -- What writes nothing leaves the task free.
    pub Calm-Ended : (m : M A) (w : World) → Calm m → Freed i w → Ended i (m w)
    Calm-Ended m w c f =
        let r = c.of w f.quiet in
        ended_at (m w) r.value r.after r.ran (moved w r.after r.same r.quiet f)

  module _ {A B : Type 0} where
    -- A block goes on from a call that ended.
    pub Ended-continue :
        (r : Result Error A × World) (k : A → M B)
        → Ended i r
        → ((a : A) (w : World) → Freed i w → Ended i (k a w))
        → Ended i (continue k r)
    Ended-continue (ok a, w) k e g = g a w e.freed
    Ended-continue (err x, w) k e g = absurd (cc (e.returned))

    pub Ended-Holding :
        (token : Option String) (name : String) (m : M A) (k : A → M B) (w : World)
        → Holding i token name m w
        → ((a : A) (v : World) → Holds i token name v → Ended i (k a v))
        → Ended i ((m >>= k) w)
    Ended-Holding token name m k w h g = rw h.ran (g h.value h.after h.holds)

module _ (m : StateMachine) (i : ℕ) (token : Option String) (name : String)
    (known : contains m.workflow.steps name ≡ true) where
  -- `finish_step`, of a task that is with its worker.
  pub finish-Ended :
      (o : Outcome) (w : World)
      → IsSimple o
      → Holds i token name w
      → Ended i (finish_step m i o token w)
  finish-Ended o w simple h =
      let t = h.inside.row in
      let k = h.inside.held in
      let f =
        finish_step-IsFinished m i o token t w h.quiet h.inside.left k.busy k.claim
          (ap (contains m.workflow.steps) k.step ∙ known) simple in
      record {
        value = some f.row;
        returned = f.returned;
        freed = record {
          row = f.row;
          left = f.left;
          idle = f.idle;
          sound = f.sound;
          quiet = f.quiet;
        };
      }

  -- `finish_step`, and telling of it.
  pub told-Ended :
      {B : Type 0} (o : Outcome) (k : Option Task → M B) (w : World)
      → IsSimple o
      → ((after : Option Task) → Calm (k after))
      → Holds i token name w
      → Ended i ((finish_step m i o token >>= k) w)
  told-Ended o k w simple calm h =
      Ended-continue i (finish_step m i o token w) k (finish-Ended o w simple h)
        λ after v f. Calm-Ended i (k after) v (calm after) f

module _ (i : ℕ) (token : Option String) (name : String) where
  pub finish_run-Holding :
      (run : ℕ) (status : RunStatus) (ms : ℕ) (error remark : Option String) (w : World)
      → Holds i token name w
      → Holding i token name (StepRuns.finish run status ms error remark) w
  unfolding StepRuns.finish
  finish_run-Holding run status ms error remark w h =
      Holding-connect i token name _ (λ now db. tt) _ (λ now db. refl)
        (λ now db k. HoldsIn-same i token name db _ refl k) w h
