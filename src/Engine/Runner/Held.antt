-- ===== src/Engine/Runner/Held.antt =====
-- Computations that leave a claimed task with its worker, when nobody else writes and SQLite does not
-- fail: they may write what they like but the row's status, step and claim.
use mathlib.Core.Path.{subst}
use runspool.Prelude.{ℕ, String, true, ◌≡◌, refl, sym, ap, ◌∙◌, Option, none, some, ◌⊎◌, nat_eq}
use runspool.Prelude.Exec.{Result, ok, err, Exec}
use runspool.Machine.Outcome.{is_executing}
use runspool.Models.{Error}
use runspool.Store.Quiet.{IsQuiet, advance-IsQuiet, quiet_same}
use runspool.Store.Repository.{task_key}
use runspool.Store.Rows.{Task, Db}
use runspool.Store.Table.{find}
use runspool.Store.World.{World, M, Tx, advance, connect, settle, attempt}

module _ (i : ℕ) (token : Option String) (name : String) where
  -- The row of a task that a worker runs on the step.
  pub record IsHeld (t : Task) : Type 0 where
    pub busy : is_executing t.status ≡ true
    pub claim : (token ≡ none) ⊎ (t.claim_token ≡ token)
    pub step : t.step ≡ name

  pub record HoldsIn (db : Db) : Type 0 where
    pub row : Task
    pub left : find task_key i db.tasks ≡ some row
    pub held : IsHeld row

  pub record Holds (w : World) : Type 0 where
    pub quiet : IsQuiet w
    pub inside : HoldsIn w.db

  -- The computation keeps the task with its worker, also when it raises.
  pub record Keeping {E A : Type 0} (m : Exec E World A) : Type 0 where
    pub of : (w : World) → Holds w → Holds (m w).1

  -- It also returns.
  pub record Holding {A : Type 0} (m : M A) (w : World) : Type 0 where
    pub value : A
    pub after : World
    pub ran : m w ≡ (ok value, after)
    pub holds : Holds after

  pub advance-Holds : (w : World) → Holds w → Holds (advance w)
  advance-Holds w h = record {
    quiet = advance-IsQuiet w h.quiet;
    inside = subst HoldsIn (sym (quiet_same w h.quiet)) h.inside;
  }

  pub HoldsIn-same : (db db' : Db) → db'.tasks ≡ db.tasks → HoldsIn db → HoldsIn db'
  HoldsIn-same db db' e h = record {
    row = h.row;
    left = ap (find task_key i) e ∙ h.left;
    held = h.held;
  }

  with_db : (w : World) (db : Db) → Holds w → HoldsIn db → Holds (record w { db = db })
  with_db w db h k = record {
    quiet = record { alone = h.quiet.alone; sound = h.quiet.sound };
    inside = k;
  }

  module _ {A : Type 0} where
    settle-Holds :
        (w : World) (r : Result Error A × Db) → Holds w → HoldsIn r.1 → Holds (settle w r).1
    settle-Holds w (ok a, db) h k = with_db w db h k
    settle-Holds w (err e, db) h k = h

    attempt-Holds :
        (w : World) (f : Option String) (r : Result Error A × Db)
        → Holds w
        → HoldsIn r.1
        → Holds (attempt w f r).1
    attempt-Holds w none r h k = settle-Holds w r h k
    attempt-Holds w (some message) r h k = h

    pub Keeping-connect :
        (body : Tx A)
        → ((now : ℕ) (db : Db) → HoldsIn db → HoldsIn (body now db).1)
        → Keeping (connect body)
    unfolding connect
    Keeping-connect body k = record {
      of = λ w h.
          let v = advance-Holds w h in
          attempt-Holds (advance w) (w.fault w.tick) (body (w.clock w.tick) (advance w).db) v
            (k (w.clock w.tick) (advance w).db v.inside);
    }

    settled :
        (w : World) (f : Option String) (r : Result Error A × Db) (a : A) (db : Db)
        → f ≡ none
        → r ≡ (ok a, db)
        → attempt w f r ≡ (ok a, record w { db = db })
    settled w f r a db e k = rw (e, k) refl

    -- A transaction that returns, commits.
    pub Holding-connect :
        (body : Tx A) (value : ℕ → Db → A) (after : ℕ → Db → Db)
        → ((now : ℕ) (db : Db) → body now db ≡ (ok (value now db), after now db))
        → ((now : ℕ) (db : Db) → HoldsIn db → HoldsIn (after now db))
        → (w : World) → Holds w
        → Holding (connect body) w
    unfolding connect
    Holding-connect body value after e k w h =
        let now = w.clock w.tick in
        let v = advance-Holds w h in
        record {
          value = value now (advance w).db;
          after = record (advance w) { db = after now (advance w).db };
          ran =
              settled (advance w) (w.fault w.tick) (body now (advance w).db)
                (value now (advance w).db) (after now (advance w).db) (h.quiet.sound w.tick)
                (e now (advance w).db);
          holds = with_db (advance w) (after now (advance w).db) v (k now (advance w).db v.inside);
        }
