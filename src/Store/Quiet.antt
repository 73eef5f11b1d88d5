-- ===== src/Store/Quiet.antt =====
-- Computations when nobody else writes and SQLite does not fail.
use runspool.Prelude.{ℕ, String, ◌≡◌, refl, ◌∙◌, Bool, true, false, Option, none, if◌then◌else◌}
use runspool.Prelude.Exec.{Result, ok, pure, ◌>>=◌}
use runspool.Models.{Error}
use runspool.Store.Repository.{get_task, task_key}
use runspool.Store.Rows.{Db}
use runspool.Store.Table.{find}
use runspool.Store.World.{World, M, advance, connect, attempt, utcnow}

-- The others commit nothing, and no transaction fails.
pub record IsQuiet (w : World) : Type 0 where
  pub alone : (n : ℕ) (db : Db) → w.others n db ≡ db
  pub sound : (n : ℕ) → w.fault n ≡ none

-- The computation returned `a` and left the database alone.
pub record Ran {A : Type 0} (m : M A) (w : World) : Type 0 where
  pub value : A
  pub after : World
  pub ran : m w ≡ (ok value, after)
  pub quiet : IsQuiet after
  pub same : after.db ≡ w.db

-- A computation that, in quiet, returns and writes nothing.
pub record Calm {A : Type 0} (m : M A) : Type 0 where
  pub of : (w : World) → IsQuiet w → Ran m w

pub advance-IsQuiet : (w : World) → IsQuiet w → IsQuiet (advance w)
unfolding advance
advance-IsQuiet w q = record { alone = q.alone; sound = q.sound }

pub quiet_same : (w : World) → IsQuiet w → (advance w).db ≡ w.db
unfolding advance
quiet_same w q = q.alone w.tick w.db

module _ {A : Type 0} where
  pub Calm-pure : (a : A) → Calm (pure a)
  Calm-pure a = record {
    of = λ w q. record { value = a; after = w; ran = refl; quiet = q; same = refl };
  }

  pub Calm-if : (b : Bool) (m n : M A) → Calm m → Calm n → Calm (if b then m else n)
  Calm-if true m n f g = f
  Calm-if false m n f g = g

  attempted :
      (w : World) (fault : Option String) (r : Result Error A × Db)
      → fault ≡ none
      → attempt w fault r ≡ attempt w none r
  attempted w fault r e = rw e refl

  pub Calm-connect : (f : ℕ → Db → A) → Calm (connect (λ now db. (ok (f now db), db)))
  unfolding connect advance
  Calm-connect f = record {
    of = λ w q. record {
      value = f (w.clock w.tick) (w.others w.tick w.db);
      after = advance w;
      ran = attempted (advance w) (w.fault w.tick) _ (q.sound w.tick);
      quiet = advance-IsQuiet w q;
      same = q.alone w.tick w.db;
    };
  }

pub Calm-utcnow : Calm utcnow
Calm-utcnow = record {
  of = λ w q. record { value = w.clock w.tick; after = w; ran = refl; quiet = q; same = refl };
}

pub Calm-bind :
    {A B : Type 0} (m : M A) (f : A → M B) → Calm m → ((a : A) → Calm (f a)) → Calm (m >>= f)
Calm-bind m f c k = record {
  of = λ w q.
      let r = c.of w q in
      let s = (k r.value).of r.after r.quiet in
      record {
        value = s.value;
        after = s.after;
        ran = rw r.ran s.ran;
        quiet = s.quiet;
        same = s.same ∙ r.same;
      };
}

-- In quiet `get_task` returns the row.
pub quiet_get :
    (i : ℕ) (w : World) → IsQuiet w → get_task i w ≡ (ok (find task_key i w.db.tasks), advance w)
unfolding get_task connect advance
quiet_get i w q = rw (q.sound w.tick, q.alone w.tick w.db) refl
