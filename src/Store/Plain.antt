-- ===== src/Store/Plain.antt =====
-- No hook of a transition raises `TransitionCommitted`: that error always means a committed change.
use runspool.Prelude.{ℕ, List, [], ◌∷◌}
use runspool.Prelude.Exec.{Result, ok, err, Exec, pure, continue, ◌>>=◌}
use runspool.Models.{Error}
use runspool.Store.Events.{insert_event, insert_events}
use runspool.Store.Interleaving.{IsPlainResult}
use runspool.Store.Repository.{Hook}
use runspool.Store.Rows.{Event, Db}

-- Every error of the statements is plain.
pub record IsPlainTx {A : Type 0} (m : Exec Error Db A) : Type 0 where
  pub of : (db : Db) → IsPlainResult (m db).0

pub record IsPlainHook (h : Hook) : Type 0 where
  pub at : (now : ℕ) → IsPlainTx (h now)

module _ {A B : Type 0} where
  pub plain-continue :
      (f : A → Exec Error Db B)
      → ((a : A) → IsPlainTx (f a))
      → (r : Result Error A × Db) → IsPlainResult r.0
      → IsPlainResult (continue f r).0
  plain-continue f k (ok a, db) p = (k a).of db
  plain-continue f k (err e, db) p = p

  pub plain-bind :
      (m : Exec Error Db A) (f : A → Exec Error Db B)
      → IsPlainTx m
      → ((a : A) → IsPlainTx (f a))
      → IsPlainTx (m >>= f)
  plain-bind m f g k = record { of = λ db. plain-continue f k (m db) (g.of db) }

pub plain_lift : {A : Type 0} (r : Result Error A) → IsPlainResult r → IsPlainTx (λ db. (r, db))
plain_lift r p = record { of = λ db. p }

pub plain-insert_event : (i : ℕ) (e : Event) (now : ℕ) → IsPlainTx (insert_event i e now)
unfolding insert_event
plain-insert_event i e now = record { of = λ db. tt }

pub plain-insert_events : (i : ℕ) (es : List Event) (now : ℕ) → IsPlainTx (insert_events i es now)
unfolding insert_events
plain-insert_events i [] now = record { of = λ db. tt }
plain-insert_events i (e ∷ es) now =
    plain-bind _ _ (plain-insert_event i e now) (λ _. plain-insert_events i es now)

pub plain-pure : {A : Type 0} (a : A) → IsPlainTx {A = A} (pure a)
plain-pure a = record { of = λ db. tt }
