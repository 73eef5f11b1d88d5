-- ===== src/Store/World.antt =====
-- connection.py: a process works on the database in transactions, and other processes commit
-- theirs in between. `Database.connect` commits when the block ends and rolls back when it raises.
use runspool.Prelude.{ℕ, suc, String, Option, none, some}
use runspool.Prelude.Exec.{Result, ok, err, Exec}
use runspool.Models.{Error, operational_error}
use runspool.Store.Rows.{Db}

-- `tick` counts this process's transactions. Before the n-th, other processes have committed
-- `others n`; it meets the SQLite failure `fault n`, if any; and the clock shows `clock n`.
pub record World : Type 0 where
  pub db : Db
  pub tick : ℕ
  pub others : ℕ → Db → Db
  pub fault : ℕ → Option String
  pub clock : ℕ → ℕ

-- Statements of one transaction that began at a time.
abbrev pub Tx : Type 0 → Type 0
Tx A = ℕ → Exec Error Db A

-- A method of the store or of a machine over it.
abbrev pub M : Type 0 → Type 0
M A = Exec Error World A

-- The others have had their turn.
unfoldable pub advance : World → World
advance w = record w { db = w.others w.tick w.db; tick = suc w.tick }

-- A commit, or a rollback to the database that the transaction began with.
abbrev pub settle : {A : Type 0} → World → Result Error A × Db → Result Error A × World
settle w (ok a, db) = (ok a, record w { db = db })
settle w (err e, db) = (err e, w)

-- A failure of SQLite rolls back too.
abbrev pub attempt :
    {A : Type 0} → World → Option String → Result Error A × Db → Result Error A × World
attempt w none r = settle w r
attempt w (some message) r = (err (operational_error message), w)

-- `with self.db.connect() as conn: ...`.
unfoldable pub connect : {A : Type 0} → Tx A → M A
connect body w = attempt (advance w) (w.fault w.tick) (body (w.clock w.tick) (advance w).db)

-- `utcnow_text()`.
abbrev pub utcnow : M ℕ
utcnow w = (ok (w.clock w.tick), w)
