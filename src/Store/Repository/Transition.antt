-- ===== src/Store/Repository/Transition.antt =====
-- How a call of `transition` ends, whatever other processes commit and whatever SQLite does.
use mathlib.Core.Path.{subst}
use runspool.Prelude.{
  ℕ, ◌≡◌, refl, sym, String, Bool, true, false, ◌||◌, Option, none, some, List, inl, inr,
  Bool-cases,
}
use runspool.Prelude.Exec.{Result, ok, err, pure, ◌>>◌}
use runspool.Models.{Error, TaskStatus, status_eq}
use runspool.Store.Columns.{Cell}
use runspool.Store.Events.{insert_events}
use runspool.Store.Interleaving.{Idle, here, pass, IsPlainResult}
use runspool.Store.Items.Errors.{IsPlainOption}
use runspool.Store.Plain.{IsPlainTx, plain-bind, plain-pure, plain-insert_events}
use runspool.Store.Repository.{
  Hook, run_hook, transition_tx, transition, if_changed, is_empty, has_unwritable,
}
use runspool.Store.Repository.Cas.{Applied, transition_tx-Applied}
use runspool.Store.Rows.{Task, Event, Db}
use runspool.Store.World.{World, advance, attempt, connect}

abbrev pub SaysNo : Result Error Bool → Type 0
SaysNo (ok c) = c ≡ false
SaysNo (err e) = Unit

module _ (i : ℕ) (fields : List Cell) (expect : List TaskStatus) (require : List Cell)
    (es : List Event) (also : Option Hook) where
  -- Either this process has changed nothing, and the answer is false or a plain error; or it has
  -- changed the row, in the one commit of a transaction that began at `u`.
  pub data TransitionEnds (w : World) : Result Error Bool × World → Type 0 where
    kept :
        {r : Result Error Bool} {w' : World}
        → Idle w w'
        → IsPlainResult r
        → SaysNo r
        → TransitionEnds w (r, w')
    changed :
        (u : World) (now : ℕ) (db' : Db)
        → Idle w u
        → Applied i fields expect require es also now u.db db'
        → TransitionEnds w (ok true, record u { db = db' })

  module _ (plain : IsPlainOption also) where
    plain_rest : (o : Option Hook) (now : ℕ) → IsPlainOption o → IsPlainTx (run_hook o now)
    plain_rest none now p = plain-pure tt
    plain_rest (some h) now p = p.at now

    plain_if_changed :
        (now : ℕ) (db : Db) (found : Option (List Task))
        → IsPlainResult
            (if_changed db found (insert_events i es now >> (run_hook also now >> pure true))).0
    plain_if_changed now db none = tt
    plain_if_changed now db (some tasks) =
        (plain-bind _ _ (plain-insert_events i es now)
            (λ _. plain-bind _ _ (plain_rest also now plain) (λ _. plain-pure true))).of
          (record db { tasks = tasks })

    plain-transition_tx :
        (now : ℕ) (db : Db) → IsPlainResult (transition_tx i fields expect require es also now db).0
    unfolding transition_tx
    plain-transition_tx now db = plain_if_changed now db _

    connected :
        (w u : World) (fault : Option String) (now : ℕ) (r : Result Error Bool × Db)
        → Idle w u
        → transition_tx i fields expect require es also now u.db ≡ r
        → IsPlainResult r.0
        → TransitionEnds w (attempt u fault r)
    connected w u (some message) now r h e p = kept h tt tt
    connected w u none now (err x, db) h e p = kept h p tt
    connected w u none now (ok b, db) h e p =
        elim (transition_tx-Applied i fields expect require es also now u.db db b e) [
          | inl (yes_b, applied) ↦
              subst (λ (c : Bool). TransitionEnds w (ok c, record u { db = db })) (sym yes_b)
                (changed u now db h applied)
          | inr (no_b, same) ↦
              subst (λ (d : Db). TransitionEnds w (ok b, record u { db = d })) (sym same)
                (kept h tt no_b)
        ]

    -- Whatever other processes commit and whatever SQLite does, a call of `transition` whose hook
    -- raises no `TransitionCommitted` ends in one of two ways: this process has changed nothing, and
    -- it answers false or raises an error other than `TransitionCommitted`; or it answers true, and
    -- has made its change in one commit.
    pub transition-Ends :
        (w : World) → TransitionEnds w (transition i fields expect require es also w)
    unfolding transition connect
    transition-Ends w = elim (Bool-cases (is_empty expect)) [
      | inl empty ↦ rw empty (kept here tt tt)
      | inr more ↦ rw more (elim (Bool-cases (has_unwritable fields || has_unwritable require)) [
        | inl bad ↦ rw bad (kept here tt tt)
        | inr good ↦ rw good (
            connected w (advance w) (w.fault w.tick) (w.clock w.tick) _ (pass here) refl
              (plain-transition_tx (w.clock w.tick) (advance w).db))
      ])
    ]
