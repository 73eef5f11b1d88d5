-- ===== src/Machine/Scheduler/Ends.antt =====
-- `_settle` releases a task in one atomic transition, whatever other processes commit between its
-- reads and its write, and whatever SQLite does.
use runspool.Prelude.{
  ℕ, zero, suc, ◌≡◌, refl, String, Bool, true, not, ◌||◌, Option, none, some, [], ◌∷◌, inl, inr,
  arith, Bool-cases, nat_eq, string_eq, option_eq,
}
use runspool.Prelude.Exec.{Result, ok, err, continue}
use runspool.Machine.Boundary.Reading.{get_task-Reads, get_task-Row}
use runspool.Machine.Finish.{attempts, move, with_cancel}
use runspool.Machine.Finish.Hooks.{with_cancel-IsPlain}
use runspool.Machine.Outcome.{StateMachine, is_executing}
use runspool.Machine.Scheduler.{
  settle_change, settle_requires, Seen, has_beaten, next_seen, settled, settle_once, settle_rounds,
  settle,
}
use runspool.Machine.Scheduler.Closed.{CloseEnds, close-Ends}
use runspool.Models.{Error, status_eq}
use runspool.Store.Interleaving.{Idle, here, Idle-trans, IsPlainResult, Untouched, untouched}
use runspool.Store.Repository.{get_task, task_key}
use runspool.Store.Table.{find}
use runspool.Store.Repository.Cas.{Applied}
use runspool.Store.Repository.Transition.{TransitionEnds, kept, changed, transition-Ends, SaysNo}
use runspool.Store.Rows.{Task, Db}
use runspool.Store.World.{World, M}

module _ (m : StateMachine) (i : ℕ) (reason : String) (check_alive : Bool)
    (no_retry : Option (String → Bool)) where
  -- The commit that released the task: its row as it stood in the database at `read_at`, and the
  -- transaction, with nothing but what others do in between.
  pub record IsRelease (begun : World) (db : Db) : Type 0 where
    pub seen : Task
    pub read_at : World
    pub read : find task_key i read_at.db.tasks ≡ some seen
    pub since : Idle read_at begun
    pub executing : is_executing seen.status ≡ true
    pub now : ℕ
    pub applied :
        Applied i
          (settle_change reason no_retry seen).fields
          (seen.status ∷ [])
          (settle_requires check_alive seen)
          (settle_change reason no_retry seen).events
          (with_cancel m i (settle_change reason no_retry seen).fields none)
          now
          begun.db
          db

  -- A settle changes nothing, and answers false or raises a plain error; or it has released the task
  -- in one commit, decided for what it has read itself, and what follows closes the task's step runs.
  pub data SettleEnds (w : World) : Result Error Bool × World → Type 0 where
    unsettled :
        {r : Result Error Bool} {w' : World}
        → Idle w w'
        → IsPlainResult r
        → SaysNo r
        → SettleEnds w (r, w')
    released :
        {r : Result Error Bool} {w' : World} (u : World) (db : Db)
        → Idle w u
        → (c : IsRelease u db) → Idle w c.read_at
        → CloseEnds m.step_runs i (record u { db = db }) (r, w')
        → SettleEnds w (r, w')

  ends_later :
      (v w : World) (r : Result Error Bool × World) → Idle w v → SettleEnds v r → SettleEnds w r
  ends_later v w _ h (unsettled k p s) = unsettled (Idle-trans h k) p s
  ends_later v w _ h (released u db k c b l) = released u db (Idle-trans h k) c (Idle-trans h b) l

  closed_ends :
      (w u : World) (db : Db) (r : Result Error Bool × World)
      → Idle w u
      → (c : IsRelease u db) → Idle w c.read_at
      → CloseEnds m.step_runs i (record u { db = db }) r
      → SettleEnds w r
  closed_ends w u db (r, w') h c b l = released u db h c b l

  read_ends :
      (w : World) (f : Option Task → M Bool) (r : Result Error (Option Task) × World)
      → Untouched w r
      → ((t : Option Task) (v : World) → r ≡ (ok t, v) → SettleEnds v (f t v))
      → SettleEnds w (continue f r)
  read_ends w f (ok t, v) (untouched h p) k = ends_later v w (f t v) h (k t v refl)
  read_ends w f (err e, v) (untouched h p) k = unsettled h p tt

  moved_ends :
      (w : World) (fields : _) (expect : _) (require : _) (events : _) (also : _) (again : M Bool)
      (r : Result Error Bool × World)
      → TransitionEnds i fields expect require events also w r
      → ((u : World) (now : ℕ) (db : Db)
          → Idle w u
          → Applied i fields expect require events also now u.db db
          → (c : IsRelease u db) × Idle w c.read_at)
      → ((v : World) → SettleEnds v (again v))
      → SettleEnds w (continue (settled m i again) r)
  moved_ends w fields expect require events also again (err e, v) (kept h p s) c k =
      unsettled h p tt
  moved_ends w fields expect require events also again (ok b, v) (kept h p s) c k =
      rw s (ends_later v w (again v) h (k v))
  moved_ends w fields expect require events also again _ (changed u now db h applied) c k =
      let (commit, read) = c u now db h applied in
      closed_ends w u db _ h commit read (close-Ends m i (record u { db = db }))

  once_ends :
      (again : Seen → M Bool)
      → ((s : Seen) (v : World) → SettleEnds v (again s v))
      → (seen : Seen) (t : Option Task) (w : World) → find task_key i w.db.tasks ≡ t
      → SettleEnds w (settle_once m i reason check_alive no_retry seen again t w)
  unfolding settle_once move
  once_ends again k seen none w row = unsettled here tt refl
  once_ends again k seen (some t) w row =
      elim (Bool-cases (not (is_executing t.status) || has_beaten check_alive seen t)) [
        | inl skip ↦ rw skip (unsettled here tt refl)
        | inr go ↦
            let change = settle_change reason no_retry t in
            let also = with_cancel m i change.fields none in
            rw go (
              moved_ends w change.fields (t.status ∷ []) (settle_requires check_alive t)
                change.events also (again (next_seen seen t)) _
                (transition-Ends i change.fields (t.status ∷ []) (settle_requires check_alive t)
                  change.events also (with_cancel-IsPlain m i change.fields none tt) w)
                (λ u now db since applied. (
                  record {
                    seen = t;
                    read_at = w;
                    read = row;
                    since = since;
                    executing = ground arith;
                    now = now;
                    applied = applied;
                  },
                  here,
                ))
                (k (next_seen seen t)))
      ]

  rounds_end :
      (n : ℕ) (seen : Seen) (w : World)
      → SettleEnds w (settle_rounds n m i reason check_alive no_retry seen w)
  unfolding settle_rounds
  rounds_end zero seen w = unsettled here tt refl
  rounds_end (suc n) seen w = read_ends w _ (get_task i w) ((get_task-Reads i).of w) (λ t v e.
      once_ends (settle_rounds n m i reason check_alive no_retry) (rounds_end n) seen t v
        (get_task-Row i w v t e))

  -- Whatever the others do and whatever fails, `_settle` either has changed nothing, and answers
  -- false or raises an error other than `TransitionCommitted`, or has released an executing task in
  -- one commit, decided for the task's row as it stood at a moment of the call. After that commit the
  -- task's step runs that are still running become interrupted, and nothing else of the database
  -- changes, and it answers true; or that fails, and it raises an error other than
  -- `TransitionCommitted`; a store without step runs has none to close.
  pub settle-Ends : (w : World) → SettleEnds w (settle m i reason check_alive no_retry w)
  unfolding settle
  settle-Ends w = rounds_end attempts none w
