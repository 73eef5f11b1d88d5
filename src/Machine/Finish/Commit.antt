-- ===== src/Machine/Finish/Commit.antt =====
-- `finish_step` is one atomic transition, whatever other processes commit between its reads and its
-- write, and whatever SQLite does.
use runspool.Prelude.{
  ℕ, zero, suc, ◌≡◌, refl, String, Bool, true, false, not, ◌||◌, Option, none, some, [], ◌∷◌, inl,
  inr, Bool-cases, arith,
}
use runspool.Prelude.Exec.{Result, ok, err, continue, ◌>>=◌}
use runspool.Machine.Boundary.{boundary}
use runspool.Machine.Boundary.Reading.{boundary-Reads, get_task-Reads, get_task-Row}
use runspool.Machine.Finish.{
  attempts, move, with_cancel, hooks, read_back, is_stale_claim, requires, after_move, resolve,
  finish_rounds, finish_step, or_else,
}
use runspool.Machine.Finish.Hooks.{IsPlainChange, hooks-IsPlain, with_cancel-IsPlain}
use runspool.Machine.Outcome.{StateMachine, Outcome, Change, is_executing}
use runspool.Models.{Error, transition_committed}
use runspool.Store.Interleaving.{
  Idle, here, Idle-trans, IsPlainResult, Untouched, untouched, read_then,
}
use runspool.Store.Repository.{Hook, get_task, task_key}
use runspool.Store.Table.{find}
use runspool.Store.Repository.Cas.{Applied}
use runspool.Store.Repository.Transition.{TransitionEnds, kept, changed, transition-Ends}
use runspool.Store.Rows.{Task, Db}
use runspool.Store.World.{World, M}

-- After a commit the task is read, or the error says that the commit stands.
abbrev pub IsReadBack : ℕ → Result Error (Option Task) → Type 0
IsReadBack i (ok t) = Unit
IsReadBack i (err e) = e ≡ transition_committed i

module _ (m : StateMachine) (i : ℕ) (o : Outcome) (token : Option String) where
  -- The one commit of a call of `finish_step`: the row that the decision was made from, as it stood in
  -- the database at `decided_at`, the decision, and the transaction, which began at `begun`, with
  -- nothing but what others do since the row was read, and left `db`.
  pub record IsCommit (begun : World) (db : Db) : Type 0 where
    pub seen : Task
    pub executing : is_executing seen.status ≡ true
    pub claimed : is_stale_claim token seen ≡ false
    pub decided_at : World
    pub read : find task_key i decided_at.db.tasks ≡ some seen
    pub since : Idle decided_at begun
    pub decided_by : World
    pub change : Change
    pub decision :
        boundary m seen o seen.terminate_requested seen.pause_requested decided_at
        ≡ (ok change, decided_by)
    pub also : Option Hook
    pub hooked : hooks m seen o change.fields ≡ ok also
    pub now : ℕ
    pub applied :
        Applied i change.fields
          (seen.status ∷ [])
          (requires seen token)
          change.events
          (with_cancel m i change.fields also)
          now
          begun.db
          db

  -- How a call ends: without a change of its own, or with one commit, of a decision for what the
  -- call itself read.
  pub data FinishEnds (w : World) : Result Error (Option Task) × World → Type 0 where
    undone :
        {r : Result Error (Option Task)} {w' : World}
        → Idle w w'
        → IsPlainResult r
        → FinishEnds w (r, w')
    committed :
        {r : Result Error (Option Task)} {w' : World} (u : World) (db : Db)
        → Idle w u
        → (c : IsCommit u db) → Idle w c.decided_at
        → Idle (record u { db = db }) w'
        → IsReadBack i r
        → FinishEnds w (r, w')

  ends_undone :
      (w : World) (r : Result Error (Option Task) × World) → Untouched w r → FinishEnds w r
  ends_undone w (r, w') (untouched h p) = undone h p

  ends_later :
      (v w : World) (r : Result Error (Option Task) × World)
      → Idle w v
      → FinishEnds v r
      → FinishEnds w r
  ends_later v w (r, w') h (undone k p) = undone (Idle-trans h k) p
  ends_later v w (r, w') h (committed u db k c b l p) =
      committed u db (Idle-trans h k) c (Idle-trans h b) l p

  -- Reading the task back changes nothing more.
  data BackEnds (w : World) : Result Error (Option Task) × World → Type 0 where
    back :
        {r : Result Error (Option Task)} {w' : World}
        → Idle w w'
        → IsReadBack i r
        → BackEnds w (r, w')

  retried :
      (n : ℕ) (w : World) (r : Result Error (Option Task) × World)
      → Untouched w r
      → ((v : World) → BackEnds v (read_back n i v))
      → BackEnds w (or_else (read_back n i) r)
  retried n w (ok t, v) (untouched h p) k = back h tt
  retried n w (err e, v) (untouched h p) k = back_later h (k v)
    where
      back_later : {r : Result Error (Option Task) × World} → Idle w v → BackEnds v r → BackEnds w r
      back_later h (back l p) = back (Idle-trans h l) p

  read_back-ends : (n : ℕ) (w : World) → BackEnds w (read_back n i w)
  unfolding read_back
  read_back-ends zero w = back here refl
  read_back-ends (suc n) w = retried n w (get_task i w) ((get_task-Reads i).of w) (read_back-ends n)

  ends_committed :
      (w u : World) (db : Db) (r : Result Error (Option Task) × World)
      → Idle w u
      → (c : IsCommit u db) → Idle w c.decided_at
      → BackEnds (record u { db = db }) r
      → FinishEnds w r
  ends_committed w u db (r, w') h c b (back l p) = committed u db h c b l p

  -- The last statement of a round, after the compare-and-set.
  moved_ends :
      (w v : World)
      → Idle w v
      → (fields : _) (expect : _) (require : _) (events : _) (also : Option Hook)
        (again : M (Option Task)) (r : Result Error Bool × World)
      → TransitionEnds i fields expect require events also v r
      → ((u : World) (now : ℕ) (db : Db)
          → Idle w u
          → Applied i fields expect require events also now u.db db
          → (c : IsCommit u db) × Idle w c.decided_at)
      → ((u : World) → FinishEnds u (again u))
      → FinishEnds w (continue (after_move again i) r)
  moved_ends w v b fields expect require events also again (err e, u) (kept h p s) c k =
      undone (Idle-trans b h) p
  moved_ends w v b fields expect require events also again (ok x, u) (kept h p s) c k =
      rw s (ends_later u w _ (Idle-trans b h) (k u))
  moved_ends w v b fields expect require events also again _ (changed u now db h applied) c k =
      let (commit, read) = c u now db (Idle-trans b h) applied in
      ends_committed w u db _ (Idle-trans b h) commit read (read_back-ends 3 (record u { db = db }))

  -- The compare-and-set of a decided change, once its hook is known.
  hooked_ends :
      (again : M (Option Task))
      → ((v : World) → FinishEnds v (again v))
      → (t : Task) (change : Change) (w v : World) → find task_key i w.db.tasks ≡ some t
      → Idle w v
      → is_executing t.status ≡ true
      → is_stale_claim token t ≡ false
      → boundary m t o t.terminate_requested t.pause_requested w ≡ (ok change, v)
      → (r : Result Error (Option Hook)) → hooks m t o change.fields ≡ r
      → IsPlainChange r
      → FinishEnds w (
          continue
            (λ also.
              move m i change.fields (t.status ∷ []) (requires t token) change.events also
              >>= after_move again i)
            (r, v))
  unfolding move
  hooked_ends again k t change w v row b busy fresh decision (err e) hooked plain = undone b plain
  hooked_ends again k t change w v row b busy fresh decision (ok also) hooked plain =
      moved_ends w v b change.fields (t.status ∷ []) (requires t token) change.events
        (with_cancel m i change.fields also) again _
        (transition-Ends i change.fields (t.status ∷ []) (requires t token) change.events
          (with_cancel m i change.fields also) (with_cancel-IsPlain m i change.fields also plain) v)
        (λ u now db since applied. (
          record {
            read = row;
            since = since;
            seen = t;
            executing = busy;
            claimed = fresh;
            decided_at = w;
            decided_by = v;
            change = change;
            decision = decision;
            also = also;
            hooked = hooked;
            now = now;
            applied = applied;
          },
          here,
        ))
        k

  -- One round of the loop.
  resolve_ends :
      (again : M (Option Task))
      → ((v : World) → FinishEnds v (again v))
      → (t : Option Task) (w : World) → find task_key i w.db.tasks ≡ t
      → FinishEnds w (resolve m i o token again t w)
  unfolding resolve
  resolve_ends again k none w row = undone here tt
  resolve_ends again k (some t) w row =
      elim (Bool-cases (not (is_executing t.status) || is_stale_claim token t)) [
        | inl skip ↦ rw skip (undone here tt)
        | inr go ↦ rw go (
            read_then FinishEnds ends_undone
              (boundary m t o t.terminate_requested t.pause_requested) _
              (boundary-Reads m t o t.terminate_requested t.pause_requested) w
              λ change v decision b.
                hooked_ends again k t change w v row b (ground arith) (ground arith) decision _ refl
                  (hooks-IsPlain m t o change.fields))
      ]

  rounds_end : (n : ℕ) (w : World) → FinishEnds w (finish_rounds n m i o token w)
  unfolding finish_rounds
  rounds_end zero w = ends_undone w _ ((get_task-Reads i).of w)
  rounds_end (suc n) w =
      read_then FinishEnds ends_undone (get_task i) _ (get_task-Reads i) w λ t v e h.
        ends_later v w _ h
          (resolve_ends (finish_rounds n m i o token) (rounds_end n) t v (get_task-Row i w v t e))

  -- Whatever the others do and whatever fails, a call of `finish_step` ends in one of two ways: it
  -- has changed nothing, and does not raise `TransitionCommitted`; or it has made one commit, the
  -- transition that was decided for the task's row as it stood at a moment of the call, executing and
  -- claimed by the given token if there is one, with no change of its own in between, and then returns
  -- or raises `TransitionCommitted`.
  pub finish_step-Ends : (w : World) → FinishEnds w (finish_step m i o token w)
  unfolding finish_step
  finish_step-Ends w = rounds_end attempts w
