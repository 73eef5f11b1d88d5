-- ===== src/Store/Repository/Claims.antt =====
-- repository.py: `claim_queued` gives a task to one worker, and a worker that lost it writes no more.
use runspool.Prelude.{
  ℕ, String, Bool, true, false, ◌≡◌, ◌≢◌, refl, sym, ap, ◌∙◌, Option, none, some, List, ◌∷◌, ◌⊎◌,
  inl, inr, arith, ◌==◌, nat_eq, nat_beq_iff, option_eq, string_eq, option_beq_iff, not, ◌&&◌,
  Bool-cases,
}
use runspool.Prelude.Exec.{Result, ok, err, Exec, pure, ◌>>◌}
use runspool.Models.{Error, queued, running, status_eq, status_beq_iff}
use runspool.Store.Columns.{Cell}
use runspool.Store.Events.{insert_event}
use runspool.Store.Repository.{
  task_key, claim_queued, heartbeat, update_fields, if_changed, insert_if, prepare_updates, Update,
}
use runspool.Store.Rows.{Task, Event, Db}
use runspool.Store.Table.{
  find, replace, update_row, find-replace, find-replace_ne, find_key, update_row-eq-some,
  update_row-eq-none,
}
use runspool.Store.World.{World, Tx, advance, connect, attempt}

-- A method that did not succeed and left the database as the others did.
pub record IsRefused (w : World) (r : Result Error Bool × World) : Type 0 where
  pub refused : r.0 ≢ ok true
  pub kept : r.1.db ≡ w.others w.tick w.db

attempt-IsRefused :
    (w : World) (fault : Option String)
    → IsRefused w (attempt (advance w) fault (ok false, (advance w).db))
unfolding advance
attempt-IsRefused w none = record { refused = λ h. cc; kept = refl }
attempt-IsRefused w (some message) = record { refused = λ h. cc; kept = refl }

connect-IsRefused :
    (w : World) (body : Tx Bool)
    → ((now : ℕ) → body now (advance w).db ≡ (ok false, (advance w).db))
    → IsRefused w (connect body w)
unfolding connect
connect-IsRefused w body h = rw (h (w.clock w.tick)) (attempt-IsRefused w (w.fault w.tick))

-- The transaction of a method on one row whose condition fails there.
unmet :
    (i : ℕ) (test : Task → Bool) (f : ℕ → Task → Task) (rest : ℕ → Exec Error Db Bool) (w : World)
    (t : Task)
    → find task_key i (w.others w.tick w.db).tasks ≡ some t
    → test t ≡ false
    → IsRefused w (
        connect
          (λ now db. if_changed db (update_row task_key i test (f now) db.tasks) (rest now))
          w)
unfolding advance
unmet i test f rest w t e h =
    connect-IsRefused w _
      (λ now. rw (update_row-eq-none task_key i test (f now) (w.others w.tick w.db).tasks t e h))

-- A claim of a task that is not queued, or that is to be terminated, fails and changes nothing.
pub claim_queued-IsRefused :
    (i : ℕ) (worker : String) (at : ℕ) (token : Option String) (event : Option Event) (w : World)
    (t : Task)
    → find task_key i (w.others w.tick w.db).tasks ≡ some t
    → (t.status ≢ queued) ⊎ (t.terminate_requested ≡ true)
    → IsRefused w (claim_queued i worker at token event w)
unfolding claim_queued
claim_queued-IsRefused i worker at token event w t e h =
    unmet i _ _ _ w t e (ground (arith, status_beq_iff t.status queued))

-- A worker whose claim the task no longer has, because it was released or claimed anew, can report
-- neither a heartbeat nor progress: the call does not succeed, and changes nothing.
pub heartbeat-IsRefused :
    (i at : ℕ) (progress : Option (Option String)) (token : String) (w : World) (t : Task)
    → find task_key i (w.others w.tick w.db).tasks ≡ some t
    → t.claim_token ≢ some token
    → IsRefused w (heartbeat i at progress (some token) w)
unfolding heartbeat
heartbeat-IsRefused i at progress token w t e h =
    unmet i _ _ _ w t e (ground (arith, option_beq_iff t.claim_token (some token)))

-- A worker whose claim the task no longer has cannot write fields of it with that claim, fields that
-- could be written with another: the call does not succeed, and changes nothing.
pub update_fields-IsRefused :
    (i : ℕ) (u : Update) (us : List Update) (cells : List Cell) (token : String) (w : World)
    (t : Task)
    → prepare_updates (u ∷ us) ≡ ok cells
    → find task_key i (w.others w.tick w.db).tasks ≡ some t
    → t.claim_token ≢ some token
    → IsRefused w (update_fields i (u ∷ us) (some token) w)
unfolding update_fields
update_fields-IsRefused i u us cells token w t p e h =
    rw p (unmet i _ _ _ w t e (ground (arith, option_beq_iff t.claim_token (some token))))

insert_if-tasks :
    (i : ℕ) (event : Option Event) (now : ℕ) (db : Db)
    → ((insert_if i event now >> pure true) db).1.tasks ≡ db.tasks
unfolding insert_event
insert_if-tasks i none now db = refl
insert_if-tasks i (some event) now db = refl

-- A claim that took effect: the row that it found, and the row that it left.
pub record IsClaimed (i : ℕ) (worker : String) (at : ℕ) (token : Option String) (before after : Db)
    : Type 0 where
  pub row : Task
  pub found : find task_key i before.tasks ≡ some row
  pub queued : row.status ≡ queued
  pub goes_on : row.terminate_requested ≡ false
  pub row' : Task
  pub left : find task_key i after.tasks ≡ some row'
  pub running : row'.status ≡ running
  pub locked : row'.locked_by ≡ some worker
  pub locked_at : row'.locked_at ≡ some at
  pub holder : row'.claim_token ≡ token
  pub unscheduled : row'.next_retry_at ≡ none
  pub retries : row'.retry_count ≡ row.retry_count
  pub step : row'.step ≡ row.step
  pub others : (j : ℕ) → (j ≡ i) ⊎ (find task_key j after.tasks ≡ find task_key j before.tasks)

running_queued : running ≢ queued
running_queued h = cc

-- A method that succeeded ran its transaction.
connect_succeeds :
    (w w' : World) (fault : Option String) (r : Result Error Bool × Db)
    → attempt (advance w) fault r ≡ (ok true, w')
    → r ≡ (ok true, w'.db)
unfolding advance
connect_succeeds w w' none (ok b, db) h = cc
connect_succeeds w w' none (err e, db) h = absurd (cc)
connect_succeeds w w' (some message) r h = absurd (cc)

claimed_row : String → ℕ → Option String → ℕ → Task → Task
claimed_row worker at token now t = record t {
  status = running;
  locked_by = some worker;
  locked_at = some at;
  heartbeat_at = some at;
  claim_token = token;
  next_retry_at = none;
  updated_at = now;
}

changed_rows :
    (db db' : Db) (found : Option (List Task)) (rest : Exec Error Db Bool)
    → ((d : Db) → (rest d).1.tasks ≡ d.tasks)
    → if_changed db found rest ≡ (ok true, db')
    → (tasks : List Task) × (found ≡ some tasks) × (db'.tasks ≡ tasks)
changed_rows db db' none rest keeps h = absurd (cc)
changed_rows db db' (some tasks) rest keeps h = (
  tasks,
  refl,
  sym (ap (λ (r : Result Error Bool × Db). r.1.tasks) h) ∙ keeps (record db { tasks = tasks }),
)

written_claim :
    (i : ℕ) (worker : String) (at : ℕ) (token : Option String) (now : ℕ) (before after : Db)
    (t : Task)
    → find task_key i before.tasks ≡ some t
    → t.status == queued && not t.terminate_requested ≡ true
    → after.tasks ≡ replace task_key i (claimed_row worker at token now t) before.tasks
    → IsClaimed i worker at token before after
unfolding claimed_row
written_claim i worker at token now before after t found holds e =
    let new : Task = claimed_row worker at token now t in
    let id : t.id ≡ i = find_key task_key i before.tasks t found in
    record {
      row = t;
      found = found;
      queued = ground (arith, status_beq_iff t.status queued);
      goes_on = ground arith;
      row' = new;
      left = rw e (find-replace task_key i new before.tasks t found id);
      running = refl;
      locked = refl;
      locked_at = refl;
      holder = refl;
      unscheduled = refl;
      retries = refl;
      step = refl;
      others = λ j. elim (Bool-cases (j == i)) [
        | inl same ↦ inl (ground (arith, nat_beq_iff j i))
        | inr other ↦ inr (
            rw e
              (find-replace_ne task_key i j new before.tasks (ground (arith, nat_beq_iff j i)) id))
      ];
    }

-- A claim that succeeds found the task queued and not to be terminated, and left it running, with
-- this worker's lock and token and no scheduled time; its step and its count of retries stay, and
-- so does every other task.
pub claim_queued-IsClaimed :
    (i : ℕ) (worker : String) (at : ℕ) (token : Option String) (event : Option Event) (w w' : World)
    → claim_queued i worker at token event w ≡ (ok true, w')
    → IsClaimed i worker at token (w.others w.tick w.db) w'.db
unfolding claim_queued connect advance claimed_row
claim_queued-IsClaimed i worker at token event w w' h =
    let now = w.clock w.tick in
    let before = w.others w.tick w.db in
    let ran = connect_succeeds w w' (w.fault w.tick) _ h in
    let (tasks, changed, e) = changed_rows before w'.db _ _ (insert_if-tasks i event now) ran in
    let (t, found, holds, e') = update_row-eq-some task_key i _ _ before.tasks tasks changed in
    written_claim i worker at token now before w'.db t found holds (e ∙ e')

-- Of two claims of a task with nothing in between, at most the first succeeds.
pub claim_queued-Exclusive :
    (i : ℕ) (worker worker' : String) (at at' : ℕ) (token token' : Option String)
    (event event' : Option Event) (w w' : World)
    → claim_queued i worker at token event w ≡ (ok true, w')
    → w'.others w'.tick w'.db ≡ w'.db
    → IsRefused w' (claim_queued i worker' at' token' event' w')
claim_queued-Exclusive i worker worker' at at' token token' event event' w w' h quiet =
    let c = claim_queued-IsClaimed i worker at token event w w' h in
    claim_queued-IsRefused i worker' at' token' event' w' c.row' (rw quiet c.left)
      (inl (λ q. running_queued (sym c.running ∙ q)))
