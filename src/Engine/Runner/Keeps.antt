-- ===== src/Engine/Runner/Keeps.antt =====
-- engine/runner.py: while a step runs, and while what it returned is written, nothing takes the task
-- from its worker: rules for building computations, and the calls that `_body` makes.
use mathlib.Core.Path.{subst}
use runspool.Prelude.{
  ℕ, String, Bool, true, false, ◌≡◌, refl, sym, ap, ◌∙◌, Option, none, some, List, [], ◌∷◌,
  some_inj, ◌⊎◌, inl, inr, Bool-cases, if◌then◌else◌,
}
use runspool.Prelude.Exec.{Result, ok, err, Exec, pure, raise, continue, ◌>>=◌}
use runspool.Engine.Artifacts.Recorded.{RecordedArtifact}
use runspool.Engine.Runner.Context.{
  as_raised, raising, perform, beat_once, stop_requested, throttled, as_progress,
}
use runspool.Engine.Runner.Held.{IsHeld, HoldsIn, Holds, Keeping, Keeping-connect, HoldsIn-same}
use runspool.Engine.Steps.{Script, finish, fault, beat, asks_stop}
use runspool.Machine.Outcome.{is_executing}
use runspool.Models.{Error}
use runspool.Store.Artifacts.{insert_all, record_all}
use runspool.Store.Columns.{Cell, write_all}
use runspool.Store.Repository.{
  task_key, get_task, heartbeat, if_changed, Update, update_fields, prepare_updates, write_prepared,
}
use runspool.Store.Repository.Updates.{prepare_updates-SameLifecycle}
use runspool.Store.Rows.{Task, Db}
use runspool.Store.Table.{find, update_row, update_row-eq-some, find-replace, find_key}
use runspool.Store.World.{World, M, utcnow}

module _ (i : ℕ) (token : Option String) (name : String) where
  module _ {E A : Type 0} where
    pub Keeping-pure : (a : A) → Keeping i token name {E = E} (pure a)
    Keeping-pure a = record { of = λ w h. h }

    pub Keeping-raise : (e : E) → Keeping i token name {A = A} (raise e)
    Keeping-raise e = record { of = λ w h. h }

    pub Keeping-result : (r : Result E A) → Keeping i token name (λ w. (r, w))
    Keeping-result r = record { of = λ w h. h }

    pub Keeping-if :
        (b : Bool) (m n : Exec E World A)
        → Keeping i token name m
        → Keeping i token name n
        → Keeping i token name (if b then m else n)
    Keeping-if true m n k l = k
    Keeping-if false m n k l = l

  module _ {E A B : Type 0} where
    continue-Holds :
        (f : A → Exec E World B)
        → ((a : A) → Keeping i token name (f a))
        → (r : Result E A × World) → Holds i token name r.1
        → Holds i token name (continue f r).1
    continue-Holds f k (ok a, w) h = (k a).of w h
    continue-Holds f k (err e, w) h = h

    pub Keeping-bind :
        (m : Exec E World A) (f : A → Exec E World B)
        → Keeping i token name m
        → ((a : A) → Keeping i token name (f a))
        → Keeping i token name (m >>= f)
    Keeping-bind m f g k = record { of = λ w h. continue-Holds f k (m w) (g.of w h) }

  module _ {A : Type 0} where
    as_raised-Holds :
        (r : Result Error A × World) → Holds i token name r.1 → Holds i token name (as_raised r).1
    as_raised-Holds (ok a, w) h = h
    as_raised-Holds (err e, w) h = h

    pub Keeping-raising : (m : M A) → Keeping i token name m → Keeping i token name (raising m)
    Keeping-raising m k = record { of = λ w h. as_raised-Holds (m w) (k.of w h) }

  -- A write to the row that leaves its status, step and claim alone.
  module _ (f : Task → Task) (same : (t : Task) → IsHeld i token name t → IsHeld i token name (f t))
      (key : (t : Task) → (f t).id ≡ t.id) where
    changed-HoldsIn :
        (db : Db) (test : Task → Bool) (o : Option (List Task))
        → update_row task_key i test f db.tasks ≡ o
        → HoldsIn i token name db
        → HoldsIn i token name (if_changed db o (pure true)).1
    changed-HoldsIn db test none e h = h
    changed-HoldsIn db test (some tasks) e h =
        let (t, found, _, new) = update_row-eq-some task_key i test f db.tasks tasks e in
        record {
          row = f t;
          left =
              ap (find task_key i) new
              ∙ find-replace task_key i (f t) db.tasks t found
                  (key t ∙ find_key task_key i db.tasks t found);
          held = same t (subst (IsHeld i token name) (some_inj (sym h.left ∙ found)) h.held);
        }

  heartbeat-Keeping :
      (at : ℕ) (progress : Option (Option String)) (given : Option String)
      → Keeping i token name (heartbeat i at progress given)
  unfolding heartbeat
  heartbeat-Keeping at none given = Keeping-connect i token name _ λ now db h.
      changed-HoldsIn _ (λ t k. record { busy = k.busy; claim = k.claim; step = k.step })
        (λ t. refl) db _ _ refl h
  heartbeat-Keeping at (some progress) given = Keeping-connect i token name _ λ now db h.
      changed-HoldsIn _ (λ t k. record { busy = k.busy; claim = k.claim; step = k.step })
        (λ t. refl) db _ _ refl h

  prepared-Keeping :
      (us : List Update) (given : Option String) (r : Result Error (List Cell))
      → prepare_updates us ≡ r
      → Keeping i token name (write_prepared i given r)
  prepared-Keeping us given (err e) h = Keeping-raise e
  prepared-Keeping us given (ok cells) h = Keeping-connect i token name _ λ now db held.
      changed-HoldsIn (λ t. record (write_all cells t) { updated_at = now })
        (λ t k.
          let s = prepare_updates-SameLifecycle us cells t h in
          record {
            busy = ap is_executing s.status ∙ k.busy;
            claim = moved (s.claim_token) k.claim;
            step = s.step ∙ k.step;
          })
        (λ t. (prepare_updates-SameLifecycle us cells t h).id) db _ _ refl held
    where
      moved :
          {a b : Option String}
          → b ≡ a
          → (token ≡ none) ⊎ (a ≡ token)
          → (token ≡ none) ⊎ (b ≡ token)
      moved e (inl n) = inl n
      moved e (inr c) = inr (e ∙ c)

  pub update_fields-Keeping :
      (us : List Update) (given : Option String) → Keeping i token name (update_fields i us given)
  unfolding update_fields
  update_fields-Keeping [] given = Keeping-pure false
  update_fields-Keeping (u ∷ us) given =
      prepared-Keeping (u ∷ us) given (prepare_updates (u ∷ us)) refl

  insert_all-tasks :
      (step : String) (run : Option ℕ) (now : ℕ) (rs : List RecordedArtifact) (db : Db)
      → (insert_all i step run now rs db).tasks ≡ db.tasks
  unfolding insert_all
  insert_all-tasks step run now [] db = refl
  insert_all-tasks step run now (r ∷ rs) db = insert_all-tasks step run now rs _

  pub record_all-Keeping :
      (step : String) (rs : List RecordedArtifact) (run : Option ℕ)
      → Keeping i token name (record_all i step rs run)
  unfolding record_all
  record_all-Keeping step [] run = Keeping-pure tt
  record_all-Keeping step (r ∷ rs) run =
      Keeping-connect i token name _
        λ now db h. HoldsIn-same i token name db _ (insert_all-tasks step run now (r ∷ rs) db) h

  get_task-Keeping : Keeping i token name (get_task i)
  unfolding get_task
  get_task-Keeping = Keeping-connect i token name _ λ now db h. h

  beat_once-Keeping :
      (given : Option String) (progress : Option String)
      → Keeping i token name (beat_once i given progress)
  unfolding beat_once
  beat_once-Keeping given progress =
      Keeping-bind utcnow _ (record { of = λ w h. h })
        λ now.
          Keeping-bind _ _ (heartbeat-Keeping now (as_progress progress) given) λ _. Keeping-pure tt

  stop_requested-Keeping : Keeping i token name (stop_requested i)
  unfolding stop_requested
  stop_requested-Keeping = Keeping-bind (get_task i) _ get_task-Keeping λ task. Keeping-pure _

  -- Whatever the code of the step does.
  module _ {A : Type 0} (given : Option String) where
    perform-Holds :
        (s : Script A) (last : Option ℕ) (w : World)
        → Holds i token name w
        → Holds i token name (perform i given last s w).1
    unfolding perform
    perform-Holds (finish a) last w h = h
    perform-Holds (fault e) last w h = h
    perform-Holds (beat now progress k) last w h = elim (Bool-cases (throttled last now)) [
      | inl early ↦ rw (early, perform) (perform-Holds (k (ok tt)) last w h)
      | inr due ↦
          rw (due, perform)
            (perform-Holds (k (beat_once i given progress w).0) (some now)
              (beat_once i given progress w).1 ((beat_once-Keeping given progress).of w h))
    ]
    perform-Holds (asks_stop k) last w h =
        perform-Holds (k (stop_requested i w).0) last (stop_requested i w).1
          (stop_requested-Keeping.of w h)

    pub perform-Keeping :
        (s : Script A) (last : Option ℕ) → Keeping i token name (perform i given last s)
    perform-Keeping s last = record { of = λ w h. perform-Holds s last w h }
