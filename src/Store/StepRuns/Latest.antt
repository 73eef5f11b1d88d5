-- ===== src/Store/StepRuns/Latest.antt =====
-- step_run_log.py: `has_degraded` looks at the latest run of each step.
use runspool.Prelude.{
  ℕ, String, Bool, true, false, ◌≡◌, ◌≢◌, ◌↔◌, refl, sym, ap, ◌∙◌, Option, none, some, List, [],
  ◌∷◌, inl, inr, arith, Bool-cases, if◌then◌else◌, ◌==◌, string_eq, nat_eq, beq_refl, beq_ne,
  ne_beq,
}
use runspool.Prelude.Exec.{ok}
use runspool.Store.Quiet.{IsQuiet}
use runspool.Store.Table.{select}
use runspool.Store.World.{World, connect, advance}
use runspool.Store.Rows.{RunStatus, degraded, StepRun}
use runspool.Store.StepRuns.{is_degraded, put, latest, any_degraded, has_degraded, list_for_task}
use text.Mathlib.TextEquality.{eq_iff}

-- The last run of a step in the log, and the runs before it count no more.
abbrev pub last_status : List StepRun → String → Option RunStatus → Option RunStatus
last_status [] step found = found
last_status (r ∷ rs) step found =
    last_status rs step (if r.step == step then some r.status else found)

-- What a table of statuses holds for a step.
abbrev lookup : List (String × RunStatus) → String → Option RunStatus
lookup [] step = none
lookup ((s, status) ∷ rest) step = if s == step then some status else lookup rest step

lookup-put :
    (found : List (String × RunStatus)) (s step : String) (status : RunStatus)
    → lookup (put s status found) step ≡ (if s == step then some status else lookup found step)
lookup-put [] s step status = refl
lookup-put ((k, old) ∷ rest) s step status =
    ground (arith, lookup-put rest s step status, eq_iff k s, eq_iff s step, eq_iff k step)

lookup-latest :
    (runs : List StepRun) (found : List (String × RunStatus)) (step : String)
    → lookup (latest runs found) step ≡ last_status runs step (lookup found step)
unfolding latest
lookup-latest [] found step = refl
lookup-latest (r ∷ rs) found step =
    lookup-latest rs (put r.step r.status found) step
    ∙ ap (last_status rs step) (lookup-put found r.step step r.status)

-- No step stands twice in the table.
abbrev Unique : List (String × RunStatus) → Type 0
Unique [] = Unit
Unique ((s, status) ∷ rest) = (lookup rest s ≡ none) × Unique rest

put-Unique :
    (found : List (String × RunStatus)) (s : String) (status : RunStatus)
    → Unique found
    → Unique (put s status found)
put-Unique [] s status u = (refl, tt)
put-Unique ((k, old) ∷ rest) s status u = elim (Bool-cases (k == s)) [
  | inl same ↦ rw same (u.0, u.1)
  | inr other ↦ rw other (
    lookup-put rest s k status ∙ rw (beq_ne s k (differ k s other)) u.0,
    put-Unique rest s status u.1,
  )
]
  where
    differ : (k s : String) → (k == s) ≡ false → s ≢ k
    differ k s h = λ e. ne_beq k s h (sym e)

latest-Unique :
    (runs : List StepRun) (found : List (String × RunStatus))
    → Unique found
    → Unique (latest runs found)
unfolding latest
latest-Unique [] found u = u
latest-Unique (r ∷ rs) found u =
    latest-Unique rs (put r.step r.status found) (put-Unique found r.step r.status u)

is_degraded_iff : (s : RunStatus) → (is_degraded s ≡ true) ↔ (s ≡ degraded)
is_degraded_iff degraded = ground arith
is_degraded_iff _ = ground arith

other_key :
    (found : List (String × RunStatus)) (s step : String)
    → lookup found s ≡ none
    → lookup found step ≡ some degraded
    → (s == step) ≡ false
other_key found s step h k =
    beq_ne s step (λ (e : s ≡ step). absent (sym h ∙ ap (lookup found) e ∙ k))
  where
    absent : none ≡ some degraded → ⊥
    absent a = cc

some_degraded :
    (found : List (String × RunStatus))
    → Unique found
    → any_degraded found ≡ true
    → (step : String) × (lookup found step ≡ some degraded)
unfolding any_degraded
some_degraded [] u h = absurd (cc)
some_degraded ((s, status) ∷ rest) u h = elim (Bool-cases (is_degraded status)) [
  | inl bad ↦ (s, rw (beq_refl s) (ap some ((is_degraded_iff status).0 bad)))
  | inr fine ↦
      let (step, e) = some_degraded rest u.1 (ground arith) in
      (step, rw (other_key rest s step u.0 e) e)
]

any_degraded-lookup :
    (found : List (String × RunStatus)) (step : String)
    → lookup found step ≡ some degraded
    → any_degraded found ≡ true
unfolding any_degraded
any_degraded-lookup [] step h = absurd (cc)
any_degraded-lookup ((s, status) ∷ rest) step h =
    ground (arith, any_degraded-lookup rest step, is_degraded_iff status)

-- When nobody else writes and nothing fails, `has_degraded` answers whether there is a step whose latest run of the task, in the order
-- of the log, ended degraded; earlier runs of that step do not count.
pub has_degraded-Latest :
    (i : ℕ) (w : World)
    → IsQuiet w
    → (b : Bool) × ((has_degraded i w).0 ≡ ok b)
      × ((b ≡ true) ↔ (
          (step : String) × (last_status (select (λ r. r.task_id == i) w.db.step_runs) step none
            ≡ some degraded)))
unfolding has_degraded list_for_task connect advance
has_degraded-Latest i w q =
    let runs = select (λ r. r.task_id == i) w.db.step_runs in
    (
      any_degraded (latest runs []),
      rw (q.sound w.tick, q.alone w.tick w.db) refl,
      (
        λ h.
            let (step, e) = some_degraded (latest runs []) (latest-Unique runs [] tt) h in
            (step, sym (lookup-latest runs [] step) ∙ e),
        λ p. any_degraded-lookup (latest runs []) p.0 (lookup-latest runs [] p.0 ∙ p.1),
      ),
    )
