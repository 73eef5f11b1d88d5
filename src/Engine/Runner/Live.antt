-- ===== src/Engine/Runner/Live.antt =====
-- engine/runner.py: `execute` returns, and leaves no task with a worker.
use mathlib.Core.Path.{subst}
use runspool.Prelude.{
  ℕ, String, Bool, ◌≡◌, refl, sym, ap, ◌∙◌, Option, none, some, List, [], ◌∷◌, inl, inr, Bool-cases,
  not, string_eq,
}
use runspool.Prelude.Exec.{Result, ok, err, continue-eq-ok}
use runspool.Engine.Children.{listed, plan_children}
use runspool.Engine.Runner.Attempt.{
  body, record_artifacts, planned, lifted, recorded_if, updated_if, read_contract, prepared,
}
use runspool.Engine.Runner.Context.{TaskRunner, perform, Run, throttled, beat_once, stop_requested}
use runspool.Engine.Runner.Held.{Keeping}
use runspool.Engine.Runner.Keeps.{
  Keeping-pure, Keeping-raise, Keeping-if, Keeping-bind, Keeping-raising, perform-Keeping,
  update_fields-Keeping, record_all-Keeping,
}
use runspool.Engine.Artifacts.Recorded.{Artifact}
use runspool.Engine.Steps.{Step, StepResult, Script, finish, fault, beat, asks_stop, Raised}
use runspool.Models.{Error}
use runspool.Store.Repository.{Update}
use runspool.Store.Repository.Spawning.{SpawnPlan}
use runspool.Store.Rows.{Task}
use runspool.Store.World.{World}

module _ (r : TaskRunner) (task : Task) (step : Step) (token : Option String) (run_id : ℕ) where
  abbrev Keeps : {A : Type 0} → Run A → Type 0
  Keeps m = Keeping task.id token task.step m

  lifted-Keeping : {A : Type 0} (x : Result Error A) → Keeps (lifted x)
  lifted-Keeping (ok a) = record { of = λ w h. h }
  lifted-Keeping (err e) = record { of = λ w h. h }

  recorded-Keeping : (as_ : List (Option Artifact)) → Keeps (recorded_if r task step run_id as_)
  unfolding record_artifacts
  recorded-Keeping [] = Keeping-pure task.id token task.step tt
  recorded-Keeping (a ∷ rest) =
      Keeping-if task.id token task.step (not r.artifacts) _ _
        (Keeping-raise task.id token task.step _)
        (Keeping-bind task.id token task.step _ _ (lifted-Keeping (read_contract step)) λ contract.
          Keeping-bind task.id token task.step _ _
            (lifted-Keeping (prepared r task contract (a ∷ rest)))
            λ recorded.
              Keeping-raising task.id token task.step _
                (record_all-Keeping task.id token task.step task.step recorded (some run_id)))

  updated-Keeping :
      (us : List Update) (spawn : Option SpawnPlan) → Keeps (updated_if task token us spawn)
  updated-Keeping [] spawn = Keeping-pure task.id token task.step tt
  updated-Keeping (u ∷ us) (some plan) = Keeping-pure task.id token task.step tt
  updated-Keeping (u ∷ us) none =
      Keeping-bind task.id token task.step _ _
        (Keeping-raising task.id token task.step _
          (update_fields-Keeping task.id token task.step (u ∷ us) token))
        λ _. Keeping-pure task.id token task.step tt

  -- A run of the step, with what is written of its result, leaves the task with its worker.
  pub body-Keeping : (s : Script StepResult) → Keeps (body r task step token run_id s)
  unfolding body
  body-Keeping s =
      Keeping-bind task.id token task.step _ _
        (perform-Keeping task.id token task.step token s none)
        λ result.
          Keeping-bind task.id token task.step _ _
            (lifted-Keeping (plan_children r.config result.spawn))
            λ children.
              Keeping-bind task.id token task.step _ _
                (lifted-Keeping (planned r task run_id result children))
                λ spawn.
                  Keeping-bind task.id token task.step _ _ (recorded-Keeping result.artifacts) λ _.
                    Keeping-bind task.id token task.step _ _ (updated-Keeping result.updates spawn)
                      λ _. Keeping-pure task.id token task.step (result, spawn)

-- The step's code does not ask for child tasks.
abbrev pub IsChildless : Script StepResult → Type 0
IsChildless (finish result) = result.spawn ≡ listed []
IsChildless (fault e) = Unit {0}
IsChildless (beat now progress k) = (answer : Result Error (Unit {0})) → IsChildless (k answer)
IsChildless (asks_stop k) = (answer : Result Error Bool) → IsChildless (k answer)

value_eq :
    {A : Type 0} (a b : A) (w v : World)
    → ◌≡◌ {A = Result Raised A × World} (ok a, w) (ok b, v)
    → a ≡ b
value_eq a b w v h = cc

ok_eq : {A : Type 0} (a b : A) → ◌≡◌ {A = Result Error A} (ok a) (ok b) → a ≡ b
ok_eq a b h = cc

lifted_ok :
    {A : Type 0} (x : Result Error A) (a : A) (w v : World) → lifted x w ≡ (ok a, v) → x ≡ ok a
lifted_ok (ok b) a w v h = ap ok (value_eq b a w v h)
lifted_ok (err e) a w v h = absurd (cc)

module _ (i : ℕ) (token : Option String) where
  perform-childless :
      (s : Script StepResult) (last : Option ℕ) (w v : World) (result : StepResult)
      → IsChildless s
      → perform i token last s w ≡ (ok result, v)
      → result.spawn ≡ listed []
  unfolding perform
  perform-childless (finish a) last w v result c h =
      subst (λ (x : StepResult). x.spawn ≡ listed []) (value_eq a result w v h) c
  perform-childless (fault e) last w v result c h = absurd (cc)
  perform-childless (beat now progress k) last w v result c h =
      elim (Bool-cases (throttled last now)) [
        | inl early ↦
            let same : perform i token last (beat now progress k) w
                ≡ perform i token last (k (ok tt)) w =
              rw (early, perform) refl in
            perform-childless (k (ok tt)) last w v result (c (ok tt)) (sym same ∙ h)
        | inr due ↦
            let x = beat_once i token progress w in
            let same : perform i token last (beat now progress k) w
                ≡ perform i token (some now) (k x.0) x.1 =
              rw (due, perform) refl in
            perform-childless (k x.0) (some now) x.1 v result (c x.0) (sym same ∙ h)
      ]
  perform-childless (asks_stop k) last w v result c h =
      perform-childless (k (stop_requested i w).0) last (stop_requested i w).1 v result
        (c (stop_requested i w).0) h

module _ (r : TaskRunner) (task : Task) (step : Step) (token : Option String) (run_id : ℕ) where
  pub body-childless :
      (s : Script StepResult) (w v : World) (p : StepResult × Option SpawnPlan)
      → IsChildless s
      → body r task step token run_id s w ≡ (ok p, v)
      → p.1 ≡ none
  unfolding body plan_children
  body-childless s w v p c h =
      let (result, u, first, h1) = continue-eq-ok _ (perform task.id token none s w) p v h in
      let (children, u1, second, h2) =
        continue-eq-ok _ (lifted (plan_children r.config result.spawn) u) p v h1 in
      let (spawn, u2, third, h3) =
        continue-eq-ok _ (lifted (planned r task run_id result children) u1) p v h2 in
      let (_, u3, _, h4) =
        continue-eq-ok _ (recorded_if r task step run_id result.artifacts u2) p v h3 in
      let (_, u4, _, h5) =
        continue-eq-ok _ (updated_if task token result.updates spawn u3) p v h4 in
      let nothing : children ≡ [] = ok_eq children [] (
        sym (lifted_ok (plan_children r.config result.spawn) children u u1 second)
        ∙ ap (plan_children r.config)
            (perform-childless task.id token s none w u result c first)) in
      let unspawned : spawn ≡ none = ok_eq spawn none (
        sym (lifted_ok (planned r task run_id result children) spawn u1 u2 third)
        ∙ ap (planned r task run_id result) nothing) in
      ap (λ (x : StepResult × Option SpawnPlan). x.1) (sym (value_eq (result, spawn) p u4 v h5))
      ∙ unspawned
