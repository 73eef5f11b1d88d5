-- ===== src/Engine/Artifacts/Chain/Met.antt =====
-- engine/artifacts.py: what a chain check without errors means, of a workflow that does not set
-- `allow_unverified`.
use runspool.Engine.Artifacts.Chain.Required.{
  ok_inj, provided_by, provided, StepMet, step_checked-available, step_checked-errors,
  step_checked-All,
}
use mathlib.Core.Path.{subst}
use mathlib.Core.List.{append_assoc, append-nil}
use runspool.Prelude.{
  ℕ, zero, suc, String, false, ◌≡◌, ◌↔◌, refl, sym, ap, ◌∙◌, Option, some, List, [], ◌∷◌, ◌++◌,
  some_inj,
}
use runspool.Prelude.Exec.{Result, ok, err}
use runspool.Models.{get_elem?, quoted}
use runspool.Text.{join}
use runspool.Engine.Artifacts.{ArtifactType, Contract}
use runspool.Engine.Artifacts.Declarations.{Declaration, parse_types}
use runspool.Engine.Artifacts.Chain.{Progress, step_checked, check_steps, check_chain, start}

module _ (workflow : String) (contract_for : String → Result String (Option Contract)) where
  -- Each step is met by what was available, with what the steps before it provide.
  abbrev pub AllMet : List ArtifactType → List String → Type 0
  AllMet available steps =
      (k : ℕ) (name : String)
      → get_elem? steps k ≡ some name
      → StepMet contract_for (available ++ provided contract_for steps k) name

  module _ (available : List ArtifactType) (n : String) (names : List String) where
    AllMet-cons :
        StepMet contract_for available n
        → AllMet (available ++ provided_by (contract_for n)) names
        → AllMet available (n ∷ names)
    AllMet-cons first rest zero name at =
        subst (StepMet contract_for (available ++ [])) (some_inj at) (
          subst (λ (a : List ArtifactType). StepMet contract_for a n) (sym (append-nil available))
            first)
    AllMet-cons first rest (suc k) name at =
        subst (λ (a : List ArtifactType). StepMet contract_for a name)
          (append_assoc available (provided_by (contract_for n)) (provided contract_for names k))
          (rest k name at)

    AllMet-first : AllMet available (n ∷ names) → StepMet contract_for available n
    AllMet-first m =
        subst (λ (a : List ArtifactType). StepMet contract_for a n) (append-nil available)
          (m 0 n refl)

    AllMet-rest :
        AllMet available (n ∷ names) → AllMet (available ++ provided_by (contract_for n)) names
    AllMet-rest m k name at =
        subst (λ (a : List ArtifactType). StepMet contract_for a name)
          (sym
            (append_assoc available (provided_by (contract_for n)) (provided contract_for names k)))
          (m (suc k) name at)

  check_steps-errors :
      (names : List String) (p : Progress)
      → (check_steps workflow false contract_for names p).report.errors ≡ []
      → (p.report.errors ≡ []) × AllMet p.available names
  unfolding check_steps
  check_steps-errors [] p h = (h, λ k name at. cc)
  check_steps-errors (n ∷ names) p h =
      let r = contract_for n in
      let (before, rest) = check_steps-errors names (step_checked workflow false n r p) h in
      let (empty, met) = step_checked-errors workflow n p r before in
      (
        empty,
        AllMet-cons p.available n names met (
            subst (λ (a : List ArtifactType). AllMet a names)
              (step_checked-available workflow n p r) rest),
      )

  check_steps-AllMet :
      (names : List String) (p : Progress)
      → AllMet p.available names
      → (check_steps workflow false contract_for names p).report.errors ≡ p.report.errors
  unfolding check_steps
  check_steps-AllMet [] p m = refl
  check_steps-AllMet (n ∷ names) p m =
      let r = contract_for n in
      let (c, read, met) = AllMet-first p.available n names m in
      let rest =
        subst (λ (a : List ArtifactType). AllMet a names)
          (sym (step_checked-available workflow n p r)) (AllMet-rest p.available n names m) in
      check_steps-AllMet names (step_checked workflow false n r p) rest
      ∙ ap
          (λ (q : Result String (Option Contract)).
            (step_checked workflow false n q p).report.errors)
          read
      ∙ step_checked-All workflow n p c met

  started :
      (r : Result String (List ArtifactType)) (steps : List String)
      → ((check_steps workflow false contract_for steps (start r)).report.errors ≡ [])
        ↔ ((ts : List ArtifactType) × (r ≡ ok ts) × AllMet ts steps)
  started (err message) steps = (
    λ h. absurd (cc (check_steps-errors steps (start (err message)) h).0),
    λ (ts, read, _). absurd (cc),
  )
  started (ok ts) steps = (
    λ h. (ts, refl, (check_steps-errors steps (start (ok ts)) h).1),
    λ (us, read, met).
        check_steps-AllMet steps (start (ok ts))
          (subst (λ (a : List ArtifactType). AllMet a steps) (sym (ok_inj read)) met),
  )

  -- The check of a workflow that does not set `allow_unverified` reports no error exactly when its
  -- inputs can be read, the declarations of each of its steps can be read, and each type that a
  -- step requires is satisfied by an input or by a type that a step before it provides.
  pub check_chain-AllMet :
      (steps : List String) (inputs : Declaration)
      → ((check_chain workflow steps contract_for inputs false).errors ≡ []) ↔ (
          (ts : List ArtifactType) × (parse_types inputs
              (join ("workflow " ∷ quoted workflow))
              "inputs"
            ≡ ok ts)
          × AllMet ts steps)
  unfolding check_chain
  check_chain-AllMet steps inputs =
      started (parse_types inputs (join ("workflow " ∷ quoted workflow)) "inputs") steps
