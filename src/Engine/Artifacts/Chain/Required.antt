-- ===== src/Engine/Artifacts/Chain/Required.antt =====
-- engine/artifacts.py, the chain check: one step of the loop, of a workflow that does not set
-- `allow_unverified`.
use mathlib.Core.List.{append_assoc, append-nil}
use runspool.Prelude.{
  ℕ, zero, suc, String, Bool, true, false, not, ◌≡◌, ◌≢◌, ◌&&◌, refl, sym, ap, ◌∙◌, Option, none,
  some, List, [], ◌∷◌, ◌++◌, arith, Bool-cases, inl, inr, if◌then◌else◌, All,
}
use runspool.Prelude.Exec.{Result, ok, err}
use runspool.Models.{get_elem?}
use runspool.Engine.Artifacts.{ArtifactType, satisfies, Contract, ChainReport, any_satisfies}
use runspool.Engine.Artifacts.Chain.{
  Progress, check_required, check_requires, provide, check_step, step_checked, is_nonempty,
  undeclared, missing, add_error, add_unverified, with_report, keep_silent,
}

-- An artifact type among `available` satisfies the requirement.
abbrev pub Meets : List ArtifactType → ArtifactType → Type 0
Meets available required =
    (i : ℕ) × (have : ArtifactType) × (get_elem? available i ≡ some have)
    × (satisfies have required ≡ true)

any_satisfies-Meets :
    (available : List ArtifactType) (required : ArtifactType)
    → any_satisfies available required ≡ true
    → Meets available required
unfolding any_satisfies
any_satisfies-Meets [] required h = cc
any_satisfies-Meets (have ∷ rest) required h = elim (Bool-cases (satisfies have required)) [
  | inl holds ↦ (0, have, refl, holds)
  | inr fails ↦
      let (i, found, at, holds) = any_satisfies-Meets rest required (ground arith) in
      (suc i, found, at, holds)
]

Meets-any_satisfies :
    (available : List ArtifactType) (required : ArtifactType) (i : ℕ) (have : ArtifactType)
    → get_elem? available i ≡ some have
    → satisfies have required ≡ true
    → any_satisfies available required ≡ true
unfolding any_satisfies
Meets-any_satisfies [] required i have at holds = cc
Meets-any_satisfies (h ∷ rest) required zero have at holds = ground arith
Meets-any_satisfies (h ∷ rest) required (suc i) have at holds =
    ground (arith, Meets-any_satisfies rest required i have at holds)

pub ok_inj :
    {a b : List ArtifactType} → ◌≡◌ {A = Result String (List ArtifactType)} (ok a) (ok b) → a ≡ b
ok_inj h = cc

-- What the steps' declarations say; a step that declares nothing requires and provides nothing.
abbrev pub required_of : Option Contract → List ArtifactType
required_of none = []
required_of (some c) = if c.declared then c.requires else []

abbrev pub provided_of : Option Contract → List ArtifactType
provided_of none = []
provided_of (some c) = if c.declared then c.provides else []

abbrev pub provided_by : Result String (Option Contract) → List ArtifactType
provided_by (ok c) = provided_of c
provided_by (err _) = []

module _ (contract_for : String → Result String (Option Contract)) where
  -- What the first `k` steps provide.
  abbrev pub provided : List String → ℕ → List ArtifactType
  provided names zero = []
  provided [] (suc k) = []
  provided (name ∷ names) (suc k) = provided_by (contract_for name) ++ provided names k

  -- The step's declarations can be read, and each requirement is met by `available`.
  abbrev pub StepMet : List ArtifactType → String → Type 0
  StepMet available name =
      (c : Option Contract) × (contract_for name ≡ ok c) × All (Meets available) (required_of c)

snoc-ne-nil : (es : List String) (e : String) → es ++ (e ∷ []) ≢ []
snoc-ne-nil [] e h = cc
snoc-ne-nil (d ∷ es) e h = cc

refused :
    (b : Bool) (note message : String) (report : ChainReport)
    → (if b && false then add_unverified note report else add_error message report).errors ≢ []
refused true note message report h = snoc-ne-nil report.errors message h
refused false note message report h = snoc-ne-nil report.errors message h

module _ (workflow name : String) (p : Progress) where
  required_errors :
      (r : ArtifactType) (report : ChainReport) (met : Bool)
      → any_satisfies p.available r ≡ met
      → (if met
          then report
          else if is_nonempty p.silent && false
          then add_unverified (undeclared workflow name p r) report
          else add_error (missing workflow name p r) report).errors
        ≡ []
      → (report.errors ≡ []) × Meets p.available r
  required_errors r report true met h = (h, any_satisfies-Meets p.available r met)
  required_errors r report false unmet h = absurd (
      refused (is_nonempty p.silent) (undeclared workflow name p r) (missing workflow name p r)
        report h)

  check_required-errors :
      (r : ArtifactType) (report : ChainReport)
      → (check_required workflow false name p r report).errors ≡ []
      → (report.errors ≡ []) × Meets p.available r
  unfolding check_required
  check_required-errors r report h = required_errors r report (any_satisfies p.available r) refl h

  check_requires-errors :
      (rs : List ArtifactType) (report : ChainReport)
      → (check_requires workflow false name p rs report).errors ≡ []
      → (report.errors ≡ []) × All (Meets p.available) rs
  unfolding check_requires
  check_requires-errors [] report h = (h, tt)
  check_requires-errors (r ∷ rs) report h =
      let (before, met) =
        check_requires-errors rs (check_required workflow false name p r report) h in
      let (empty, first) = check_required-errors r report before in (empty, (first, met))

  check_requires-All :
      (rs : List ArtifactType) (report : ChainReport)
      → All (Meets p.available) rs
      → check_requires workflow false name p rs report ≡ report
  unfolding check_requires check_required
  check_requires-All [] report m = refl
  check_requires-All (r ∷ rs) report ((i, have, at, holds), m) =
      rw (Meets-any_satisfies p.available r i have at holds) (check_requires-All rs report m)

provide-available :
    (name : String) (ts : List ArtifactType) (p : Progress)
    → ((provide name ts p).available ≡ p.available ++ ts) × ((provide name ts p).report ≡ p.report)
unfolding provide
provide-available name [] p = (sym (append-nil p.available), refl)
provide-available name (t ∷ ts) p =
    let (a, r) = provide-available name ts _ in (a ∙ append_assoc p.available (t ∷ []) ts, r)

-- One step of the loop, which declares something or nothing.
module _ (workflow name : String) (p : Progress) (c : Contract) where
  abbrev checked : ChainReport
  checked = check_requires workflow false name p c.requires (record p.report { declared = true })

  abbrev turned : Bool → Progress
  turned declared =
      if not declared then keep_silent name p else provide name c.provides (with_report checked p)

  turned-available :
      (d : Bool) → (turned d).available ≡ p.available ++ (if d then c.provides else [])
  turned-available true = (provide-available name c.provides (with_report checked p)).0
  turned-available false = sym (append-nil p.available)

  turned-errors :
      (d : Bool)
      → (turned d).report.errors ≡ []
      → (p.report.errors ≡ []) × All (Meets p.available) (if d then c.requires else [])
  turned-errors true h =
      let (_, same) = provide-available name c.provides (with_report checked p) in
      check_requires-errors workflow name p c.requires (record p.report { declared = true })
        (ap (λ (r : ChainReport). r.errors) (sym same) ∙ h)
  turned-errors false h = (h, tt)

  turned-All :
      (d : Bool)
      → All (Meets p.available) (if d then c.requires else [])
      → (turned d).report.errors ≡ p.report.errors
  turned-All true m =
      ap (λ (r : ChainReport). r.errors)
        ((provide-available name c.provides (with_report checked p)).1
          ∙ check_requires-All workflow name p c.requires (record p.report { declared = true }) m)
  turned-All false m = refl

module _ (workflow name : String) (p : Progress) where
  pub step_checked-available :
      (r : Result String (Option Contract))
      → (step_checked workflow false name r p).available ≡ p.available ++ provided_by r
  unfolding check_step
  step_checked-available (err message) = sym (append-nil p.available)
  step_checked-available (ok none) = sym (append-nil p.available)
  step_checked-available (ok (some c)) = turned-available workflow name p c c.declared

  pub step_checked-errors :
      (r : Result String (Option Contract))
      → (step_checked workflow false name r p).report.errors ≡ []
      → (p.report.errors ≡ [])
        × ((c : Option Contract) × (r ≡ ok c) × All (Meets p.available) (required_of c))
  unfolding check_step
  step_checked-errors (err message) h = absurd (snoc-ne-nil _ _ h)
  step_checked-errors (ok none) h = (h, (none, refl, tt))
  step_checked-errors (ok (some c)) h =
      let (before, met) = turned-errors workflow name p c c.declared h in
      (before, (some c, refl, met))

  pub step_checked-All :
      (c : Option Contract)
      → All (Meets p.available) (required_of c)
      → (step_checked workflow false name (ok c) p).report.errors ≡ p.report.errors
  unfolding check_step
  step_checked-All none m = refl
  step_checked-All (some c) m = turned-All workflow name p c c.declared m
