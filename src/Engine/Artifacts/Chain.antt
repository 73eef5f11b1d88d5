-- ===== src/Engine/Artifacts/Chain.antt =====
-- engine/artifacts.py, the chain check: what each step of a workflow requires against what the
-- input and the steps before it provide. A declaration is `none` when it is absent; `contract_for`
-- is the caller's.
pub mod Required
pub mod Met
use runspool.Prelude.{
  String, Bool, true, false, ◌&&◌, ◌||◌, not, Option, none, some, List, [], ◌∷◌, ◌++◌,
  if◌then◌else◌, ◌==◌, string_eq, is_some,
}
use runspool.Prelude.Exec.{Result, ok, err}
use runspool.Engine.Artifacts.{
  ArtifactType, str, parse_type, Contract, ChainReport, extend, any_satisfies,
}
use runspool.Engine.Artifacts.Declarations.{Declaration, absent, unlisted, parse_types}
use runspool.Models.{quoted}
use runspool.Text.{join}

-- What the loop of `check_chain` changes. `providers` is the dict of who provides each type first,
-- `silent` the earlier steps that declare nothing.
pub record Progress : Type 0 where
  pub report : ChainReport
  pub available : List ArtifactType
  pub providers : List (String × String)
  pub silent : List String

-- `", ".join(texts)`.
unfoldable pub commas : List String → String
commas [] = ""
commas (s ∷ []) = s
commas (s ∷ (t ∷ ts)) = join (s ∷ ", " ∷ commas (t ∷ ts) ∷ [])

abbrev pub named : List String → List String
named [] = []
named (s ∷ ss) = join (quoted s) ∷ named ss

abbrev offers : List (String × String) → List String
offers [] = []
offers ((t, p) ∷ rest) = join (quoted t ++ (" (" ∷ p ∷ ")" ∷ [])) ∷ offers rest

abbrev has_key : List (String × String) → String → Bool
has_key [] key = false
has_key ((k, _) ∷ rest) key = k == key || has_key rest key

-- `providers.setdefault(key, value)`.
abbrev set_default : String → String → List (String × String) → List (String × String)
set_default key value d = if has_key d key then d else d ++ ((key, value) ∷ [])

abbrev required_by : String → String → ArtifactType → String
required_by workflow name required = join (
    "workflow " ∷ quoted workflow
    ++ (": step " ∷ quoted name ++ (" requires " ∷ quoted (str required))))

abbrev offered : List (String × String) → String
offered [] = "nothing"
offered ds = commas (offers ds)

abbrev hint : List String → String
hint [] = ""
hint silent = join (
    "; "
    ∷ commas (named silent)
    ∷ " declare(s) nothing: declare what they provide, or set allow_unverified on the workflow"
    ∷ [])

abbrev missing : String → String → Progress → ArtifactType → String
missing workflow name p required = join (
    required_by workflow name required
    ∷ ", which no earlier step provides (provided before it: "
    ∷ offered p.providers
    ∷ ")"
    ∷ hint p.silent
    ∷ [])

abbrev undeclared : String → String → Progress → ArtifactType → String
undeclared workflow name p required = join (
    required_by workflow name required
    ∷ "; no earlier step declares it, but "
    ∷ commas (named p.silent)
    ∷ " declare(s) nothing"
    ∷ [])

abbrev is_nonempty : {A : Type 0} → List A → Bool
is_nonempty [] = false
is_nonempty (_ ∷ _) = true

abbrev add_error : String → ChainReport → ChainReport
add_error message r = record r { errors = r.errors ++ (message ∷ []) }

abbrev add_unverified : String → ChainReport → ChainReport
add_unverified message r = record r { unverified = r.unverified ++ (message ∷ []) }

-- One turn of `for required in contract.requires`.
unfoldable pub check_required :
    String → Bool → String → Progress → ArtifactType → ChainReport → ChainReport
unfolding any_satisfies
check_required workflow allow_unverified name p required report =
    if any_satisfies p.available required
    then report
    else if is_nonempty p.silent && allow_unverified
    then add_unverified (undeclared workflow name p required) report
    else add_error (missing workflow name p required) report

unfoldable pub check_requires :
    String → Bool → String → Progress → List ArtifactType → ChainReport → ChainReport
unfolding check_required
check_requires workflow allow_unverified name p [] report = report
check_requires workflow allow_unverified name p (r ∷ rs) report =
    check_requires workflow allow_unverified name p rs
      (check_required workflow allow_unverified name p r report)

-- `for provided in contract.provides`.
unfoldable pub provide : String → List ArtifactType → Progress → Progress
provide name [] p = p
provide name (t ∷ ts) p = provide name ts (record p {
  available = p.available ++ (t ∷ []);
  providers = set_default (str t) (join ("step " ∷ quoted name)) p.providers;
})

abbrev keep_silent : String → Progress → Progress
keep_silent name p = record p { silent = p.silent ++ (name ∷ []) }

abbrev with_report : ChainReport → Progress → Progress
with_report r p = record p { report = r }

-- The loop's body for a step whose declarations were read.
unfoldable pub check_step : String → Bool → String → Option Contract → Progress → Progress
unfolding check_requires provide
check_step workflow allow_unverified name none p = keep_silent name p
check_step workflow allow_unverified name (some c) p =
    if not c.declared
    then keep_silent name p
    else provide name c.provides (
        with_report
          (check_requires workflow allow_unverified name p c.requires
            (record p.report { declared = true }))
          p)

abbrev step_checked : String → Bool → String → Result String (Option Contract) → Progress → Progress
step_checked workflow allow_unverified name (ok c) p = check_step workflow allow_unverified name c p
step_checked workflow allow_unverified name (err message) p = keep_silent name (
    with_report
      (add_error (join ("workflow " ∷ quoted workflow ++ (": " ∷ message ∷ [])))
        (record p.report { declared = true }))
      p)

-- `for name in steps`.
unfoldable pub check_steps :
    String → Bool → (String → Result String (Option Contract)) → List String → Progress → Progress
unfolding check_step
check_steps workflow allow_unverified contract_for [] p = p
check_steps workflow allow_unverified contract_for (name ∷ names) p =
    check_steps workflow allow_unverified contract_for names
      (step_checked workflow allow_unverified name (contract_for name) p)

abbrev input_providers : List ArtifactType → List (String × String) → List (String × String)
input_providers [] d = d
input_providers (t ∷ ts) d = input_providers ts (set_default (str t) "the workflow inputs" d)

-- The variables of `check_chain` before its loop.
abbrev start : Result String (List ArtifactType) → Progress
start (err message) = record {
  report = record { errors = message ∷ []; unverified = []; declared = true };
  available = [];
  providers = [];
  silent = [];
}
start (ok ts) = record {
  report = record { errors = []; unverified = []; declared = is_nonempty ts };
  available = ts;
  providers = input_providers ts [];
  silent = [];
}

-- `check_chain`.
unfoldable pub check_chain :
    String
    → List String
    → (String → Result String (Option Contract))
    → Declaration
    → Bool
    → ChainReport
unfolding check_steps parse_types
check_chain workflow steps contract_for inputs allow_unverified =
    (check_steps workflow allow_unverified contract_for steps
      (start (parse_types inputs (join ("workflow " ∷ quoted workflow)) "inputs"))).report

-- What a `WorkflowConfig` says to the check.
pub record ChainConfig : Type 0 where
  pub steps : List String
  pub inputs : Declaration
  pub allow_unverified : Bool

-- `inputs or ()`.
abbrev or_absent : Declaration → Declaration
or_absent (unlisted false _) = absent
or_absent d = d

-- `check_workflow`.
unfoldable pub check_workflow :
    String → ChainConfig → (String → Result String (Option Contract)) → ChainReport
unfolding check_chain
check_workflow name workflow contract_for =
    check_chain name workflow.steps contract_for (or_absent workflow.inputs)
      workflow.allow_unverified

-- `check_workflows`.
unfoldable pub check_workflows :
    List (String × ChainConfig)
    → (String → Result String (Option Contract))
    → ChainReport
    → ChainReport
unfolding check_workflow extend
check_workflows [] contract_for report = report
check_workflows ((name, workflow) ∷ rest) contract_for report =
    check_workflows rest contract_for (extend report (check_workflow name workflow contract_for))
