-- ===== src/Engine/Children.antt =====
-- engine/children.py: `plan_children`, the check of the child tasks that a step returns. What a step
-- puts in a field may be any value; the fields are read one after the other, and the first that is
-- wrong is the error.
pub mod Checked
use runspool.Prelude.{
  ℕ, suc, String, Bool, true, false, Option, none, some, List, [], ◌∷◌, ◌++◌, contains, string_eq,
  if◌then◌else◌, ◌==◌,
}
use runspool.Prelude.Exec.{Result, ok, err}
use runspool.Models.{Error, value_error, other_error, WorkflowDef, first_step, quoted}
use runspool.Store.Repository.{Metadata}
use runspool.Store.Repository.Spawning.{Child}
use runspool.Store.Rows.{ℤ}
use runspool.Text.{join, decimal}

-- A value where a text is wanted: a text that UTF-8 can encode, a text with a lone surrogate (it is
-- not empty), or no text.
pub data TextValue : Type 0 where
  text : String → TextValue
  surrogates not_text : TextValue

-- A child's `metadata` that is not `None`: a mapping with its JSON text, a mapping that has no JSON
-- text in UTF-8, or no mapping.
pub data MetadataValue : Type 0 where
  stored : String → MetadataValue
  unstorable not_mapping : MetadataValue

-- `class ChildTask`, as a step returns it; `none` is `None`.
pub record ChildTask : Type 0 where
  pub input : TextValue
  pub workflow : TextValue
  pub name : Option TextValue
  pub metadata : Option MetadataValue
  pub key : Option TextValue

-- `StepResult.spawn`: a list or tuple, where `none` is an entry that is no `ChildTask`, or any
-- other value.
pub data SpawnValue : Type 0 where
  listed : List (Option ChildTask) → SpawnValue
  unlisted : SpawnValue

-- What `plan_children` reads of the config. Step names of a config are texts in UTF-8.
pub record ChildConfig : Type 0 where
  pub workflow : String → Option WorkflowDef
  pub max_retries : ℤ

infixl 10 ◌>>=◌
abbrev ◌>>=◌ : {A B : Type 0} → Result Error A → (A → Result Error B) → Result Error B
ok a >>= f = f a
err e >>= f = err e

abbrev pub refuse : {A : Type 0} → ℕ → List String → Result Error A
refuse n why = err (value_error (join ("child " ∷ decimal n ∷ ": " ∷ why)))

-- `not child.input` or no `str`, and `_utf8`.
unfoldable pub nonempty_text : ℕ → String → TextValue → Result Error String
nonempty_text n field not_text = refuse n (field ∷ " must be a non-empty string" ∷ [])
nonempty_text n field surrogates = refuse n (field ∷ " must be valid UTF-8 text" ∷ [])
nonempty_text n field (text s) =
    if s == "" then refuse n (field ∷ " must be a non-empty string" ∷ []) else ok s

-- No `str`, and `_utf8`.
unfoldable pub any_text : ℕ → String → TextValue → Result Error String
any_text n field not_text = refuse n (field ∷ " must be a string" ∷ [])
any_text n field surrogates = refuse n (field ∷ " must be valid UTF-8 text" ∷ [])
any_text n field (text s) = ok s

abbrev known : ℕ → String → Option WorkflowDef → Result Error WorkflowDef
known n name (some w) = ok w
known n name none = refuse n ("workflow " ∷ quoted name ++ (" is not defined" ∷ []))

-- `workflow.first_step()`.
abbrev started : Option String → Result Error String
started (some s) = ok s
started none = err (other_error "IndexError" "tuple index out of range")

abbrev planned_name : ℕ → Option TextValue → Result Error (Option String)
planned_name n none = ok none
planned_name n (some v) = elim (any_text n "name" v) [ ok s ↦ ok (some s) | err e ↦ err e ]

-- The metadata and its JSON text.
abbrev planned_metadata : ℕ → Option MetadataValue → Result Error (Option String)
planned_metadata n none = ok none
planned_metadata n (some (stored json)) = ok (some json)
planned_metadata n (some unstorable) =
    refuse n ("metadata must be a JSON object of valid UTF-8 text" ∷ [])
planned_metadata n (some not_mapping) = refuse n ("metadata must be a JSON object" ∷ [])

abbrev fresh : ℕ → List String → String → Result Error (Option String)
fresh n keys key =
    if contains keys key
    then refuse n ("key " ∷ quoted key ++ (" is used twice" ∷ []))
    else ok (some key)

abbrev planned_key : ℕ → List String → Option TextValue → Result Error (Option String)
planned_key n keys none = ok none
planned_key n keys (some v) = elim (nonempty_text n "key" v) [
  | ok key ↦ fresh n keys key
  | err e ↦ err e
]

abbrev as_metadata : Option String → Metadata
as_metadata none = Metadata.absent
as_metadata (some json) = Metadata.object json

module _ (config : ChildConfig) where
  -- The loop's body for the n-th child, with the keys of those before it.
  unfoldable pub plan_child : ℕ → List String → ChildTask → Result Error Child
  unfolding nonempty_text any_text
  plan_child n keys child = do
    input ← nonempty_text n "input" child.input
    workflow ← any_text n "workflow" child.workflow
    found ← known n workflow (config.workflow workflow)
    first ← started (first_step found)
    name ← planned_name n child.name
    json ← planned_metadata n child.metadata
    key ← planned_key n keys child.key
    ok (record {
      input = input;
      name = name;
      workflow = workflow;
      first_step = first;
      max_retries = config.max_retries;
      key = key;
      metadata = as_metadata json;
      metadata_json = json;
    })

  abbrev add_key : Option String → List String → List String
  add_key none keys = keys
  add_key (some key) keys = key ∷ keys

  abbrev plan_entry : ℕ → List String → Option ChildTask → Result Error Child
  plan_entry n keys none = refuse n ("not a ChildTask" ∷ [])
  plan_entry n keys (some child) = plan_child n keys child

  -- `for n, child in enumerate(spawn, 1)`.
  unfoldable pub plan_from : ℕ → List String → List (Option ChildTask) → Result Error (List Child)
  unfolding plan_child
  plan_from n keys [] = ok []
  plan_from n keys (entry ∷ rest) = elim (plan_entry n keys entry) [
    | err e ↦ err e
    | ok child ↦ elim (plan_from (suc n) (add_key child.key keys) rest) [
      | err e ↦ err e
      | ok more ↦ ok (child ∷ more)
    ]
  ]

  -- `plan_children`.
  unfoldable pub plan_children : SpawnValue → Result Error (List Child)
  unfolding plan_from
  plan_children unlisted = err (value_error "spawn must be a list of ChildTask")
  plan_children (listed entries) = plan_from 1 [] entries
