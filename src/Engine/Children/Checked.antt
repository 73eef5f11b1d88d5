-- ===== src/Engine/Children/Checked.antt =====
-- engine/children.py: what `plan_children` lets through.
use mathlib.Core.Path.{subst}
use runspool.Prelude.{
  ℕ, suc, String, false, ◌≡◌, ◌≢◌, refl, Option, none, some, List, [], ◌∷◌, length, contains,
  string_eq, arith, beq_refl, ap,
}
use runspool.Prelude.Exec.{Result, ok, err}
use runspool.Models.{Error, WorkflowDef, first_step}
use runspool.Store.Repository.Spawning.{Child}
use runspool.Engine.Children.{
  ChildTask, ChildConfig, TextValue, SpawnValue, listed, unlisted, nonempty_text, any_text,
  plan_child, plan_from, plan_children, add_key, plan_entry, started, known, planned_name,
  planned_metadata, planned_key, fresh, ◌>>=◌,
}

module _ {A B : Type 0} where
  bound :
      (m : Result Error A) (f : A → Result Error B) (b : B)
      → (m >>= f) ≡ ok b
      → (a : A) × (m ≡ ok a) × (f a ≡ ok b)
  bound (ok a) f b h = (a, refl, h)
  bound (err e) f b h = absurd (cc)

-- The key is not among those given.
abbrev pub IsFresh : List String → Option String → Type 0
IsFresh keys none = Unit {0}
IsFresh keys (some key) = contains keys key ≡ false

nonempty_input :
    (n : ℕ) (field : String) (v : TextValue) (s : String) → nonempty_text n field v ≡ ok s → s ≢ ""
unfolding nonempty_text
nonempty_input n field v s h e = ground (arith, beq_refl s)

fresh-IsFresh :
    (n : ℕ) (keys : List String) (k : String) (key : Option String)
    → fresh n keys k ≡ ok key
    → IsFresh keys key
fresh-IsFresh n keys k none h = tt
fresh-IsFresh n keys k (some key) h = ground arith

key-IsFresh :
    (n : ℕ) (keys : List String) (m : Result Error String) (key : Option String)
    → ◌≡◌ {A = Result Error (Option String)}
        (elim m [ ok k ↦ fresh n keys k | err e ↦ err e ])
        (ok key)
    → IsFresh keys key
key-IsFresh n keys (ok k) key h = fresh-IsFresh n keys k key h
key-IsFresh n keys (err e) key h = absurd (cc)

planned_key-IsFresh :
    (n : ℕ) (keys : List String) (v : Option TextValue) (key : Option String)
    → planned_key n keys v ≡ ok key
    → IsFresh keys key
planned_key-IsFresh n keys none none h = tt
planned_key-IsFresh n keys none (some k) h = absurd (cc)
planned_key-IsFresh n keys (some v) key h = key-IsFresh n keys (nonempty_text n "key" v) key h

workflow_found :
    (n : ℕ) (name : String) (o : Option WorkflowDef) (w : WorkflowDef)
    → known n name o ≡ ok w
    → o ≡ some w
workflow_found n name none w h = absurd (cc)
workflow_found n name (some x) w h = ground arith

first_found : (o : Option String) (s : String) → started o ≡ ok s → o ≡ some s
first_found none s h = absurd (cc)
first_found (some x) s h = ground arith

child_inj : {a b : Child} → ◌≡◌ {A = Result Error Child} (ok a) (ok b) → a ≡ b
child_inj h = cc

children_inj : {a b : List Child} → ◌≡◌ {A = Result Error (List Child)} (ok a) (ok b) → a ≡ b
children_inj h = cc

module _ (config : ChildConfig) where
  -- A child that can be created: its input is a text, its workflow is defined and begins with its
  -- step, and its key is none of the given ones.
  pub record IsPlanned (keys : List String) (child : Child) : Type 0 where
    pub input : child.input ≢ ""
    pub first :
        (w : WorkflowDef) × (config.workflow child.workflow ≡ some w)
        × (first_step w ≡ some child.first_step)
    pub retries : child.max_retries ≡ config.max_retries
    pub key : IsFresh keys child.key

  -- So are all children, where the keys of the ones before count as given.
  abbrev pub AllPlanned : List String → List Child → Type 0
  AllPlanned keys [] = Unit {0}
  AllPlanned keys (c ∷ cs) = IsPlanned keys c × AllPlanned (add_key config c.key keys) cs

  plan_child-IsPlanned :
      (n : ℕ) (keys : List String) (c : ChildTask) (child : Child)
      → plan_child config n keys c ≡ ok child
      → IsPlanned keys child
  unfolding plan_child
  plan_child-IsPlanned n keys c child h =
      let (input, i, h1) = bound (nonempty_text n "input" c.input) _ child h in
      let (workflow, w, h2) = bound (any_text n "workflow" c.workflow) _ child h1 in
      let (found, k, h3) = bound (known n workflow (config.workflow workflow)) _ child h2 in
      let (first, s, h4) = bound (started (first_step found)) _ child h3 in
      let (name, _, h5) = bound (planned_name n c.name) _ child h4 in
      let (json, _, h6) = bound (planned_metadata n c.metadata) _ child h5 in
      let (key, f, h7) = bound (planned_key n keys c.key) _ child h6 in
      subst (IsPlanned keys) (child_inj h7) (record {
        input = nonempty_input n "input" c.input input i;
        first = (
          found,
          workflow_found n workflow (config.workflow workflow) found k,
          first_found (first_step found) first s,
        );
        retries = refl;
        key = planned_key-IsFresh n keys c.key key f;
      })

  plan_entry-IsPlanned :
      (n : ℕ) (keys : List String) (entry : Option ChildTask) (child : Child)
      → plan_entry config n keys entry ≡ ok child
      → IsPlanned keys child
  plan_entry-IsPlanned n keys none child h = absurd (cc)
  plan_entry-IsPlanned n keys (some c) child h = plan_child-IsPlanned n keys c child h

  consed :
      (cs : List Child) (child : Child) (m : Result Error (List Child))
      → ◌≡◌ {A = Result Error (List Child)}
          (elim m [ err e ↦ err e | ok more ↦ ok (child ∷ more) ])
          (ok cs)
      → (more : List Child) × (m ≡ ok more) × (child ∷ more ≡ cs)
  consed cs child (err e) h = absurd (cc)
  consed cs child (ok more) h = (more, refl, children_inj h)

  all_planned :
      (cs : List Child) (keys : List String) (p : Result Error Child)
      (again : Child → Result Error (List Child))
      → ◌≡◌ {A = Result Error (List Child)}
          (elim p [
            | err e ↦ err e
            | ok child ↦ elim (again child) [ err e ↦ err e | ok more ↦ ok (child ∷ more) ]
          ])
          (ok cs)
      → (child : Child) × (more : List Child) × (p ≡ ok child)
        × (again child ≡ ok more)
        × (child ∷ more ≡ cs)
  all_planned cs keys (err e) again h = absurd (cc)
  all_planned cs keys (ok child) again h =
      let (more, later, same) = consed cs child (again child) h in (child, more, refl, later, same)

  plan_from-AllPlanned :
      (n : ℕ) (keys : List String) (entries : List (Option ChildTask)) (cs : List Child)
      → plan_from config n keys entries ≡ ok cs
      → (length cs ≡ length entries) × AllPlanned keys cs
  unfolding plan_from
  plan_from-AllPlanned n keys [] cs h =
      subst (λ (cs : List Child). (length cs ≡ 0) × AllPlanned keys cs) (children_inj h) (refl, tt)
  plan_from-AllPlanned n keys (entry ∷ rest) cs h =
      let (child, more, first, later, same) =
        all_planned cs keys (plan_entry config n keys entry)
          (λ child. plan_from config (suc n) (add_key config child.key keys) rest) h in
      let (count, all) =
        plan_from-AllPlanned (suc n) (add_key config child.key keys) rest more later in
      subst (λ (cs : List Child). (length cs ≡ suc (length rest)) × AllPlanned keys cs) same
        (ap suc count, (plan_entry-IsPlanned n keys entry child first, all))

  -- When `plan_children` returns, the step returned a list, there is one planned child for each
  -- entry, and of each child the input is not empty, the workflow is defined and begins with the
  -- child's first step, the retries are the config's, and the key is that of no child before it.
  pub plan_children-AllPlanned :
      (spawn : SpawnValue) (cs : List Child)
      → plan_children config spawn ≡ ok cs
      → (entries : List (Option ChildTask)) × (spawn ≡ listed entries)
        × (length cs ≡ length entries)
        × AllPlanned [] cs
  unfolding plan_children
  plan_children-AllPlanned unlisted cs h = absurd (cc)
  plan_children-AllPlanned (listed entries) cs h =
      let (count, all) = plan_from-AllPlanned 1 [] entries cs h in (entries, refl, count, all)
