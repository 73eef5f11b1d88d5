-- ===== src/Kernel/Compose/Distinct.antt =====
-- kernel/compose.py: patches add entries and change them in place; ids stay distinct.
use runspool.Prelude.{
  String, false, ◌≡◌, refl, ◌∙◌, List, [], ◌∷◌, ◌++◌, ◌||◌, arith, ◌==◌, string_eq, Bool-cases, inl,
  inr,
}
use runspool.Kernel.Compose.{Value, Entry, has_id, change_entry, deep_merge}
use package.text.Mathlib.TextEquality.{eq_iff}

-- No two entries have the same id.
abbrev pub Distinct : List Entry → Type 0
Distinct [] = Unit {0}
Distinct (e ∷ es) = (has_id e.id es ≡ false) × Distinct es

-- The entries of the first list stand at the head of the second, each with its id and its plugin.
abbrev pub Extends : List Entry → List Entry → Type 0
Extends [] es' = Unit {0}
Extends (e ∷ es) [] = ⊥
Extends (e ∷ es) (e' ∷ es') = (e'.id ≡ e.id) × (e'.plugin ≡ e.plugin) × Extends es es'

Extends-refl : (es : List Entry) → Extends es es
Extends-refl [] = tt
Extends-refl (e ∷ es) = (refl, refl, Extends-refl es)

Extends-trans : (a b c : List Entry) → Extends a b → Extends b c → Extends a c
Extends-trans [] b c h k = tt
Extends-trans (x ∷ a) [] c h k = absurd h
Extends-trans (x ∷ a) (y ∷ b) [] h k = absurd k
Extends-trans (x ∷ a) (y ∷ b) (z ∷ c) (i, p, h) (j, q, k) = (j ∙ i, q ∙ p, Extends-trans a b c h k)

pub Extends-append : (es more : List Entry) → Extends es (es ++ more)
Extends-append [] more = tt
Extends-append (e ∷ es) more = (refl, refl, Extends-append es more)

has_id-append :
    (id : String) (es : List Entry) (e : Entry)
    → has_id id (es ++ (e ∷ [])) ≡ (has_id id es || e.id == id)
has_id-append id [] e = ground arith
has_id-append id (x ∷ es) e = ground (arith, has_id-append id es e)

pub append-Distinct :
    (es : List Entry) (e : Entry) → Distinct es → has_id e.id es ≡ false → Distinct (es ++ (e ∷ []))
append-Distinct [] e d h = (refl, tt)
append-Distinct (x ∷ es) e (n, d) h = (
  ground (arith, has_id-append x.id es e, eq_iff x.id e.id, eq_iff e.id x.id),
  append-Distinct es e d (ground arith),
)

-- What a step of the composition does to the entries.
pub record Kept (es es' : List Entry) : Type 0 where
  pub distinct : Distinct es → Distinct es'
  pub extends : Extends es es'

pub same-Kept : (es : List Entry) → Kept es es
same-Kept es = record { distinct = λ d. d; extends = Extends-refl es }

pub then-Kept : (a b c : List Entry) → Kept a b → Kept b c → Kept a c
then-Kept a b c h k = record {
  distinct = λ d. k.distinct (h.distinct d);
  extends = Extends-trans a b c h.extends k.extends;
}

module _ (f : Entry → Entry) (id_same : (e : Entry) → (f e).id ≡ e.id)
    (plugin_same : (e : Entry) → (f e).plugin ≡ e.plugin) (id : String) where
  has_id-change_entry :
      (k : String) (es : List Entry) → has_id k (change_entry id f es) ≡ has_id k es
  unfolding change_entry
  has_id-change_entry k [] = refl
  has_id-change_entry k (e ∷ es) = ground (arith, has_id-change_entry k es, id_same e)

  pub change_entry-Kept : (es : List Entry) → Kept es (change_entry id f es)
  unfolding change_entry
  change_entry-Kept [] = same-Kept []
  change_entry-Kept (e ∷ es) = elim (Bool-cases (e.id == id)) [
    | inl found ↦ rw found (record {
      distinct = λ d. (rw (id_same e) d.0, d.1);
      extends = (id_same e, plugin_same e, Extends-refl es);
    })
    | inr other ↦
        let rest = change_entry-Kept es in
        rw other (record {
          distinct = λ d. (has_id-change_entry e.id es ∙ d.0, rest.distinct d.1);
          extends = (refl, refl, rest.extends);
        })
  ]

pub merged-Kept :
    (id : String) (v : Value) (es : List Entry)
    → Kept es (change_entry id (λ e. record e { config = deep_merge e.config v }) es)
merged-Kept id v es =
    change_entry-Kept (λ e. record e { config = deep_merge e.config v }) (λ e. refl) (λ e. refl) id
      es
