-- ===== src/Models/Workflow.antt =====
-- models.py: `next_step` walks the steps of a workflow in their order.
use runspool.Models.{Error, WorkflowDef, NextStep, index, next_step, get_elem?}
use runspool.Prelude.{
  ℕ, zero, suc, ◌+◌, String, true, false, not, ◌≡◌, ◌≢◌, refl, sym, ◌∙◌, Option, none, some, List,
  [], ◌∷◌, arith, All, is_some, contains, length, leb, string_eq, beq_refl, beq_ne, some_inj,
  if◌then◌else◌,
}
use runspool.Prelude.Exec.{Result, ok}

-- No name stands twice in the list.
abbrev Distinct : List String → Type 0
Distinct [] = Unit
Distinct (x ∷ xs) = All (λ y. x ≢ y) xs × Distinct xs

get_elem-ne :
    (x : String) (xs : List String) (i : ℕ) (y : String)
    → All (λ z. x ≢ z) xs
    → get_elem? xs i ≡ some y
    → x ≢ y
get_elem-ne x [] i y h e = absurd (cc)
get_elem-ne x (z ∷ zs) zero y h e = λ q. h.0 (q ∙ some_inj (sym e))
get_elem-ne x (z ∷ zs) (suc i) y h e = get_elem-ne x zs i y h.1 e

index-get_elem :
    (xs : List String) (i : ℕ) (y : String) → Distinct xs → get_elem? xs i ≡ some y → index xs y ≡ i
unfolding index
index-get_elem [] i y d e = absurd (cc)
index-get_elem (x ∷ xs) zero y d e = rw (some_inj e, beq_refl y)
index-get_elem (x ∷ xs) (suc i) y d e =
    rw (beq_ne x y (get_elem-ne x xs i y d.0 e), index-get_elem xs i y d.1 e)

contains-get_elem :
    (xs : List String) (i : ℕ) (y : String) → get_elem? xs i ≡ some y → contains xs y ≡ true
contains-get_elem [] i y e = absurd (cc)
contains-get_elem (x ∷ xs) zero y e = rw (some_inj e, beq_refl y)
contains-get_elem (x ∷ xs) (suc i) y e = ground (arith, contains-get_elem xs i y e)

is_last : (xs : List String) (i : ℕ) → leb (length xs) i ≡ not (is_some (get_elem? xs i))
is_last [] zero = refl
is_last [] (suc i) = ground arith
is_last (x ∷ xs) zero = ground arith
is_last (x ∷ xs) (suc i) = ground (arith, is_last xs i)

split_next :
    (next : Option String)
    → ◌≡◌ {A = Result Error NextStep}
        (if not (is_some next)
          then ok (record { step = none; done = true })
          else ok (record { step = next; done = false }))
        (ok (record { step = next; done = not (is_some next) }))
split_next none = refl
split_next (some s) = refl

-- In a workflow whose step names are distinct, what follows the step at place `i` is the step at
-- place `i + 1`, and the workflow is done exactly when there is none.
next_step-follows :
    (w : WorkflowDef) (i : ℕ) (s : String)
    → Distinct w.steps
    → get_elem? w.steps i ≡ some s
    → next_step w s
      ≡ ok (record {
        step = get_elem? w.steps (i + 1);
        done = not (is_some (get_elem? w.steps (i + 1)));
      })
unfolding next_step
next_step-follows w i s d e =
    rw (contains-get_elem w.steps i s e, index-get_elem w.steps i s d e, is_last w.steps (i + 1))
      (split_next (get_elem? w.steps (i + 1)))
