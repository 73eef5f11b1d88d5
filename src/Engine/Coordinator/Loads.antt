-- ===== src/Engine/Coordinator/Loads.antt =====
-- engine/coordinator.py: counting the claims of a round, and the dict of loads by step.
use runspool.Prelude.{
  ℕ, ◌+◌, String, ◌≡◌, refl, ap, List, [], ◌∷◌, ◌++◌, arith, if◌then◌else◌, ◌==◌, string_eq,
}
use runspool.Engine.Coordinator.{Job, load_of, bump, count_load}
use runspool.Store.Rows.{Task}
use text.Mathlib.TextEquality.{eq_iff}

-- The tasks claimed, each with its token, and the jobs that run them.
abbrev pub jobs_of : List (Task × String) → List Job
jobs_of [] = []
jobs_of ((t, token) ∷ rest) = record { task_id = t.id; token = token } ∷ jobs_of rest

abbrev pub count_claims : String → List (Task × String) → ℕ
count_claims step [] = 0
count_claims step ((t, _) ∷ rest) = (if t.step == step then 1 else 0) + count_claims step rest

abbrev pub count_steps : String → List Task → ℕ
count_steps step [] = 0
count_steps step (t ∷ rest) = (if t.step == step then 1 else 0) + count_steps step rest

pub load-bump :
    (s step : String) (load : List (String × ℕ))
    → load_of (bump s load) step ≡ load_of load step + (if s == step then 1 else 0)
unfolding load_of bump
load-bump s step [] = ground arith
load-bump s step ((k, n) ∷ rest) =
    ground (arith, load-bump s step rest, eq_iff k s, eq_iff s step, eq_iff k step)

pub load-nil : (step : String) → load_of [] step ≡ 0
unfolding load_of
load-nil step = refl

pub load-count_load :
    (step : String) (ts : List Task) (load : List (String × ℕ))
    → load_of (count_load ts load) step ≡ load_of load step + count_steps step ts
unfolding count_load
load-count_load step [] load = omega arith
load-count_load step (t ∷ ts) load =
    omega (arith, load-count_load step ts (bump t.step load), load-bump t.step step load)

pub jobs_of-append : (xs ys : List (Task × String)) → jobs_of (xs ++ ys) ≡ jobs_of xs ++ jobs_of ys
jobs_of-append [] ys = refl
jobs_of-append ((t, k) ∷ xs) ys =
    ap (λ (js : List Job). record { task_id = t.id; token = k } ∷ js) (jobs_of-append xs ys)

pub count_claims-append :
    (step : String) (xs ys : List (Task × String))
    → count_claims step (xs ++ ys) ≡ count_claims step xs + count_claims step ys
count_claims-append step [] ys = omega arith
count_claims-append step ((t, k) ∷ xs) ys = omega (arith, count_claims-append step xs ys)
