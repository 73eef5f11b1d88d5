-- ===== src/Gate/Grants.antt =====
-- An approval is good for one attempt of one step, also where a step's name holds colons.
use mathlib.Core.Path.{ap₂}
use runspool.Gate.{asked_value, grant_value, granted}
use runspool.Prelude.{
  ℕ, String, ◌≡◌, refl, sym, ap, ◌∙◌, ◌↔◌, true, some, [], ◌∷◌, option_beq_iff, some_inj, string_eq,
  option_eq,
}
use runspool.Store.Rows.{Task}
use runspool.Text.{append, join, decimal, int, partition, rpartition}
use runspool.Text.RoundTrip.{int-decimal, rpartition-decimal}

append-empty : (s : String) → append s "" ≡ s
unfolding append
append-empty String.[] = refl
append-empty (String.◌∷◌ c s) = ap (String.◌∷◌ c) (append-empty s)

-- What stands behind the kind of a grant.
abbrev subject : String → ℕ → String
subject step attempt = append step (append ":" (decimal attempt))

join-subject : (step : String) (n : ℕ) → join (step ∷ ":" ∷ decimal n ∷ []) ≡ subject step n
unfolding join
join-subject step n = rw append-empty

pub partition-asked_value :
    (step : String) (n : ℕ) → partition (asked_value step n) ≡ ("asked", subject step n)
unfolding asked_value partition join append
partition-asked_value step n = ap (λ s. ("asked", s)) (join-subject step n)

pub partition-grant_value :
    (step : String) (n : ℕ) → partition (grant_value step n) ≡ ("granted", subject step n)
unfolding grant_value partition join append
partition-grant_value step n = ap (λ s. ("granted", s)) (join-subject step n)

subject-injective : (s t : String) (m n : ℕ) → subject s m ≡ subject t n → (s ≡ t) × (m ≡ n)
subject-injective s t m n h =
    let parts : rpartition (subject s m) ≡ rpartition (subject t n) = ap rpartition h in
    let both : (s, decimal m) ≡ (t, decimal n) =
      sym (rpartition-decimal s m) ∙ parts ∙ rpartition-decimal t n in
    (
      ap (λ (p : String × String). p.0) both,
      some_inj
          (sym (int-decimal m) ∙ ap int (ap (λ (p : String × String). p.1) both) ∙ int-decimal n),
    )

grant_value-injective :
    (s t : String) (m n : ℕ) → grant_value s m ≡ grant_value t n → (s ≡ t) × (m ≡ n)
grant_value-injective s t m n h = subject-injective s t m n (
    ap (λ (p : String × String). p.1)
      (sym (partition-grant_value s m) ∙ ap partition h ∙ partition-grant_value t n))

-- A task that holds the grant of an attempt of a step is granted that attempt of that step and no
-- other, whatever characters the names of the steps hold.
pub granted_iff :
    (task : Task) (s t : String) (m n : ℕ)
    → task.approval_grant ≡ some (grant_value s m)
    → (granted task t n ≡ true) ↔ ((s ≡ t) × (m ≡ n))
unfolding granted
granted_iff task s t m n e = (
  λ h.
      grant_value-injective s t m n
        (some_inj (sym e ∙ (option_beq_iff task.approval_grant (some (grant_value t n))).0 h)),
  λ p.
      (option_beq_iff task.approval_grant (some (grant_value t n))).1
        (e ∙ ap some (ap₂ grant_value p.0 p.1)),
)
