-- ===== src/Machine/Actions/Approval.antt =====
-- Approving a step: what was asked for is what is granted.
use runspool.Gate.{asked_value, grant_value, granted}
use runspool.Gate.Grants.{partition-asked_value, partition-grant_value, granted_iff}
use runspool.Machine.Actions.{Decided, granted_attempt, decide_approve}
use runspool.Models.{illegal_transition, queued, awaiting_approval, status_eq, approval_decided}
use runspool.Machine.Outcome.{event_of}
use runspool.Prelude.{
  ℕ, String, ◌≡◌, ◌≢◌, refl, ◌∙◌, ◌↔◌, true, none, some, [], ◌∷◌, ◌⊎◌, ◌==◌, string_eq, beq_refl,
  beq_ne, not, false, ◌||◌, if◌then◌else◌, Bool-cases, inl, inr,
}
use runspool.Prelude.Exec.{ok, err}
use runspool.Store.Columns.{Cell, write_all}
use runspool.Store.Rows.{Task, text, num}
use runspool.Text.{join, partition}
use runspool.Text.RoundTrip.{int-decimal, rpartition-decimal}

decide_approve-asked :
    (by : String) (t : Task) (s : String) (n : ℕ)
    → t.approval_grant ≡ some (asked_value s n)
    → decide_approve by t ≡ (
        if not (t.status == awaiting_approval) || false
        then err (illegal_transition t.id t.status "approve" "awaiting_approval")
        else if not (s == t.step)
        then err
            (illegal_transition t.id t.status "approve" "awaiting approval of its current step")
        else granted_attempt t by s (some n))
unfolding decide_approve
decide_approve-asked by t s n asked =
    rw (asked, partition-asked_value s n, rpartition-decimal s n, int-decimal n)

-- A task that waits for the approval of attempt `n` of its step is approved, and then granted
-- exactly that attempt of that step.
pub approve_grants :
    (by : String) (t : Task) (n : ℕ)
    → t.status ≡ awaiting_approval
    → t.approval_grant ≡ some (asked_value t.step n)
    → (d : Decided) × (decide_approve by t ≡ ok d)
      × ((write_all d.fields t).status ≡ queued)
      × ((s : String) (k : ℕ)
          → (granted (write_all d.fields t) s k ≡ true) ↔ ((t.step ≡ s) × (n ≡ k)))
unfolding decide_approve
approve_grants by t n waits asked =
    let d : Decided = record {
      fields = Cell.status queued ∷ Cell.approval_grant (some (grant_value t.step n)) ∷ [];
      events =
          event_of approval_decided t.step (join ("approved by " ∷ by ∷ []))
            (("outcome", text "approved") ∷ ("by", text by) ∷ ("attempt", num n) ∷ [])
          ∷ [];
      also = none;
    } in
    (
      d,
      decide_approve-asked by t t.step n asked ∙ rw (waits, beq_refl t.step),
      refl,
      λ s k. granted_iff (write_all d.fields t) t.step s n k refl,
    )

-- Why an approval is refused: the task is not waiting for one, or nothing was asked, or what was asked
-- has been granted already, or it was asked for another step than the one that the task is on.
abbrev pub IsUnapprovable : Task → Type 0
IsUnapprovable t =
    (t.status ≢ awaiting_approval)
    ⊎ (t.approval_grant ≡ none)
    ⊎ ((s : String) × (n : ℕ) × (t.approval_grant ≡ some (grant_value s n)))
    ⊎ ((s : String) × (n : ℕ) × (t.approval_grant ≡ some (asked_value s n)) × (s ≢ t.step))

refused_for :
    (by : String) (t : Task)
    → t.status == awaiting_approval ≡ true
    → IsUnapprovable t
    → (allowed : String) × (decide_approve by t
        ≡ err (illegal_transition t.id t.status "approve" allowed))
unfolding decide_approve partition
refused_for by t waits (inl other) =
    absurd (other ((status_eq.test_iff t.status awaiting_approval).0 waits))
refused_for by t waits (inr (inl nothing)) = ("awaiting_approval", rw (waits, nothing) refl)
refused_for by t waits (inr (inr (inl (s, n, given)))) =
    ("awaiting_approval", rw (waits, given, partition-grant_value s n) refl)
refused_for by t waits (inr (inr (inr (s, n, asked, other)))) = (
  "awaiting approval of its current step",
  decide_approve-asked by t s n asked ∙ rw (waits, beq_ne s t.step other),
)

-- A task that is not awaiting approval cannot be approved, whatever its grant is, nor can one of which
-- nothing was asked, whose grant was given already, or whose approval was asked for another step
-- than the one that it is on.
pub approve_refused :
    (by : String) (t : Task)
    → IsUnapprovable t
    → (allowed : String) × (decide_approve by t
        ≡ err (illegal_transition t.id t.status "approve" allowed))
unfolding decide_approve
approve_refused by t h = elim (Bool-cases (t.status == awaiting_approval)) [
  | inl waits ↦ refused_for by t waits h
  | inr not_waiting ↦ ("awaiting_approval", rw not_waiting refl)
]
