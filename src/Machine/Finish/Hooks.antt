-- ===== src/Machine/Finish/Hooks.antt =====
-- The hooks that go with a transition raise no `TransitionCommitted`.
use runspool.Prelude.{
  ℕ, String, Bool, true, false, not, ◌||◌, inl, inr, Bool-cases, Option, none, some, List, [], ◌∷◌,
  if◌then◌else◌,
}
use runspool.Prelude.Exec.{Result, ok, err}
use runspool.Machine.Finish.{
  item_change, result_change, spawn_change, hooks, with_cancel, cancels_for, items_hook, awaits,
  has_no_child, is_terminated,
}
use runspool.Machine.Outcome.{StateMachine, Outcome, succeeded, rejected, awaits_external}
use runspool.Models.{Error, TaskStatus, is_terminal, status_eq}
use runspool.Store.Columns.{Cell, get_status, get_step}
use runspool.Store.Interleaving.{IsPlain}
use runspool.Store.Items.{chain}
use runspool.Store.Items.Errors.{
  IsPlainOption, chain-IsPlain, opener-IsPlainHook, closer-IsPlainHook, canceller-IsPlainHook,
}
use runspool.Store.Plain.{IsPlainHook}
use runspool.Store.Repository.{Hook}
use runspool.Store.Repository.Spawning.Errors.{result_writer-IsPlainHook, spawner-IsPlainHook}
use runspool.Store.Rows.{Task, accepted}

abbrev pub IsPlainChange : Result Error (Option Hook) → Type 0
IsPlainChange (ok h) = IsPlainOption h
IsPlainChange (err e) = IsPlain e

plain-if_change :
    (b : Bool) (r : Result Error (Option Hook))
    → IsPlainChange r
    → IsPlainChange (if b then ok none else r)
plain-if_change true r p = tt
plain-if_change false r p = p

plain_items_hook : (m : StateMachine) (h : Hook) → IsPlainHook h → IsPlainChange (items_hook m h)
plain_items_hook m h p = elim (Bool-cases m.items) [ inl e ↦ rw e p | inr e ↦ rw e tt ]

plain-item_change :
    (m : StateMachine) (t : Task) (o : Outcome) (fields : List Cell)
    → IsPlainChange (item_change m t o fields)
unfolding item_change
plain-item_change m t (awaits_external r reuse) fields =
    plain-if_change (reuse || not (awaits (get_status fields))) _
      (plain_items_hook m _ (opener-IsPlainHook t.id t.step r))
plain-item_change m t (succeeded _ (some item) run _) fields =
    plain_items_hook m _ (closer-IsPlainHook item accepted none run)
plain-item_change m t (rejected reason item n limit run) fields =
    plain_items_hook m _ (closer-IsPlainHook item _ (some reason) run)
plain-item_change m t _ fields = tt

plain-result_change :
    (m : StateMachine) (t : Task) (o : Outcome) → IsPlainChange (result_change m t o)
unfolding result_change
plain-result_change m t (succeeded _ _ _ (some plan)) = elim (Bool-cases m.spawns) [
  | inl e ↦ rw e (result_writer-IsPlainHook t.id plan)
  | inr e ↦ rw e tt
]
plain-result_change m t _ = tt

plain-spawn_change :
    (m : StateMachine) (t : Task) (o : Outcome) (fields : List Cell)
    → IsPlainChange (spawn_change m t o fields)
unfolding spawn_change
plain-spawn_change m t (succeeded _ _ _ (some plan)) fields =
    plain-if_change (has_no_child plan.children || is_terminated (get_status fields)) _
      (elim (Bool-cases m.spawns) [
        | inl e ↦ rw e (spawner-IsPlainHook t.id plan)
        | inr e ↦ rw e tt
      ])
plain-spawn_change m t _ fields = tt

plain_joined :
    (a b c : Result Error (Option Hook))
    → IsPlainChange a
    → IsPlainChange b
    → IsPlainChange c
    → IsPlainChange (elim a [
      | err e ↦ err e
      | ok items ↦ elim b [
        | err e ↦ err e
        | ok written ↦ elim c [
          | err e ↦ err e
          | ok spawned ↦ ok (chain (items ∷ written ∷ spawned ∷ []))
        ]
      ]
    ])
plain_joined (err e) b c p q r = p
plain_joined (ok x) (err e) c p q r = q
plain_joined (ok x) (ok y) (err e) p q r = r
plain_joined (ok x) (ok y) (ok z) p q r = chain-IsPlain (x ∷ y ∷ z ∷ []) (p, (q, (r, tt)))

-- The hook of a boundary's transition, and the error where there is none.
pub hooks-IsPlain :
    (m : StateMachine) (t : Task) (o : Outcome) (fields : List Cell)
    → IsPlainChange (hooks m t o fields)
unfolding hooks
hooks-IsPlain m t o fields =
    plain_joined _ _ _ (plain-item_change m t o fields) (plain-result_change m t o)
      (plain-spawn_change m t o fields)

plain_cancel :
    (i : ℕ) (s : Option TaskStatus) (step : Option String) → IsPlainOption (cancels_for i s step)
plain_cancel i none none = tt
plain_cancel i none (some step) = canceller-IsPlainHook i (some step)
plain_cancel i (some s) none = elim (Bool-cases (is_terminal s)) [
  | inl e ↦ rw e (canceller-IsPlainHook i none)
  | inr e ↦ rw e tt
]
plain_cancel i (some s) (some step) = elim (Bool-cases (is_terminal s)) [
  | inl e ↦ rw e (canceller-IsPlainHook i none)
  | inr e ↦ rw e (canceller-IsPlainHook i (some step))
]

-- So does the hook that `_move` passes on.
pub with_cancel-IsPlain :
    (m : StateMachine) (i : ℕ) (fields : List Cell) (also : Option Hook)
    → IsPlainOption also
    → IsPlainOption (with_cancel m i fields also)
with_cancel-IsPlain m i fields also p = elim (Bool-cases m.items) [
  | inl e ↦ rw e (
      chain-IsPlain (also ∷ cancels_for i (get_status fields) (get_step fields) ∷ [])
        (p, (plain_cancel i (get_status fields) (get_step fields), tt)))
  | inr e ↦ rw e p
]
