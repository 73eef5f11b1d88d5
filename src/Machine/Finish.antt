-- ===== src/Machine/Finish.antt =====
-- state_machine.py: `_move`, and the step boundary, `finish_step` and the forced transitions. Each
-- reads the task, decides, and writes by compare-and-set; when another writer came first it reads
-- and decides again, at most `_ATTEMPTS` times.
pub mod Hooks
pub mod Commit
pub mod Row
pub mod Sound
pub mod Live
use runspool.Prelude.{
  ℕ, zero, suc, String, Bool, true, false, not, ◌||◌, Option, none, some, List, [], ◌∷◌,
  if◌then◌else◌, ◌==◌, option_eq, string_eq,
}
use runspool.Prelude.Exec.{Result, ok, err, pure, raise, ◌>>=◌}
use runspool.Models.{
  Error, runtime_error, transition_committed, TaskStatus, paused, terminated, awaiting_external,
  is_terminal, status_eq, EventType,
}
use runspool.Machine.Boundary.{boundary}
use runspool.Machine.Outcome.{
  StateMachine, Outcome, succeeded, deferred, failed, awaits_external, rejected, is_exhausted,
  is_executing, unlock, event,
}
use runspool.Store.Columns.{Cell, get_status, get_step}
use runspool.Store.Items.{canceller, opener, closer, chain}
use runspool.Store.Repository.{Hook, get_task, transition}
use runspool.Store.Repository.Spawning.{Child, result_writer, spawner}
use runspool.Store.Rows.{Task, Event, ItemStatus, accepted, exhausted}
use runspool.Store.World.{World, M}

abbrev pub attempts : ℕ
attempts = 5

-- The hook that `_move` adds: a task that ends, or moves to another step, cancels what is left of
-- its active items, after the transition's own item change.
abbrev pub cancels_for : ℕ → Option TaskStatus → Option String → Option Hook
cancels_for task_id (some status) step =
    if is_terminal status
    then some (canceller task_id none)
    else elim step [ none ↦ none | some s ↦ some (canceller task_id (some s)) ]
cancels_for task_id none none = none
cancels_for task_id none (some step) = some (canceller task_id (some step))

abbrev pub with_cancel : StateMachine → ℕ → List Cell → Option Hook → Option Hook
with_cancel m task_id fields also =
    if m.items
    then chain (also ∷ cancels_for task_id (get_status fields) (get_step fields) ∷ [])
    else also

-- `_move`.
unfoldable pub move :
    StateMachine → ℕ → List Cell → List TaskStatus → List Cell → List Event → Option Hook → M Bool
move m task_id fields expect require events also =
    transition task_id fields expect require events (with_cancel m task_id fields also)

abbrev no_items : Result Error (Option Hook)
no_items = err (runtime_error "the active store has no work items (external steps)")

-- `self._items()`, and a hook of it.
abbrev items_hook : StateMachine → Hook → Result Error (Option Hook)
items_hook m hook = if m.items then ok (some hook) else no_items

abbrev awaits : Option TaskStatus → Bool
awaits none = false
awaits (some status) = status == awaiting_external

-- `_item_change`.
unfoldable pub item_change : StateMachine → Task → Outcome → List Cell → Result Error (Option Hook)
item_change m task (awaits_external r reuse) fields =
    if reuse || not (awaits (get_status fields))
    then ok none
    else items_hook m (opener task.id task.step r)
item_change m task (succeeded _ (some item) run _) fields =
    items_hook m (closer item accepted none run)
item_change m task (rejected reason item attempt max_attempts run) fields = items_hook m (
    closer item (if is_exhausted attempt max_attempts then exhausted else ItemStatus.rejected)
      (some reason) run)
item_change m task _ fields = ok none

abbrev no_spawns : Result Error (Option Hook)
no_spawns = err (runtime_error "the active store cannot spawn child tasks")

-- `_result_change`.
unfoldable pub result_change : StateMachine → Task → Outcome → Result Error (Option Hook)
result_change m task (succeeded _ _ _ (some plan)) =
    if m.spawns then ok (some (result_writer task.id plan)) else no_spawns
result_change m task _ = ok none

abbrev is_terminated : Option TaskStatus → Bool
is_terminated (some terminated) = true
is_terminated _ = false

abbrev has_no_child : List Child → Bool
has_no_child [] = true
has_no_child (_ ∷ _) = false

-- `_spawn_change`.
unfoldable pub spawn_change : StateMachine → Task → Outcome → List Cell → Result Error (Option Hook)
spawn_change m task (succeeded _ _ _ (some plan)) fields =
    if has_no_child plan.children || is_terminated (get_status fields)
    then ok none
    else if m.spawns
    then ok (some (spawner task.id plan))
    else no_spawns
spawn_change m task _ fields = ok none

abbrev pub lift : {A : Type 0} → Result Error A → M A
lift r w = (r, w)

-- The hook of a boundary's transition: the item change, the spawning step's result, its children.
unfoldable pub hooks : StateMachine → Task → Outcome → List Cell → Result Error (Option Hook)
unfolding item_change result_change spawn_change
hooks m task outcome fields = elim (item_change m task outcome fields) [
  | err e ↦ err e
  | ok items ↦ elim (result_change m task outcome) [
    | err e ↦ err e
    | ok written ↦ elim (spawn_change m task outcome fields) [
      | err e ↦ err e
      | ok spawned ↦ ok (chain (items ∷ written ∷ spawned ∷ []))
    ]
  ]
]

abbrev pub or_else : {A : Type 0} → M A → Result Error A × World → Result Error A × World
or_else again (ok a, w) = (ok a, w)
or_else again (err e, w) = again w

-- `_read_back`, with the tries left.
unfoldable pub read_back : ℕ → ℕ → M (Option Task)
read_back zero task_id w = raise (transition_committed task_id) w
read_back (suc tries) task_id w = or_else (read_back tries task_id) (get_task task_id w)

-- The claim token, when the caller gave one, and what `require` says of it.
abbrev pub is_stale_claim : Option String → Task → Bool
is_stale_claim none task = false
is_stale_claim (some token) task = not (task.claim_token == some token)

abbrev token_cell : Option String → List Cell
token_cell none = []
token_cell (some token) = Cell.claim_token (some token) ∷ []

-- The columns that the decision was made from.
abbrev pub requires : Task → Option String → List Cell
requires task token =
    Cell.pause_requested task.pause_requested
    ∷ Cell.terminate_requested task.terminate_requested
    ∷ Cell.retry_count task.retry_count
    ∷ Cell.max_retries task.max_retries
    ∷ token_cell token

abbrev pub after_move : M (Option Task) → ℕ → Bool → M (Option Task)
after_move again task_id moved = if moved then read_back 3 task_id else again

-- One round of `finish_step`, once the task is read; `again` is the next round.
unfoldable pub resolve :
    StateMachine → ℕ → Outcome → Option String → M (Option Task) → Option Task → M (Option Task)
unfolding boundary hooks move
resolve m task_id outcome token again none = pure none
resolve m task_id outcome token again (some task) =
    if not (is_executing task.status) || is_stale_claim token task then pure (some task) else (do
      change ← boundary m task outcome task.terminate_requested task.pause_requested
      also ← lift (hooks m task outcome change.fields)
      moved ←
          move m task_id change.fields (task.status ∷ []) (requires task token) change.events also
      after_move again task_id moved)

-- The rounds of `finish_step` that are left.
unfoldable pub finish_rounds : ℕ → StateMachine → ℕ → Outcome → Option String → M (Option Task)
unfolding resolve
finish_rounds zero m task_id outcome token = get_task task_id
finish_rounds (suc n) m task_id outcome token = do
  task ← get_task task_id
  resolve m task_id outcome token (finish_rounds n m task_id outcome token) task

-- `finish_step`.
unfoldable pub finish_step : StateMachine → ℕ → Outcome → Option String → M (Option Task)
unfolding finish_rounds
finish_step m task_id outcome token = finish_rounds attempts m task_id outcome token

abbrev pub unless : Bool → M Unit → M Unit
unless moved again = if moved then pure tt else again

unfoldable pub force_once : StateMachine → ℕ → Outcome → Bool → Bool → M Unit → Option Task → M Unit
unfolding boundary move
force_once m task_id outcome terminate pause again none = pure tt
force_once m task_id outcome terminate pause again (some task) =
    if not (is_executing task.status) then pure tt else (do
      change ← boundary m task outcome terminate pause
      moved ← move m task_id change.fields (task.status ∷ []) [] change.events none
      unless moved again)

force_rounds : ℕ → StateMachine → ℕ → Outcome → Bool → Bool → M Unit
unfolding force_once
force_rounds zero m task_id outcome terminate pause = pure tt
force_rounds (suc n) m task_id outcome terminate pause = do
  task ← get_task task_id
  force_once m task_id outcome terminate pause (force_rounds n m task_id outcome terminate pause)
      task

-- `_force`.
unfoldable pub force : StateMachine → ℕ → Outcome → Bool → Bool → M Unit
unfolding force_rounds
force m task_id outcome terminate pause = force_rounds attempts m task_id outcome terminate pause

-- `complete_step`.
unfoldable pub complete_step : StateMachine → ℕ → Bool → M Unit
unfolding force
complete_step m task_id degraded = force m task_id (succeeded degraded none none none) false false

-- `defer`.
unfoldable pub defer : StateMachine → ℕ → String → ℕ → M Unit
unfolding force
defer m task_id reason delay = force m task_id (deferred reason delay) false false

-- `fail`.
unfoldable pub fail : StateMachine → ℕ → String → ℕ → Bool → M Unit
unfolding force
fail m task_id error delay no_retry = force m task_id (failed error delay no_retry) false false

-- `pause_after_successful_step`.
unfoldable pub pause_after_successful_step : StateMachine → ℕ → M Unit
unfolding force
pause_after_successful_step m task_id = force m task_id (succeeded false none none none) false true

-- `apply_terminate`.
unfoldable pub apply_terminate : StateMachine → ℕ → M Unit
unfolding force
apply_terminate m task_id = force m task_id (succeeded false none none none) true false

pause_once : StateMachine → ℕ → M Unit → Option Task → M Unit
unfolding move
pause_once m task_id again none = pure tt
pause_once m task_id again (some task) = if not (is_executing task.status) then pure tt else (do
  moved ←
      move m task_id (Cell.status paused ∷ Cell.pause_requested false ∷ unlock) (task.status ∷ [])
        [] (event EventType.paused task.step ∷ []) none
  unless moved again)

pause_rounds : ℕ → StateMachine → ℕ → M Unit
unfolding pause_once
pause_rounds zero m task_id = pure tt
pause_rounds (suc n) m task_id = do
  task ← get_task task_id
  pause_once m task_id (pause_rounds n m task_id) task

-- `apply_pause`.
unfoldable pub apply_pause : StateMachine → ℕ → M Unit
unfolding pause_rounds
apply_pause m task_id = pause_rounds attempts m task_id
