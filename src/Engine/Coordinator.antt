-- ===== src/Engine/Coordinator.antt =====
-- engine/coordinator.py: the rounds of the scheduler. `Here` is what the coordinator's process has: its
-- view of the database, the tasks that it runs with their claims, and the jobs that it has handed to
-- the pool.
pub mod Loads
pub mod Calls
pub mod Claims
pub mod Quota
use runspool.Prelude.{
  ℕ, zero, suc, ◌+◌, String, Bool, true, false, ◌||◌, not, Option, none, some, List, [], ◌∷◌, ◌++◌,
  leb, ltb, if◌then◌else◌, ◌==◌, nat_eq, string_eq, option_eq, ◌&&◌,
}
use runspool.Prelude.Exec.{Result, ok, err, Exec, pure, raise, gets, ◌>>=◌, ◌>>◌}
use runspool.Machine.Outcome.{StateMachine}
use runspool.Machine.Scheduler.{claim, skip_step, requeue_failed, requeue_stale}
use runspool.Models.{Error, WorkflowDef, TaskStatus, queued, running, pause_pending}
use runspool.Store.Repository.Queries.{list_by_status, list_due_failed, list_stale_running}
use runspool.Store.Rows.{Task}
use runspool.Store.World.{World, M, utcnow}
use runspool.Text.{join, decimal}

-- What the scheduler asks of a registered step: `when`, and whether `retry is False`.
pub record Scheduled : Type 0 where
  pub when : Task → Result Error Bool
  pub no_retry : Bool

pub record Coordinator : Type 0 where
  pub workflow : String → Option WorkflowDef
  pub step_quota : String → ℕ
  pub registry : String → Option Scheduled
  -- whether the store has work items, and can spawn
  pub items : Bool
  pub spawns : Bool

-- A run that was handed to the pool, under a claim.
pub record Job : Type 0 where
  pub task_id : ℕ
  pub token : String

-- `gone n` are the runs that have ended when the lock is taken after n transactions; `uuid` gives
-- the tokens, and `issued` counts them.
pub record Here : Type 0 where
  pub world : World
  pub inflight : List Job
  pub jobs : List Job
  pub issued : ℕ
  pub uuid : ℕ → String
  pub gone : ℕ → Job → Bool

-- A method of the coordinator.
abbrev pub C : Type 0 → Type 0
C A = Exec Error Here A

abbrev pub placed : {A : Type 0} → Here → Result Error A × World → Result Error A × Here
placed h (r, w) = (r, record h { world = w })

-- A call of the store or of a state machine.
abbrev pub in_store : {A : Type 0} → M A → C A
in_store m h = placed h (m h.world)

abbrev machine_of : Coordinator → Option WorkflowDef → Option StateMachine
machine_of c none = none
machine_of c (some w) =
    some (record { workflow = w; step_runs = true; items = c.items; spawns = c.spawns })

-- `_state_machine_for`.
unfoldable pub state_machine_for : Coordinator → Task → Option StateMachine
state_machine_for c task = machine_of c (c.workflow task.workflow)

-- `uuid4().hex`.
abbrev pub fresh_token : C String
fresh_token h = (ok (h.uuid h.issued), record h { issued = suc h.issued })

without_gone : (Job → Bool) → List Job → List Job
without_gone gone [] = []
without_gone gone (j ∷ js) = let rest = without_gone gone js in if gone j then rest else j ∷ rest

-- `with self._inflight_lock`: the runs that have ended are gone.
unfoldable pub locked : Here → Here
unfolding without_gone
locked h = record h { inflight = without_gone (h.gone h.world.tick) h.inflight }

without_task : ℕ → List Job → List Job
without_task i [] = []
without_task i (j ∷ js) = let rest = without_task i js in if j.task_id == i then rest else j ∷ rest

-- `_submit`.
unfoldable pub submit : ℕ → String → C (Unit {0})
unfolding locked without_task
submit task_id token h =
    let job : Job = record { task_id = task_id; token = token } in
    (
      ok tt,
      record (locked h) {
        inflight = job ∷ without_task task_id (locked h).inflight;
        jobs = h.jobs ++ (job ∷ []);
      },
    )

unfoldable pub token_of : ℕ → List Job → Option String
token_of i [] = none
token_of i (j ∷ js) = if j.task_id == i then some j.token else token_of i js

abbrev is_claim : Option String → Option String → Bool
is_claim none claim = false
is_claim (some token) claim = claim == some token

-- `_running_here`.
unfoldable pub running_here : Task → C Bool
unfolding locked token_of
running_here task h =
    (ok (is_claim (token_of task.id (locked h).inflight) task.claim_token), locked h)

-- The loop of `_requeue_due_failures`.
unfoldable pub requeue_due : Coordinator → List Task → ℕ → C ℕ
unfolding state_machine_for requeue_failed
requeue_due c [] count = pure count
requeue_due c (t ∷ ts) count = elim (state_machine_for c t) [
  | none ↦ requeue_due c ts count
  | some m ↦ do in_store (requeue_failed m t.id); requeue_due c ts (suc count)
]

-- `_requeue_due_failures`.
unfoldable pub requeue_due_failures : Coordinator → C ℕ
unfolding requeue_due list_due_failed
requeue_due_failures c = do due ← in_store list_due_failed; requeue_due c due 0

-- `load.get(step, 0)`, and `load[step] = load.get(step, 0) + 1`.
unfoldable pub load_of : List (String × ℕ) → String → ℕ
load_of [] step = 0
load_of ((s, n) ∷ rest) step = if s == step then n else load_of rest step

unfoldable pub bump : String → List (String × ℕ) → List (String × ℕ)
bump step [] = (step, 1) ∷ []
bump step ((s, n) ∷ rest) = if s == step then (s, suc n) ∷ rest else (s, n) ∷ bump step rest

unfoldable pub count_load : List Task → List (String × ℕ) → List (String × ℕ)
unfolding bump
count_load [] load = load
count_load (t ∷ ts) load = count_load ts (bump t.step load)

-- What the loop of `tick` changes.
pub record Round : Type 0 where
  pub load : List (String × ℕ)
  pub progressed : ℕ

abbrev pub is_later : ℕ → Option ℕ → Bool
is_later now none = false
is_later now (some at) = ltb now at

abbrev pub worker_name : ℕ → String
worker_name task_id = join ("pool-" ∷ decimal task_id ∷ [])

abbrev pub claimed_round : Round → Task → String → Bool → C Round
claimed_round s task token won =
    if won
    then (do
      submit task.id token
      pure (record { load = bump task.step s.load; progressed = suc s.progressed }))
    else pure s

-- A task whose step may run is claimed with a fresh token, and handed to the pool.
unfoldable pub claim_round : StateMachine → Round → Task → C Round
unfolding claim submit bump
claim_round m s task = do
  token ← fresh_token
  won ← in_store (claim m task.id (worker_name task.id) (some token))
  claimed_round s task token won

abbrev pub guarded_round : StateMachine → Round → Task → Result Error Bool → C Round
guarded_round m s task (err e) = raise e
guarded_round m s task (ok true) = claim_round m s task
guarded_round m s task (ok false) = do
  in_store (skip_step m task.id)
  pure (record s { progressed = suc s.progressed })

abbrev pub registered_round : StateMachine → Round → Task → Option Scheduled → C Round
registered_round m s task none = pure s
registered_round m s task (some step) = guarded_round m s task (step.when task)

abbrev pub machine_round : Coordinator → Round → Task → Option StateMachine → C Round
machine_round c s task none = pure s
machine_round c s task (some m) = registered_round m s task (c.registry task.step)

-- The body of `tick`'s loop.
unfoldable pub consider : Coordinator → ℕ → Round → Task → C Round
unfolding load_of state_machine_for claim_round
consider c now s task =
    if is_later now task.next_retry_at
    then pure s
    else if leb (c.step_quota task.step) (load_of s.load task.step)
    then pure s
    else machine_round c s task (state_machine_for c task)

unfoldable pub consider_all : Coordinator → ℕ → Round → List Task → C Round
unfolding consider
consider_all c now s [] = pure s
consider_all c now s (t ∷ ts) = do s' ← consider c now s t; consider_all c now s' ts

abbrev pub finished : Round → C ℕ
finished s = pure s.progressed

-- `tick`, behind the requeues and the loads.
unfoldable pub schedule : Coordinator → Round → C ℕ
unfolding consider_all list_by_status
schedule c s = do
  now ← in_store utcnow
  waiting ← in_store (list_by_status queued)
  end ← consider_all c now s waiting
  finished end

-- The round that the loads start with.
abbrev pub loaded : ℕ → List Task → List Task → Round
loaded requeued busy pausing = record {
  load = count_load pausing (count_load busy []);
  progressed = requeued;
}

-- `tick`.
unfoldable pub tick : Coordinator → C ℕ
unfolding requeue_due_failures schedule count_load list_by_status
tick c = do
  requeued ← requeue_due_failures c
  busy ← in_store (list_by_status running)
  pausing ← in_store (list_by_status pause_pending)
  schedule c (loaded requeued busy pausing)

-- `registry.no_retry`.
abbrev no_retry : Option Scheduled → Bool
no_retry none = true
no_retry (some step) = step.no_retry

abbrev pub reclaim_one : Coordinator → Task → Bool → Option StateMachine → C (Unit {0})
reclaim_one c task true m = pure tt
reclaim_one c task false none = pure tt
reclaim_one c task false (some m) =
    in_store (requeue_stale m task.id (some (λ name. no_retry (c.registry name))))

-- The loop of `reclaim_stale`.
unfoldable pub reclaim_all : Coordinator → List Task → C (Unit {0})
unfolding running_here state_machine_for requeue_stale
reclaim_all c [] = pure tt
reclaim_all c (t ∷ ts) = do
  here ← running_here t
  reclaim_one c t here (state_machine_for c t)
  reclaim_all c ts

-- `reclaim_stale`.
unfoldable pub reclaim_stale : Coordinator → ℕ → C (Unit {0})
unfolding reclaim_all list_stale_running
reclaim_stale c timeout_seconds = do
  stale ← in_store (list_stale_running timeout_seconds)
  reclaim_all c stale
