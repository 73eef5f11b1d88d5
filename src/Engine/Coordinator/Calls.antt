-- ===== src/Engine/Coordinator/Calls.antt =====
-- engine/coordinator.py: the calls of the store and of the state machines that a round makes, in order.
use mathlib.Core.Path.{subst}
use runspool.Prelude.{ℕ, String, true, false, ◌≡◌, refl, sym, ap, some, List, [], ◌∷◌, ◌++◌}
use runspool.Prelude.Exec.{Result, ok, err}
use runspool.Engine.Coordinator.{Here, placed, in_store, worker_name}
use runspool.Machine.Outcome.{StateMachine}
use runspool.Machine.Scheduler.{claim, skip_step, requeue_failed}
use runspool.Models.{Error, TaskStatus}
use runspool.Store.Repository.Queries.{list_by_status, list_due_failed}
use runspool.Store.Rows.{Task}
use runspool.Store.World.{World}

-- One call that claims nothing.
pub data Call (w v : World) : Type 0 where
  requeues : (m : StateMachine) (i : ℕ) → requeue_failed m i w ≡ (ok tt, v) → Call w v
  skips : (m : StateMachine) (i : ℕ) → skip_step m i w ≡ (ok tt, v) → Call w v
  lists : (s : TaskStatus) (ts : List Task) → list_by_status s w ≡ (ok ts, v) → Call w v
  lists_due : (ts : List Task) → list_due_failed w ≡ (ok ts, v) → Call w v
  loses :
      (m : StateMachine) (t : Task) (token : String)
      → claim m t.id (worker_name t.id) (some token) w ≡ (ok false, v)
      → Call w v

-- The calls from the first world to the second, and the claims among them that succeeded.
pub data Calls : World → List (Task × String) → World → Type 0 where
  rest : {w : World} → Calls w [] w
  other : {u v w : World} {cs : List (Task × String)} → Call u v → Calls v cs w → Calls u cs w
  wins :
      {u v w : World} {cs : List (Task × String)} (m : StateMachine) (t : Task) (token : String)
      → claim m t.id (worker_name t.id) (some token) u ≡ (ok true, v)
      → Calls v cs w
      → Calls u ((t, token) ∷ cs) w

pub Calls-trans :
    {u v w : World} {bs cs : List (Task × String)}
    → Calls u bs v
    → Calls v cs w
    → Calls u (bs ++ cs) w
Calls-trans rest k = k
Calls-trans (other c h) k = other c (Calls-trans h k)
Calls-trans (wins m t token e h) k = wins m t token e (Calls-trans h k)

pub value_eq :
    {A : Type 0} (a b : A) (h k : Here)
    → ◌≡◌ {A = Result Error A × Here} (ok a, h) (ok b, k)
    → (a ≡ b) × (h ≡ k)
value_eq a b h k e = (cc, cc)

-- A call of the store hands no job to the pool.
pub in_store-jobs :
    {A : Type 0} (m : World → Result Error A × World) (h h' : Here) (a : A)
    → in_store m h ≡ (ok a, h')
    → h'.jobs ≡ h.jobs
in_store-jobs {A} m h h' a e = ap (λ (x : Result Error A × Here). x.1.jobs) (sym e)

pub ran :
    {A : Type 0} (r : Result Error A × World) (h h' : Here) (a : A)
    → placed h r ≡ (ok a, h')
    → r ≡ (ok a, h'.world)
ran (ok b, w) h h' a e =
    let (same, here) = value_eq b a (record h { world = w }) h' e in
    let world = ap (λ (x : Here). x.world) here in cc
ran (err x, w) h h' a e = absurd (cc)

-- Nothing but the world has changed, and that by calls that claim nothing.
pub record Unclaimed (h h' : Here) : Type 0 where
  pub jobs : h'.jobs ≡ h.jobs
  pub calls : Calls h.world [] h'.world

pub same-Unclaimed : (h h' : Here) → h ≡ h' → Unclaimed h h'
same-Unclaimed h h' e = subst (Unclaimed h) e (record { jobs = refl; calls = rest })

pub Unclaimed-trans : (h u h' : Here) → Unclaimed h u → Unclaimed u h' → Unclaimed h h'
Unclaimed-trans h u h' a b = record { jobs = rw b.jobs a.jobs; calls = Calls-trans a.calls b.calls }

pub single_step :
    {A : Type 0} (m : World → Result Error A × World) (h h' : Here) (a : A)
    → ((v : World) → m h.world ≡ (ok a, v) → Call h.world v)
    → in_store m h ≡ (ok a, h')
    → Unclaimed h h'
single_step m h h' a k e = record {
  jobs = in_store-jobs m h h' a e;
  calls = other (k h'.world (ran (m h.world) h h' a e)) rest;
}
