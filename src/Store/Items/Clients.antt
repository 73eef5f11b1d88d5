-- ===== src/Store/Items/Clients.antt =====
-- work_items.py: claiming and releasing items, and the end of a task's items.
use runspool.Prelude.{
  ℕ, String, true, false, ◌≡◌, refl, Option, none, some, List, [], ◌∷◌, inl, inr, arith, nat_eq,
  Option-cases, ◌&&◌,
}
use runspool.Prelude.Exec.{Result, ok, err, pure, ◌>>◌}
use runspool.Models.{Error, EventType}
use runspool.Store.Events.{insert_event}
use runspool.Store.Items.{item_key, is_active_of, claim, canceller, log_item}
use runspool.Store.Items.Active.{IsSingle, count, changed-IsSingle}
use runspool.Store.Rows.{Db, WorkItem, Scalar}
use runspool.Store.Table.{find, select, update_all}
use runspool.Store.World.{World, advance, attempt, connect}

log_item-work_items :
    {A : Type 0} (a : A) (type : EventType) (k : ℕ) (rest : List (String × Scalar)) (now : ℕ)
    (db : Db)
    → ((log_item type k rest now >> pure a) db).1.work_items ≡ db.work_items
unfolding insert_event
log_item-work_items a type k rest now db = elim (Option-cases (find item_key k db.work_items)) [
  | inl e ↦ rw (log_item, e) refl
  | inr (i, e) ↦ rw (log_item, e) refl
]

attempted-IsSingle :
    {A : Type 0} (i : ℕ) (w : World) (fault : Option String) (r : Result Error A × Db)
    → IsSingle i w.db.work_items
    → IsSingle i r.1.work_items
    → IsSingle i (attempt w fault r).1.db.work_items
attempted-IsSingle i w none (ok a, db) s t = t
attempted-IsSingle i w none (err e, db) s t = s
attempted-IsSingle i w (some message) r s t = s

-- A claim of an item leaves a task with at most one active item, if it had at most one when the
-- claim's transaction began, whether the claim succeeds or not.
pub claim-IsSingle :
    (i k : ℕ) (by token : String) (w : World)
    → IsSingle i (w.others w.tick w.db).work_items
    → IsSingle i (claim k by token w).1.db.work_items
unfolding claim connect advance
claim-IsSingle i k by token w s = attempted-IsSingle i (advance w) (w.fault w.tick) _ s (
    changed-IsSingle i k _ _ (ok none) (w.others w.tick w.db) _ s (λ x h. ground arith)
      (log_item-work_items (some token) EventType.item_claimed k _ (w.clock w.tick)))

cleared :
    (i : ℕ) (f : WorkItem → WorkItem) (items : List WorkItem)
    → ((x : WorkItem) → is_active_of i (f x) ≡ false)
    → count i (update_all (λ x. is_active_of i x && true) f items) ≡ 0
unfolding update_all select
cleared i f [] h = refl
cleared i f (x ∷ xs) h = let l = cleared i f xs h in let k = h x in ground arith

-- When a task ends, `canceller` leaves it no active item, however many it had.
pub canceller-count : (i now : ℕ) (db : Db) → count i (canceller i none now db).1.work_items ≡ 0
unfolding canceller
canceller-count i now db = cleared i _ db.work_items (λ x. ground arith)
