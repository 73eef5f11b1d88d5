-- ===== src/Store/Items/Active.antt =====
-- work_items.py and its partial unique index: a task has at most one active item.
use runspool.Prelude.{
  ℕ, ◌+◌, ◌≤◌, String, Bool, true, false, ◌≡◌, ◌≢◌, refl, Option, some, List, [], ◌∷◌, ◌++◌, ◌⊎◌,
  inl, inr, arith, length, ◌==◌, nat_eq, nat_beq_iff, ◌&&◌, Bool-cases, Option-cases,
}
use runspool.Prelude.Exec.{Result, Exec}
use runspool.Models.{Error}
use runspool.Store.Items.{
  item_key, is_active, is_active_of, Request, opener, closer, submitter, canceller, has_any,
  other_step, if_changed,
}
use runspool.Store.Repository.{Hook}
use runspool.Store.Rows.{Db, WorkItem, ItemStatus, cancelled}
use runspool.Store.Table.{select, update_all, update_row, replace, find, update_row-eq-some}

abbrev pub count : ℕ → List WorkItem → ℕ
count i items = length (select (is_active_of i) items)

-- At most one item of the task is open, claimed or submitted.
pub record IsSingle (i : ℕ) (items : List WorkItem) : Type 0 where
  pub most : count i items ≤ 1

count_add :
    (i : ℕ) (items : List WorkItem) (x : WorkItem) → count i (items ++ x ∷ []) ≤ count i items + 1
unfolding select
count_add i [] x = ground arith
count_add i (y ∷ ys) x = let h = count_add i ys x in ground arith

count_add_ne :
    (i : ℕ) (items : List WorkItem) (x : WorkItem)
    → x.task_id ≢ i
    → count i (items ++ x ∷ []) ≡ count i items
unfolding select
count_add_ne i [] x h = ground (arith, nat_beq_iff x.task_id i)
count_add_ne i (y ∷ ys) x h = let k = count_add_ne i ys x h in ground arith

has_any-false : (xs : List WorkItem) → has_any xs ≡ false → length xs ≡ 0
has_any-false [] h = refl
has_any-false (x ∷ xs) h = absurd (cc)

-- Writing a row of the same task that is active only if the row before was.
count-replace :
    (i k : ℕ) (items : List WorkItem) (old new : WorkItem)
    → find item_key k items ≡ some old
    → (is_active_of i new ≡ false) ⊎ (is_active_of i old ≡ true)
    → count i (replace item_key k new items) ≤ count i items
unfolding find replace select
count-replace i k [] old new e h = absurd (cc)
count-replace i k (x ∷ xs) old new e h = let l = count-replace i k xs old new in ground arith

count-update_all :
    (i : ℕ) (test : WorkItem → Bool) (f : WorkItem → WorkItem) (items : List WorkItem)
    → ((x : WorkItem) → (is_active_of i (f x) ≡ false) ⊎ (is_active_of i x ≡ true))
    → count i (update_all test f items) ≤ count i items
unfolding update_all select
count-update_all i test f [] h = ground arith
count-update_all i test f (x ∷ xs) h =
    let l = count-update_all i test f xs h in let k = h x in ground arith

-- What a statement on an item does to the items that are active.
abbrev pub ActivatesNone : ℕ → (WorkItem → Bool) → (WorkItem → WorkItem) → Type 0
ActivatesNone i test f =
    (x : WorkItem) → test x ≡ true → (is_active_of i (f x) ≡ false) ⊎ (is_active_of i x ≡ true)

update_row-IsSingle :
    (i k : ℕ) (test : WorkItem → Bool) (f : WorkItem → WorkItem) (items items' : List WorkItem)
    → IsSingle i items
    → ActivatesNone i test f
    → update_row item_key k test f items ≡ some items'
    → IsSingle i items'
update_row-IsSingle i k test f items items' s active h =
    let (r, found, holds, e) = update_row-eq-some item_key k test f items items' h in
    let l = count-replace i k items r (f r) found (active r holds) in
    let most = s.most in ground arith

pub changed-IsSingle :
    {A : Type 0} (i k : ℕ) (test : WorkItem → Bool) (f : WorkItem → WorkItem)
    (missed : Result Error A) (db : Db) (rest : Exec Error Db A)
    → IsSingle i db.work_items
    → ActivatesNone i test f
    → ((db' : Db) → (rest db').1.work_items ≡ db'.work_items)
    → IsSingle i
        (if_changed missed db (update_row item_key k test f db.work_items) rest).1.work_items
changed-IsSingle i k test f missed db rest s active keeps =
    elim (Option-cases (update_row item_key k test f db.work_items)) [
      | inl e ↦ rw e s
      | inr (items, e) ↦ rw e (
          rw (keeps (record db { work_items = items }))
            (update_row-IsSingle i k test f db.work_items items s active e))
    ]

-- The changes of items that go with a transition.
pub data ItemChange : Type 0 where
  open_item : ℕ → String → Request → ItemChange
  submit : ℕ → String → String → Option String → ItemChange
  close : ℕ → (s : ItemStatus) → is_active s ≡ false → Option String → Option ℕ → ItemChange
  cancel : ℕ → Option String → ItemChange

abbrev pub hook : ItemChange → Hook
hook (open_item task_id step r) = opener task_id step r
hook (submit item_id token value by) = submitter item_id token value by
hook (close item_id status ended error run) = closer item_id status error run
hook (cancel task_id keep) = canceller task_id keep

opened-IsSingle :
    (i j : ℕ) (items : List WorkItem) (x : WorkItem)
    → x.task_id ≡ j
    → has_any (select (is_active_of j) items) ≡ false
    → IsSingle i items
    → IsSingle i (items ++ x ∷ [])
opened-IsSingle i j items x e free s = elim (Bool-cases (i == j)) [
  | inl same ↦
      let none = has_any-false (select (is_active_of j) items) free in
      let more = count_add i items x in ground (arith, nat_beq_iff i j)
  | inr other ↦
      let k = count_add_ne i items x (ground (arith, nat_beq_iff i j)) in
      let most = s.most in ground arith
]

opener-IsSingle :
    (i j : ℕ) (step : String) (r : Request) (now : ℕ) (db : Db)
    → IsSingle i db.work_items
    → IsSingle i (opener j step r now db).1.work_items
unfolding opener
opener-IsSingle i j step r now db s =
    elim (Bool-cases (has_any (select (is_active_of j) db.work_items))) [
      | inl full ↦ rw full s
      | inr free ↦ rw free (opened-IsSingle i j db.work_items _ refl free s)
    ]

-- Every item change that goes with a transition, an opened item included, leaves a task that had at
-- most one active item with at most one, also where the change fails.
pub hook-IsSingle :
    (i : ℕ) (c : ItemChange) (now : ℕ) (db : Db)
    → IsSingle i db.work_items
    → IsSingle i (hook c now db).1.work_items
unfolding submitter closer canceller
hook-IsSingle i (open_item j step r) now db s = opener-IsSingle i j step r now db s
hook-IsSingle i (submit k token value by) now db s =
    changed-IsSingle i k _ _ _ db _ s (λ x h. ground arith) (λ db'. refl)
hook-IsSingle i (close k status ended error run) now db s =
    changed-IsSingle i k _ _ _ db _ s (λ x h. ground arith) (λ db'. refl)
hook-IsSingle i (cancel j keep) now db s =
    let l =
      count-update_all i (λ x. is_active_of j x && other_step keep x)
        (λ x. record x { status = cancelled; updated_at = now }) db.work_items
        (λ x. ground arith) in
    let most = s.most in ground arith
