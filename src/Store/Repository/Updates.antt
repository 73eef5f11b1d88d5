-- ===== src/Store/Repository/Updates.antt =====
-- repository.py: `update_fields` has no way to a lifecycle column.
use mathlib.Core.Path.{subst}
use runspool.Prelude.{
  true, false, ◌≡◌, refl, none, some, List, [], ◌∷◌, arith, All, Bool-cases, inl, inr,
}
use runspool.Prelude.Exec.{Result, ok, err}
use runspool.Models.{Error}
use runspool.Store.Columns.{Cell, is_updatable, write, write_all}
use runspool.Store.Repository.{
  Update, Metadata, column, metadata, dump, dump_all, has_bad, prepare_updates,
}
use runspool.Store.Rows.{Task}

-- Two rows with the same lifecycle columns.
pub record SameLifecycle (t t' : Task) : Type 0 where
  pub id : t'.id ≡ t.id
  pub workflow : t'.workflow ≡ t.workflow
  pub step : t'.step ≡ t.step
  pub status : t'.status ≡ t.status
  pub retry_count : t'.retry_count ≡ t.retry_count
  pub locked_by : t'.locked_by ≡ t.locked_by
  pub locked_at : t'.locked_at ≡ t.locked_at
  pub heartbeat_at : t'.heartbeat_at ≡ t.heartbeat_at
  pub pause_requested : t'.pause_requested ≡ t.pause_requested
  pub terminate_requested : t'.terminate_requested ≡ t.terminate_requested
  pub last_error : t'.last_error ≡ t.last_error
  pub next_retry_at : t'.next_retry_at ≡ t.next_retry_at
  pub claim_token : t'.claim_token ≡ t.claim_token
  pub approval_grant : t'.approval_grant ≡ t.approval_grant

abbrev IsUpdate : List Cell → Type 0
IsUpdate cells = All (λ c. is_updatable c ≡ true) cells

then_same : (a b c : Task) → SameLifecycle a b → SameLifecycle b c → SameLifecycle a c
then_same a b c h k = ground arith

write-SameLifecycle : (c : Cell) (t : Task) → is_updatable c ≡ true → SameLifecycle t (write c t)
write-SameLifecycle (Cell.name v) t h = ground arith
write-SameLifecycle (Cell.priority v) t h = ground arith
write-SameLifecycle (Cell.max_retries v) t h = ground arith
write-SameLifecycle (Cell.progress v) t h = ground arith
write-SameLifecycle (Cell.metadata v) t h = ground arith
write-SameLifecycle _ t h = absurd (cc)

write_all-SameLifecycle :
    (cells : List Cell) (t : Task) → IsUpdate cells → SameLifecycle t (write_all cells t)
write_all-SameLifecycle [] t h = ground arith
write_all-SameLifecycle (c ∷ cs) t h =
    then_same t (write c t) (write_all cs (write c t)) (write-SameLifecycle c t h.0)
      (write_all-SameLifecycle cs (write c t) h.1)

ok_inj : (a b : List Cell) → ◌≡◌ {A = Result Error (List Cell)} (ok a) (ok b) → a ≡ b
ok_inj a b h = cc

added :
    (c : Cell) (r : Result Error (List Cell)) (cells : List Cell)
    → is_updatable c ≡ true
    → ((cs : List Cell) → r ≡ ok cs → IsUpdate cs)
    → elim r as (λ _. Result Error (List Cell)) [ ok cs ↦ ok (c ∷ cs) | err e ↦ err e ] ≡ ok cells
    → IsUpdate cells
added c (err e) cells u k h = absurd (cc)
added c (ok cs) cells u k h = subst IsUpdate (ok_inj (c ∷ cs) cells h) (u, k cs refl)

dump_all-IsUpdate :
    (us : List Update) (cells : List Cell)
    → has_bad us ≡ false
    → dump_all us ≡ ok cells
    → IsUpdate cells
unfolding dump_all dump
dump_all-IsUpdate [] cells h e = subst IsUpdate (ok_inj [] cells e) tt
dump_all-IsUpdate (column c ∷ us) cells h e =
    added c (dump_all us) cells (ground arith) (λ cs. dump_all-IsUpdate us cs (ground arith)) e
dump_all-IsUpdate (metadata Metadata.absent ∷ us) cells h e =
    added (Cell.metadata none) (dump_all us) cells refl (λ cs. dump_all-IsUpdate us cs h) e
dump_all-IsUpdate (metadata (Metadata.object json) ∷ us) cells h e =
    added (Cell.metadata (some json)) (dump_all us) cells refl (λ cs. dump_all-IsUpdate us cs h) e
dump_all-IsUpdate (metadata Metadata.other ∷ us) cells h e = absurd (cc)

-- Whatever a caller passes to `update_fields`, the columns that are written once `prepare_updates`
-- lets it through leave every lifecycle column of the row, and its id, as they are.
pub prepare_updates-SameLifecycle :
    (us : List Update) (cells : List Cell) (t : Task)
    → prepare_updates us ≡ ok cells
    → SameLifecycle t (write_all cells t)
unfolding prepare_updates
prepare_updates-SameLifecycle us cells t h = elim (Bool-cases (has_bad us)) [
  | inl bad ↦ absurd (ground arith)
  | inr good ↦ write_all-SameLifecycle cells t (dump_all-IsUpdate us cells good (ground arith))
]
