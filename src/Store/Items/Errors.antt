-- ===== src/Store/Items/Errors.antt =====
-- The hooks of work items raise `ItemConflict` or an integrity error, and nothing else.
use runspool.Prelude.{ℕ, String, Option, none, some, List, [], ◌∷◌, arith}
use runspool.Prelude.Exec.{◌>>◌}
use runspool.Store.Items.{opener, closer, submitter, canceller, chain, Request}
use runspool.Store.Plain.{IsPlainHook, plain-bind}
use runspool.Store.Repository.{Hook}
use runspool.Store.Rows.{ItemStatus}
use runspool.Store.Table.{update_row}

pub opener-IsPlainHook : (i : ℕ) (step : String) (r : Request) → IsPlainHook (opener i step r)
unfolding opener
opener-IsPlainHook i step r = record { at = λ now. record { of = λ db. ground arith } }

pub closer-IsPlainHook :
    (i : ℕ) (s : ItemStatus) (e : Option String) (run : Option ℕ) → IsPlainHook (closer i s e run)
unfolding closer update_row
closer-IsPlainHook i s e run = record { at = λ now. record { of = λ db. ground arith } }

pub submitter-IsPlainHook :
    (i : ℕ) (token value : String) (by : Option String) → IsPlainHook (submitter i token value by)
unfolding submitter update_row
submitter-IsPlainHook i token value by = record { at = λ now. record { of = λ db. ground arith } }

pub canceller-IsPlainHook : (i : ℕ) (keep : Option String) → IsPlainHook (canceller i keep)
unfolding canceller
canceller-IsPlainHook i keep = record { at = λ now. record { of = λ db. tt } }

abbrev pub IsPlainOption : Option Hook → Type 0
IsPlainOption none = Unit
IsPlainOption (some h) = IsPlainHook h

abbrev pub AllPlain : List (Option Hook) → Type 0
AllPlain [] = Unit
AllPlain (h ∷ hs) = IsPlainOption h × AllPlain hs

with_rest :
    (h : Hook) (rest : Option Hook)
    → IsPlainHook h
    → IsPlainOption rest
    → IsPlainOption (elim rest [ none ↦ some h | some r ↦ some (λ now. h now >> r now) ])
with_rest h none p q = p
with_rest h (some r) p q = record { at = λ now. plain-bind _ _ (p.at now) (λ _. q.at now) }

-- A chain of hooks raises what they raise.
pub chain-IsPlain : (hs : List (Option Hook)) → AllPlain hs → IsPlainOption (chain hs)
chain-IsPlain [] p = tt
chain-IsPlain (none ∷ hs) p = chain-IsPlain hs p.1
chain-IsPlain (some h ∷ hs) p = with_rest h (chain hs) p.0 (chain-IsPlain hs p.1)
