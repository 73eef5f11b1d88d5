-- ===== src/Kernel/Events.antt =====
-- kernel/events.py: the `waterfall` of the event bus. What a listener does is a `Middleware`: any tree of
-- calls of `next()` and removals of listeners that ends with a result or an exception. It calls
-- `next()` before it returns.
pub mod Once
use runspool.Prelude.{
  ℕ, suc, ◌+◌, ◌≤◌, ◌==◌, nat_eq, Bool, true, false, ◌||◌, if◌then◌else◌, Option, none, some, List,
  [], ◌∷◌, arith, String, ◌≡◌, refl, inl, inr, Bool-cases,
}
use runspool.Prelude.Exec.{Result, ok, err}

-- An exception: the `KernelError` of a second call of `next()`, or one of a callback.
pub data Failure : Type 0 where
  next_twice : Failure
  failed : String → Failure

pub data Middleware (T : Type 0) : Type 0 where
  returns : T → Middleware T
  raises : Failure → Middleware T
  removes : ℕ → Middleware T → Middleware T
  next : (Result Failure T → Middleware T) → Middleware T

-- `class _Listener`; `number` tells listeners apart.
pub record Listener (T : Type 0) : Type 0 where
  pub number : ℕ
  pub callback : Middleware T

-- A dispatch: the listeners that are no longer active, the callbacks that were called, the last one
-- first, and how often `default` was.
pub record Dispatch : Type 0 where
  pub inactive : List ℕ
  pub called : List ℕ
  pub defaults : ℕ

abbrev pub has : ℕ → List ℕ → Bool
has n [] = false
has n (m ∷ ms) = m == n || has n ms

module _ {T : Type 0} where
  -- A callback at work, with what `call(index + 1)` does; the flag is `used`.
  unfoldable pub turn :
      (Dispatch → Result Failure T × Dispatch)
      → Bool
      → Middleware T
      → Dispatch
      → Result Failure T × Dispatch
  turn following used (returns v) s = (ok v, s)
  turn following used (raises e) s = (err e, s)
  turn following used (removes n m) s =
      turn following used m (record s { inactive = n ∷ s.inactive })
  turn following true (next f) s = turn following true (f (err next_twice)) s
  turn following false (next f) s = let (r, s') = following s in turn following true (f r) s'

  -- `call`, from a listener of the chain on.
  unfoldable pub call :
      Result Failure T → List (Listener T) → Dispatch → Result Failure T × Dispatch
  unfolding turn
  call default [] s = (default, record s { defaults = suc s.defaults })
  call default (l ∷ chain) s =
      let following = call default chain in
      if has l.number s.inactive
      then following s
      else turn following false l.callback (record s { called = l.number ∷ s.called })

-- `waterfall`.
unfoldable pub waterfall :
    {T : Type 0} → List (Listener T) → Result Failure T → Result Failure T × Dispatch
unfolding call
waterfall chain default = call default chain (record { inactive = []; called = []; defaults = 0 })
