-- ===== src/Kernel/Events/Once.antt =====
-- kernel/events.py: how often a waterfall calls what it calls.
use mathlib.Core.Path.{subst}
use runspool.Prelude.{
  ℕ, suc, ◌+◌, ◌≤◌, ◌==◌, nat_eq, Bool, true, false, if◌then◌else◌, List, [], ◌∷◌, arith, ◌≡◌, refl,
  sym, inl, inr, Bool-cases,
}
use runspool.Prelude.Exec.{Result, err}
use runspool.Kernel.Events.{
  Middleware, Listener, Dispatch, Failure, turn, call, waterfall, has, returns, raises, removes,
  next, next_twice,
}

-- How often a number stands in a list, and in a chain.
unfoldable pub count : ℕ → List ℕ → ℕ
count n [] = 0
count n (m ∷ ms) = let rest = count n ms in if m == n then suc rest else rest

abbrev pub numbers : {T : Type 0} → List (Listener T) → List ℕ
numbers [] = []
numbers (l ∷ chain) = l.number ∷ numbers chain

-- What a dispatch adds, if a callback was `places` times in it.
record Once (n places : ℕ) (s s' : Dispatch) : Type 0 where
  calls : count n s'.called ≤ count n s.called + places
  defaults : s'.defaults ≤ suc s.defaults

-- Passing a listener over, and calling it.
skips : (t : Bool) (x c p : ℕ) → x ≤ c + p → x ≤ c + (if t then suc p else p)
skips true x c p h = omega arith
skips false x c p h = h

takes : (t : Bool) (x c p : ℕ) → x ≤ (if t then suc c else c) + p → x ≤ c + (if t then suc p else p)
takes true x c p h = omega arith
takes false x c p h = h

module _ {T : Type 0} where
  used_lem :
      (following : Dispatch → Result Failure T × Dispatch) (m : Middleware T) (s : Dispatch)
      → ((turn following true m s).1.called ≡ s.called)
        × ((turn following true m s).1.defaults ≡ s.defaults)
  unfolding turn
  used_lem following (returns v) s = (refl, refl)
  used_lem following (raises e) s = (refl, refl)
  used_lem following (removes k m) s = used_lem following m (record s { inactive = k ∷ s.inactive })
  used_lem following (next f) s = used_lem following (f (err next_twice)) s

  turn-Once :
      (n : ℕ) (following : Dispatch → Result Failure T × Dispatch) (places : ℕ)
      → ((s : Dispatch) → Once n places s (following s).1)
      → (m : Middleware T) (s : Dispatch) → Once n places s (turn following false m s).1
  unfolding turn
  turn-Once n following p h (returns v) s = record { calls = omega arith; defaults = omega arith }
  turn-Once n following p h (raises e) s = record { calls = omega arith; defaults = omega arith }
  turn-Once n following p h (removes k m) s =
      let r = turn-Once n following p h m (record s { inactive = k ∷ s.inactive }) in
      record { calls = r.calls; defaults = r.defaults }
  turn-Once n following p h (next f) s =
      let (same, alike) = used_lem following (f (following s).0) (following s).1 in
      let r = h s in
      record {
        calls = subst (λ c. count n c ≤ count n s.called + p) (sym same) r.calls;
        defaults = subst (λ d. d ≤ suc s.defaults) (sym alike) r.defaults;
      }

  call-Once :
      (n : ℕ) (default : Result Failure T) (chain : List (Listener T)) (s : Dispatch)
      → Once n (count n (numbers chain)) s (call default chain s).1
  unfolding call count
  call-Once n default [] s = record { calls = omega arith; defaults = omega arith }
  call-Once n default (l ∷ chain) s =
      let rest = call-Once n default chain in
      elim (Bool-cases (has l.number s.inactive)) [
        | inl gone ↦ rw gone (record {
          calls = skips (l.number == n) _ _ _ (rest s).calls;
          defaults = (rest s).defaults;
        })
        | inr active ↦
            let r =
              turn-Once n (call default chain) (count n (numbers chain)) rest l.callback
                (record s { called = l.number ∷ s.called }) in
            rw active
              (record { calls = takes (l.number == n) _ _ _ r.calls; defaults = r.defaults })
      ]

-- A waterfall calls each listener at most as often as it stands in the chain, and its default at most
-- once, whatever the listeners do: also if they call `next()` again, or remove listeners.
pub waterfall-once :
    {T : Type 0} (chain : List (Listener T)) (default : Result Failure T) (n : ℕ)
    → (count n (waterfall chain default).1.called ≤ count n (numbers chain))
      × ((waterfall chain default).1.defaults ≤ 1)
unfolding waterfall count
waterfall-once chain default n =
    let r = call-Once n default chain (record { inactive = []; called = []; defaults = 0 }) in
    let calls = r.calls in (omega arith, r.defaults)
