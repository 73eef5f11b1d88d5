-- ===== src/Tests/Events.antt =====
-- A listener that calls `next()` twice, before one that removes the last.
use runspool.Prelude.{◌≤◌, String, ◌≡◌, refl, List, [], ◌∷◌}
use runspool.Prelude.Exec.{Result, ok, err}
use runspool.Kernel.Events.{
  Middleware, Listener, Failure, waterfall, returns, raises, removes, next, next_twice,
}
use runspool.Kernel.Events.Once.{count, numbers, waterfall-once}

abbrev passes_on : Result Failure String → Middleware String
passes_on (ok v) = returns v
passes_on (err e) = raises e

abbrev chain : List (Listener String)
chain =
    record { number = 1; callback = next (λ r. next passes_on) }
    ∷ record { number = 2; callback = removes 3 (next passes_on) }
    ∷ record { number = 3; callback = returns "veto" }
    ∷ []

twice :
    waterfall chain (ok "default")
    ≡ (err next_twice, record { inactive = 3 ∷ []; called = 2 ∷ 1 ∷ []; defaults = 1 })
unfolding waterfall
twice = refl

waterfall-once_example :
    (count 2 (waterfall chain (ok "default")).1.called ≤ count 2 (numbers chain))
    × ((waterfall chain (ok "default")).1.defaults ≤ 1)
waterfall-once_example = waterfall-once chain (ok "default") 2
