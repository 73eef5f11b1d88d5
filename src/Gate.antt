-- ===== src/Gate.antt =====
-- engine/gate.py: how an approval of one attempt of one step is written in `approval_grant`.
pub mod Grants
use runspool.Prelude.{ℕ, String, Bool, Option, some, [], ◌∷◌, ◌==◌, string_eq, option_eq}
use runspool.Store.Rows.{Task}
use runspool.Text.{join, decimal}

-- `asked_value`.
unfoldable pub asked_value : String → ℕ → String
asked_value step attempt = join ("asked:" ∷ step ∷ ":" ∷ decimal attempt ∷ [])

-- `grant_value`.
unfoldable pub grant_value : String → ℕ → String
grant_value step attempt = join ("granted:" ∷ step ∷ ":" ∷ decimal attempt ∷ [])

-- `GateRequest.granted`, of a request for `attempt` of `step`.
unfoldable pub granted : Task → String → ℕ → Bool
unfolding grant_value
granted task step attempt = task.approval_grant == some (grant_value step attempt)
