-- ===== src/Engine/Artifacts/Declarations.antt =====
-- engine/artifacts.py: what a step or a workflow declares of its artifacts, as any value that
-- Python code may hold, and reading it. A declaration is `absent` when it is `None`.
use runspool.Prelude.{String, Bool, true, false, ◌&&◌, List, [], ◌∷◌, if◌then◌else◌}
use runspool.Prelude.Exec.{Result, ok, err}
use runspool.Engine.Artifacts.{ArtifactType, parse_type, Contract}
use runspool.Models.{quoted}
use runspool.Text.{join}

-- A value that a declaration holds: a list of texts and other things, or no list at all.
pub data Entry : Type 0 where
  text : String → Entry
  -- the name of its type
  other : String → Entry

pub data Declaration : Type 0 where
  absent : Declaration
  listed : List Entry → Declaration
  -- whether the value counts as true, and the name of its type
  unlisted : Bool → String → Declaration

-- `parse_type`, of any value.
unfoldable pub parse_entry : Entry → Result String ArtifactType
unfolding parse_type
parse_entry (text s) = parse_type s
parse_entry (other name) = err (join ("artifact type must be a string, got " ∷ name ∷ []))

unfoldable pub parse_entries : (String → String) → List Entry → Result String (List ArtifactType)
unfolding parse_entry
parse_entries explain [] = ok []
parse_entries explain (e ∷ es) = elim (parse_entry e) [
  | err message ↦ err (explain message)
  | ok t ↦ elim (parse_entries explain es) [ err message ↦ err message | ok ts ↦ ok (t ∷ ts) ]
]

-- `parse_types`.
unfoldable pub parse_types : Declaration → String → String → Result String (List ArtifactType)
unfolding parse_entries
parse_types absent owner field = ok []
parse_types (listed es) owner field =
    parse_entries (λ message. join (owner ∷ ": " ∷ field ∷ ": " ∷ message ∷ [])) es
parse_types (unlisted _ name) owner field =
    err (join (owner ∷ ": " ∷ field ∷ " must be a list or tuple of types, not " ∷ name ∷ []))

abbrev is_absent : Declaration → Bool
is_absent absent = true
is_absent _ = false

-- `contract_of`, of a step's name and its two declarations.
unfoldable pub contract_of : String → Declaration → Declaration → Result String Contract
unfolding parse_types
contract_of name requires provides =
    let owner = join ("step " ∷ quoted name) in
    if is_absent requires && is_absent provides
    then ok (record { requires = []; provides = []; declared = false })
    else elim (parse_types requires owner "requires") [
      | err message ↦ err message
      | ok rs ↦ elim (parse_types provides owner "provides") [
        | err message ↦ err message
        | ok ps ↦ ok (record { requires = rs; provides = ps; declared = true })
      ]
    ]
