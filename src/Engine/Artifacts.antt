-- ===== src/Engine/Artifacts.antt =====
-- engine/artifacts.py: the types of artifacts, what steps declare of them, and the check of a
-- workflow's chain of steps. A declaration that is no list, or an entry that is no text, is `none`.
pub mod RoundTrip
pub mod Declarations
pub mod Chain
pub mod Recorded
use Prim.Native.Char.{Char, code}
use runspool.Prelude.{
  ℕ, ◌+◌, String, Bool, true, false, ◌&&◌, ◌||◌, not, Option, none, some, List, [], ◌∷◌, ◌++◌, leb,
  if◌then◌else◌, ◌==◌, nat_eq, string_eq, option_eq, map,
}
use runspool.Prelude.Exec.{Result, ok, err}
use runspool.Models.{quoted}
use runspool.Text.{append, join, is_colon}

pub record ArtifactType : Type 0 where
  pub kind : String
  pub param : Option String

-- `param.startswith("<")`.
abbrev pub opens : String → Bool
opens String.[] = false
opens (String.◌∷◌ c s) = code c == b'<'

-- `ArtifactType.is_placeholder`.
unfoldable pub is_placeholder : ArtifactType → Bool
is_placeholder t = elim t.param [ none ↦ false | some p ↦ opens p ]

-- `ArtifactType.satisfies`, of the provided type; the second is the required one.
unfoldable pub satisfies : ArtifactType → ArtifactType → Bool
unfolding is_placeholder
satisfies have required = if not (have.kind == required.kind) then false else elim required.param [
  | none ↦ elim have.param [ none ↦ true | some _ ↦ false ]
  | some r ↦ elim have.param [
    | none ↦ false
    | some h ↦ if is_placeholder required || is_placeholder have then true else h == r
  ]
]

-- `ArtifactType.__str__`.
unfoldable pub str : ArtifactType → String
str t = elim t.param [ none ↦ t.kind | some p ↦ append t.kind (append ":" p) ]

abbrev between : ℕ → ℕ → Char → Bool
between a b c = leb a (code c) && leb (code c) b

abbrev is_lower : Char → Bool
is_lower c = between b'a' b'z' c

abbrev is_digit : Char → Bool
is_digit c = between b'0' b'9' c

abbrev is_upper : Char → Bool
is_upper c = between b'A' b'Z' c

abbrev is_mark : Char → Bool
is_mark c = code c == b'_' || code c == b'.' || code c == b'-'

unfoldable pub all_chars : (Char → Bool) → String → Bool
all_chars test String.[] = true
all_chars test (String.◌∷◌ c s) = test c && all_chars test s

-- `[a-z0-9_.-]`.
abbrev pub is_kind_char : Char → Bool
is_kind_char c = is_lower c || is_digit c || is_mark c

-- `_KIND`.
unfoldable pub is_kind : String → Bool
unfolding all_chars
is_kind String.[] = false
is_kind (String.◌∷◌ c s) = is_lower c && all_chars is_kind_char s

-- `_VALUE`.
unfoldable pub is_value : String → Bool
unfolding all_chars
is_value String.[] = false
is_value (String.◌∷◌ c s) =
    (is_upper c || is_lower c || is_digit c)
    && all_chars (λ d. is_upper d || is_lower d || is_digit d || is_mark d) s

-- `[a-z0-9_]*>` to the end.
closes : String → Bool
closes String.[] = false
closes (String.◌∷◌ c String.[]) = code c == b'>'
closes (String.◌∷◌ c (String.◌∷◌ d s)) =
    (is_lower c || is_digit c || code c == b'_') && closes (String.◌∷◌ d s)

-- `_PLACEHOLDER`.
unfoldable pub is_label : String → Bool
unfolding closes
is_label (String.◌∷◌ a (String.◌∷◌ c s)) = code a == b'<' && is_lower c && closes s
is_label _ = false

-- `text.partition(":")`, with what stands behind the colon if there is one.
unfoldable pub split_colon : String → String × Option String
split_colon String.[] = ("", none)
split_colon (String.◌∷◌ c s) =
    let (before, behind) = split_colon s in
    if is_colon c then ("", some s) else (String.◌∷◌ c before, behind)

abbrev bad_kind : String → String
bad_kind text = join (
    "invalid artifact type " ∷ quoted text
    ++ (": the kind must be lower-case letters, digits, '_', '.' or '-', starting with a letter"
        ∷ []))

abbrev bad_param : String → String
bad_param text = join (
    "invalid artifact type " ∷ quoted text
    ++ (": the param must be a value (letters, digits, '_', '.', '-') or a placeholder such as <target>"
        ∷ []))

abbrev typed : String → String → Option String → Result String ArtifactType
typed text kind none = ok (record { kind = kind; param = none })
typed text kind (some p) =
    if not (is_value p || is_label p)
    then err (bad_param text)
    else ok (record { kind = kind; param = some p })

-- `parse_type`, of a text; the error is the message of an `ArtifactTypeError`.
unfoldable pub parse_type : String → Result String ArtifactType
unfolding is_kind is_value is_label split_colon
parse_type text =
    let (kind, param) = split_colon text in
    if not (is_kind kind) then err (bad_kind text) else typed text kind param

-- `class Contract`.
pub record Contract : Type 0 where
  pub requires : List ArtifactType
  pub provides : List ArtifactType
  pub declared : Bool

-- `class ChainReport`.
pub record ChainReport : Type 0 where
  pub errors : List String
  pub unverified : List String
  pub declared : Bool

-- `ChainReport.extend`.
unfoldable pub extend : ChainReport → ChainReport → ChainReport
extend r other = record {
  errors = r.errors ++ other.errors;
  unverified = r.unverified ++ other.unverified;
  declared = r.declared || other.declared;
}

-- `any(have.satisfies(required) for have in available)`.
unfoldable pub any_satisfies : List ArtifactType → ArtifactType → Bool
unfolding satisfies
any_satisfies [] required = false
any_satisfies (have ∷ rest) required = satisfies have required || any_satisfies rest required
