-- ===== src/Engine/Artifacts/Recorded.antt =====
-- engine/artifacts.py: checking and hashing the artifacts that a step returned. The file system,
-- the hash function and `workspace_root / path` are the parameter `Files`.
pub mod Checked
use Prim.Native.Char.{Char, code}
use runspool.Prelude.{
  ℕ, zero, suc, ◌+◌, String, Bool, true, false, ◌&&◌, ◌||◌, not, Option, none, some, List, [], ◌∷◌,
  ◌++◌, length, leb, if◌then◌else◌, ◌==◌, string_eq, nat_eq,
}
use runspool.Prelude.Exec.{Result, ok, err}
use runspool.Engine.Artifacts.{
  ArtifactType, str, is_placeholder, any_satisfies, all_chars, satisfies, opens,
}
use runspool.Engine.Artifacts.Declarations.{Entry, text, other, parse_entry}
use runspool.Engine.Artifacts.Chain.{commas, named}
use runspool.Models.{quoted}
use runspool.Text.{join, decimal}

-- What an artifact's `path` is: a `str` or a path, as its text, or something else.
pub data PathValue : Type 0 where
  path : String → PathValue
  not_a_path : PathValue

-- `class Artifact`, as a step returns it.
pub record Artifact : Type 0 where
  pub type : Entry
  pub path : PathValue
  pub sha256 : Option Entry

-- `class RecordedArtifact`.
pub record RecordedArtifact : Type 0 where
  pub type : String
  pub path : String
  pub sha256 : String
  pub size_bytes : Option ℕ

-- What the code asks of the file system. `blocks path` are what successive reads give, up to the
-- end of the file; an error is the name of the exception's class.
pub record Files : Type 0 where
  pub is_absolute : String → Bool
  -- `Path(workspace_root) / path`
  pub in_workspace : String → String
  pub is_file : String → Bool
  pub blocks : String → Result String (List (List ℕ))
  pub st_size : String → Result String ℕ
  -- `hexdigest` after an update with each of the blocks
  pub hexdigest : List (List ℕ) → String

abbrev lowers : List (Char × Char)
lowers =
    ("A", "a")
    ∷ ("B", "b")
    ∷ ("C", "c")
    ∷ ("D", "d")
    ∷ ("E", "e")
    ∷ ("F", "f")
    ∷ ("G", "g")
    ∷ ("H", "h")
    ∷ ("I", "i")
    ∷ ("J", "j")
    ∷ ("K", "k")
    ∷ ("L", "l")
    ∷ ("M", "m")
    ∷ ("N", "n")
    ∷ ("O", "o")
    ∷ ("P", "p")
    ∷ ("Q", "q")
    ∷ ("R", "r")
    ∷ ("S", "s")
    ∷ ("T", "t")
    ∷ ("U", "u")
    ∷ ("V", "v")
    ∷ ("W", "w")
    ∷ ("X", "x")
    ∷ ("Y", "y")
    ∷ ("Z", "z")
    ∷ []

lower_char : List (Char × Char) → Char → Char
lower_char [] c = c
lower_char ((upper, small) ∷ rest) c = if code upper == code c then small else lower_char rest c

-- `text.lower()`, of a text whose letters are ASCII.
unfoldable pub lower : String → String
unfolding lower_char
lower String.[] = String.[]
lower (String.◌∷◌ c s) = String.◌∷◌ (lower_char lowers c) (lower s)

abbrev is_hex : Char → Bool
is_hex c = (leb b'0' (code c) && leb (code c) b'9') || (leb b'a' (code c) && leb (code c) b'f')

abbrev chars : String → ℕ
chars String.[] = 0
chars (String.◌∷◌ c s) = suc (chars s)

-- `_SHA256`.
unfoldable pub is_sha256 : String → Bool
unfolding all_chars
is_sha256 s = (chars s == 64) && all_chars is_hex s

abbrev bad_sha256 : Option Entry → Bool
bad_sha256 none = false
bad_sha256 (some (text s)) = not (is_sha256 (lower s))
bad_sha256 (some (other _)) = true

-- Why a file was not read: a `ValueError`, or an `OSError` of a class.
pub data Unread : Type 0 where
  value_error os_error : String → Unread

-- The loop of `_hash_file`: the blocks up to the first empty one, and their size.
unfoldable pub read_blocks : List (List ℕ) → List (List ℕ) × ℕ
read_blocks [] = ([], 0)
read_blocks ([] ∷ rest) = ([], 0)
read_blocks ((b ∷ bs) ∷ rest) =
    let (more, size) = read_blocks rest in ((b ∷ bs) ∷ more, length (b ∷ bs) + size)

module _ (files : Files) where
  -- `_hash_file`.
  unfoldable pub hash_file : String → Result Unread (String × Option ℕ)
  unfolding read_blocks
  hash_file place = elim (files.blocks place) [
    | err name ↦ err (os_error name)
    | ok blocks ↦ let (read, size) = read_blocks blocks in ok (files.hexdigest read, some size)
  ]

  -- `_read`.
  unfoldable pub read : String → Option Entry → String → Result Unread (String × Option ℕ)
  unfolding hash_file lower
  read place none label =
      if not (files.is_file place)
      then err (value_error (join (label ∷ ": no file at its path to hash" ∷ [])))
      else hash_file place
  read place (some (text s)) label =
      if files.is_file place
      then elim (files.st_size place) [
        | err name ↦ err (os_error name)
        | ok size ↦ ok (lower s, some size)
      ]
      else ok (lower s, none)
  read place (some (other name)) label = err (value_error label)

abbrev pub artifact_at : String → ℕ → List String
artifact_at step n = "step " ∷ quoted step ++ (": artifact " ∷ decimal n ∷ [])

abbrev pub label_of : String → ℕ → String → String
label_of step n type = join (artifact_at step n ++ (" (" ∷ quoted type ++ (")" ∷ [])))

abbrev pub entry_text : Entry → String
entry_text (text s) = s
entry_text (other name) = name

abbrev pub any_provided : ArtifactType → List ArtifactType → Bool
any_provided kind [] = false
any_provided kind (p ∷ ps) = satisfies kind p || any_provided kind ps

-- `provides is not None and not any(...)`.
abbrev not_provided : ArtifactType → Option (List ArtifactType) → Bool
not_provided kind none = false
not_provided kind (some provides) = not (any_provided kind provides)

abbrev texts : List ArtifactType → List String
texts [] = []
texts (t ∷ ts) = str t ∷ texts ts

abbrev declares : Option (List ArtifactType) → String
declares none = "nothing"
declares (some []) = "nothing"
declares (some (t ∷ ts)) = commas (named (texts (t ∷ ts)))

abbrev path_text : PathValue → String
path_text (path s) = s
path_text not_a_path = ""

module _ (files : Files) (step : String) (provides : Option (List ArtifactType)) where
  -- The loop's body behind `parse_type`.
  unfoldable pub prepare : ArtifactType → String → Artifact → Result String RecordedArtifact
  unfolding is_placeholder satisfies lower is_sha256 read
  prepare kind label a =
      let where_it_is = path_text a.path in
      if is_placeholder kind
      then err (join (label ∷ ": a recorded artifact needs a concrete type" ∷ []))
      else if not_provided kind provides
      then err (
          join (
            label
            ∷ " is not a type the step provides (it declares "
            ∷ declares provides
            ∷ ")"
            ∷ []))
      else if where_it_is == ""
      then err (join (label ∷ ": path must be a non-empty str or path" ∷ []))
      else if bad_sha256 a.sha256
      then err (join (label ∷ ": sha256 must be 64 hex digits" ∷ []))
      else elim (read files
          (if files.is_absolute where_it_is then where_it_is else files.in_workspace where_it_is)
          a.sha256 label) [
            | err (value_error message) ↦ err message
            | err (os_error name) ↦
                err (join (label ∷ ": cannot read the file (" ∷ name ∷ ")" ∷ []))
            | ok (digest, size) ↦
                ok (record {
                  type = str kind;
                  path = where_it_is;
                  sha256 = digest;
                  size_bytes = size;
                })
          ]

  -- The loop's body for the n-th artifact; `none` is no `Artifact`.
  unfoldable pub prepare_one : ℕ → Option Artifact → Result String RecordedArtifact
  unfolding prepare parse_entry
  prepare_one n none = err (join (artifact_at step n ++ (" is not an Artifact" ∷ [])))
  prepare_one n (some a) = elim (parse_entry a.type) [
    | err message ↦ err (join (artifact_at step n ++ (": " ∷ message ∷ [])))
    | ok kind ↦ prepare kind (label_of step n (entry_text a.type)) a
  ]

  -- `prepare_artifacts`, from the n-th on. The error is the message of a `ValueError`.
  unfoldable pub prepare_artifacts :
      ℕ → List (Option Artifact) → Result String (List RecordedArtifact)
  unfolding prepare_one
  prepare_artifacts n [] = ok []
  prepare_artifacts n (a ∷ rest) = elim (prepare_one n a) [
    | err message ↦ err message
    | ok prepared ↦ elim (prepare_artifacts (suc n) rest) [
      | err message ↦ err message
      | ok more ↦ ok (prepared ∷ more)
    ]
  ]
