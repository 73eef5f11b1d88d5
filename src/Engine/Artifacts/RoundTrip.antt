-- ===== src/Engine/Artifacts/RoundTrip.antt =====
-- Printing an artifact type and parsing it.
use Prim.Native.Char.{Char, code}
use text.Mathlib.TextEquality.{Char-path}
use mathlib.Core.Path.{ap₂, subst}
use runspool.Prelude.{
  String, true, not, ◌||◌, ◌≡◌, refl, sym, ap, ◌∙◌, ◌↔◌, Option, none, some, arith, Bool-cases, inl,
  inr, if◌then◌else◌, nat_eq,
}
use runspool.Prelude.Exec.{Result, ok, err}
use runspool.Engine.Artifacts.{
  ArtifactType, str, all_chars, is_kind, is_kind_char, is_value, is_label, split_colon, typed,
  parse_type, bad_kind,
}
use runspool.Text.{append, is_colon}

-- `kind`, or `kind:param`.
abbrev written : String → Option String → String
written kind none = kind
written kind (some p) = append kind (append ":" p)

written_cons :
    (c : Char) (kind : String) (param : Option String)
    → written (String.◌∷◌ c kind) param ≡ String.◌∷◌ c (written kind param)
unfolding append
written_cons c kind none = refl
written_cons c kind (some p) = refl

written_colon : (c : Char) (s : String) → code c ≡ b':' → written "" (some s) ≡ String.◌∷◌ c s
unfolding append
written_colon c s h = ap (λ (d : Char). String.◌∷◌ d s) (sym (Char-path c ":" h))

written-split_colon : (s : String) → written (split_colon s).0 (split_colon s).1 ≡ s
unfolding split_colon
written-split_colon String.[] = refl
written-split_colon (String.◌∷◌ c s) = elim (Bool-cases (is_colon c)) [
  | inl colon ↦ rw colon (written_colon c s (ground arith))
  | inr other ↦ rw other (
      written_cons c (split_colon s).0 (split_colon s).1
      ∙ ap (String.◌∷◌ c) (written-split_colon s))
]

-- The texts of `_KIND`, with nothing or a text of `_VALUE` or `_PLACEHOLDER` behind the colon.
abbrev pub IsParam : Option String → Type 0
IsParam none = Unit {0}
IsParam (some p) = (is_value p || is_label p) ≡ true

abbrev pub IsWritable : ArtifactType → Type 0
IsWritable t = (is_kind t.kind ≡ true) × IsParam t.param

split-all_chars :
    (s : String) (rest : Option String)
    → all_chars is_kind_char s ≡ true
    → split_colon (written s rest) ≡ (s, rest)
unfolding split_colon all_chars append
split-all_chars String.[] none h = refl
split-all_chars String.[] (some p) h = refl
split-all_chars (String.◌∷◌ c s) none h = ground (arith, split-all_chars s none)
split-all_chars (String.◌∷◌ c s) (some p) h = ground (arith, split-all_chars s (some p))

is_kind-all_chars : (s : String) → is_kind s ≡ true → all_chars is_kind_char s ≡ true
unfolding is_kind all_chars
is_kind-all_chars String.[] h = ground arith
is_kind-all_chars (String.◌∷◌ c s) h = ground arith

-- `parse_type` behind the partition.
abbrev parsed : String → String × Option String → Result String ArtifactType
parsed text (kind, param) =
    if not (is_kind kind) then err (bad_kind text) else typed text kind param

parsed_parts :
    (text kind : String) (param : Option String) (t : ArtifactType)
    → parsed text (kind, param) ≡ ok t
    → (t.kind ≡ kind) × (t.param ≡ param) × (is_kind kind ≡ true) × IsParam param
parsed_parts text kind none t h = ground arith
parsed_parts text kind (some p) t h = ground arith

parsed_writable :
    (text kind : String) (param : Option String)
    → is_kind kind ≡ true
    → IsParam param
    → parsed text (kind, param) ≡ ok (record { kind = kind; param = param })
parsed_writable text kind none k p = ground arith
parsed_writable text kind (some _) k p = ground arith

parse_type-parsed : (s : String) → parse_type s ≡ parsed s (split_colon s)
unfolding parse_type
parse_type-parsed s = refl

str-written : (t : ArtifactType) → str t ≡ written t.kind t.param
unfolding str
str-written t = refl

-- An artifact type is read from exactly the texts that it prints, if its kind and its param are of
-- the two patterns.
pub parse_type-str :
    (s : String) (t : ArtifactType) → (parse_type s ≡ ok t) ↔ ((str t ≡ s) × IsWritable t)
unfolding str
parse_type-str s t = (
  λ h.
      let (same, others, kind, param) =
        parsed_parts s (split_colon s).0 (split_colon s).1 t (sym (parse_type-parsed s) ∙ h) in
      (
        str-written t ∙ ap₂ written same others ∙ written-split_colon s,
        (ap is_kind same ∙ kind, subst IsParam (sym others) param),
      ),
  λ (e, (kind, param)).
      parse_type-parsed s
      ∙ ap (parsed s)
          (ap split_colon (sym e) ∙ split-all_chars t.kind t.param (is_kind-all_chars t.kind kind))
      ∙ parsed_writable s t.kind t.param kind param,
)
