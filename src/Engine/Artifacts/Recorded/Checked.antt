-- ===== src/Engine/Artifacts/Recorded/Checked.antt =====
-- engine/artifacts.py: what `prepare_artifacts` lets through.
use mathlib.Core.Path.{subst}
use runspool.Prelude.{
  ℕ, suc, String, true, false, ◌≡◌, refl, sym, ap, ◌∙◌, Option, none, some, List, [], ◌∷◌, All,
  length, arith, ◌++◌,
}
use runspool.Text.{join}
use runspool.Prelude.Exec.{Result, ok, err}
use runspool.Engine.Artifacts.{ArtifactType, str, is_placeholder, parse_type}
use runspool.Engine.Artifacts.Declarations.{Entry, text, other, parse_entry}
use runspool.Engine.Artifacts.RoundTrip.{parse_type-str}
use runspool.Engine.Artifacts.Recorded.{
  Artifact, RecordedArtifact, Files, prepare, prepare_artifacts, any_provided, not_provided,
  prepare_one, label_of, entry_text, artifact_at,
}

-- The step declares nothing, or one of the types it provides.
abbrev pub Declared : ArtifactType → Option (List ArtifactType) → Type 0
Declared kind none = Unit {0}
Declared kind (some provides) = any_provided kind provides ≡ true

-- A stored type that can be read back, is concrete, and is declared.
abbrev pub IsConcrete : Option (List ArtifactType) → RecordedArtifact → Type 0
IsConcrete provides r =
    (kind : ArtifactType) × (parse_type r.type ≡ ok kind)
    × (is_placeholder kind ≡ false)
    × Declared kind provides

not_provided-Declared :
    (kind : ArtifactType) (provides : Option (List ArtifactType))
    → not_provided kind provides ≡ false
    → Declared kind provides
not_provided-Declared kind none h = tt
not_provided-Declared kind (some provides) h = ground arith

ok_inj :
    {a b : List RecordedArtifact}
    → ◌≡◌ {A = Result String (List RecordedArtifact)} (ok a) (ok b)
    → a ≡ b
ok_inj h = cc

module _ (rs : List RecordedArtifact) where
  both_ok :
      (p : Result String RecordedArtifact) (m : Result String (List RecordedArtifact))
      → ◌≡◌ {A = Result String (List RecordedArtifact)}
          (elim p [
            | err message ↦ err message
            | ok r ↦ elim m [ err message ↦ err message | ok more ↦ ok (r ∷ more) ]
          ])
          (ok rs)
      → (r : RecordedArtifact) × (more : List RecordedArtifact) × (p ≡ ok r)
        × (m ≡ ok more)
        × (rs ≡ r ∷ more)
  both_ok (err e) m h = absurd (cc)
  both_ok (ok r) (err e) h = absurd (cc)
  both_ok (ok r) (ok more) h = (r, more, refl, refl, ground arith)

module _ (files : Files) (step : String) (provides : Option (List ArtifactType)) where
  prepare_parts :
      (kind : ArtifactType) (label : String) (a : Artifact) (r : RecordedArtifact)
      → prepare files step provides kind label a ≡ ok r
      → (is_placeholder kind ≡ false) × (not_provided kind provides ≡ false) × (r.type ≡ str kind)
  unfolding prepare
  prepare_parts kind label a r h = ground arith

  entry-str :
      (e : Entry) (kind : ArtifactType) → parse_entry e ≡ ok kind → parse_type (str kind) ≡ ok kind
  unfolding parse_entry
  entry-str (text s) kind h =
      let (_, writable) = (parse_type-str s kind).0 h in
      (parse_type-str (str kind) kind).1 (refl, writable)
  entry-str (other name) kind h = absurd (cc)

  prepare-IsConcrete :
      (kind : ArtifactType) (e : Entry) (label : String) (a : Artifact) (r : RecordedArtifact)
      → parse_entry e ≡ ok kind
      → prepare files step provides kind label a ≡ ok r
      → IsConcrete provides r
  prepare-IsConcrete kind e label a r read h =
      let (concrete, declared, type) = prepare_parts kind label a r h in
      (
        kind,
        ap parse_type type ∙ entry-str e kind read,
        concrete,
        not_provided-Declared kind provides declared,
      )

  parse_entry-IsConcrete :
      (n : ℕ) (a : Artifact) (r : RecordedArtifact) (e : Result String ArtifactType)
      → parse_entry a.type ≡ e
      → ◌≡◌ {A = Result String RecordedArtifact}
          (elim e [
            | err message ↦ err (join (artifact_at step n ++ (": " ∷ message ∷ [])))
            | ok kind ↦ prepare files step provides kind (label_of step n (entry_text a.type)) a
          ])
          (ok r)
      → IsConcrete provides r
  parse_entry-IsConcrete n a r (err message) read h = absurd (cc)
  parse_entry-IsConcrete n a r (ok kind) read h =
      prepare-IsConcrete kind a.type (label_of step n (entry_text a.type)) a r read h

  prepare_one-IsConcrete :
      (n : ℕ) (a : Option Artifact) (r : RecordedArtifact)
      → prepare_one files step provides n a ≡ ok r
      → IsConcrete provides r
  unfolding prepare_one
  prepare_one-IsConcrete n none r h = absurd (cc)
  prepare_one-IsConcrete n (some a) r h = parse_entry-IsConcrete n a r (parse_entry a.type) refl h

  -- When `prepare_artifacts` returns, it returns as many artifacts as it was given, and the stored
  -- type of each can be parsed, is concrete, and satisfies one of the types that the step
  -- provides, if it declares anything.
  pub prepare_artifacts-All :
      (n : ℕ) (artifacts : List (Option Artifact)) (rs : List RecordedArtifact)
      → prepare_artifacts files step provides n artifacts ≡ ok rs
      → (length rs ≡ length artifacts) × All (IsConcrete provides) rs
  unfolding prepare_artifacts
  prepare_artifacts-All n [] rs h =
      subst (λ (rs : List RecordedArtifact). (length rs ≡ 0) × All (IsConcrete provides) rs)
        (ok_inj h) (refl, tt)
  prepare_artifacts-All n (a ∷ rest) rs h =
      let (r, more, first, later, same) =
        both_ok rs (prepare_one files step provides n a)
          (prepare_artifacts files step provides (suc n) rest) h in
      let (count, all) = prepare_artifacts-All (suc n) rest more later in
      subst
        (λ (rs : List RecordedArtifact).
          (length rs ≡ suc (length rest)) × All (IsConcrete provides) rs)
        (sym same) (ap suc count, (prepare_one-IsConcrete n a r first, all))
