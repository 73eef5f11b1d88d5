-- ===== src/Tests/Kernel.antt =====
-- Two layers of patches.
use runspool.Prelude.{true, false, ◌≡◌, refl, [], ◌∷◌, string_eq}
use runspool.Prelude.Exec.{ok, err}
use runspool.Kernel.Compose.{
  Value, Pairs, Layer, Composition, compose, enabled, flag, text, scalar, sequence, mapping,
  no_items, item, no_pairs, pair, no_entry, defined_twice,
}
use runspool.Kernel.Compose.Distinct.{Distinct, Extends}
use runspool.Kernel.Compose.Composed.{compose-Distinct}

abbrev steps_entry : Pairs
steps_entry = pair "id" (text "steps") (
    pair "plugin" (text "builtin")
      (pair "config" (mapping (pair "limit" (scalar "3") no_pairs)) no_pairs))

abbrev bundle : Layer
bundle = record {
  source = "bundle";
  patches = mapping (pair "insert" (sequence (item (mapping steps_entry) no_items)) no_pairs) ∷ [];
}

abbrev overlay : Layer
overlay = record {
  source = "overlay";
  patches =
      mapping (
        pair "id" (text "steps") (
          pair "config" (mapping (pair "retry" (flag true) no_pairs))
            (pair "disabled" (flag true) no_pairs)))
      ∷ mapping (pair "id" (text "other") no_pairs)
      ∷ [];
}

abbrev limit : Value
limit = mapping (pair "limit" (scalar "3") no_pairs)

abbrev built : Composition
built = record {
  entries = record { id = "steps"; plugin = "builtin"; config = limit; disabled = false } ∷ [];
  warnings = [];
}

abbrev changed : Composition
changed = record {
  entries =
      record {
        id = "steps";
        plugin = "builtin";
        config = mapping (pair "limit" (scalar "3") (pair "retry" (flag true) no_pairs));
        disabled = true;
      }
      ∷ [];
  warnings = no_entry "overlay" 2 "other" ∷ [];
}

bundle_alone : compose (bundle ∷ []) ≡ ok built
unfolding compose
bundle_alone = refl

both : compose (bundle ∷ overlay ∷ []) ≡ ok changed
unfolding compose
both = refl

twice : compose (bundle ∷ bundle ∷ []) ≡ err (defined_twice "bundle" 1 "steps")
unfolding compose
twice = refl

none_enabled : enabled changed.entries ≡ []
unfolding enabled
none_enabled = refl

compose-Distinct_example : Distinct changed.entries × Extends built.entries changed.entries
compose-Distinct_example =
    compose-Distinct (bundle ∷ []) (overlay ∷ []) built changed bundle_alone both
