-- ===== src/Tests/Steps.antt =====
-- Runs of the artifact checks.
use runspool.Engine.Artifacts.{ArtifactType, Contract, parse_type, str}
use runspool.Engine.Artifacts.Declarations.{listed, text, parse_types}
use runspool.Engine.Artifacts.Chain.{check_chain, commas}
use runspool.Engine.Artifacts.Chain.Met.{AllMet, check_chain-AllMet}
use runspool.Engine.Artifacts.Recorded.{Artifact, Files, path, prepare_artifacts, RecordedArtifact}
use runspool.Engine.Artifacts.Recorded.Checked.{IsConcrete, prepare_artifacts-All}
use runspool.Engine.Artifacts.RoundTrip.{IsWritable, parse_type-str}
use runspool.Models.{quoted}
use runspool.Prelude.{
  String, true, false, ◌≡◌, ◌↔◌, ◌&&◌, refl, Option, none, some, List, [], ◌∷◌, All, length, nat_eq,
  ◌==◌, if◌then◌else◌, string_eq,
}
use runspool.Prelude.Exec.{Result, ok}
use runspool.Store.Artifacts.{latest, counts}
use runspool.Store.Artifacts.Latest.{last_of_each, latest-last_of_each}
use runspool.Store.Rows.{ArtifactRow, Db}
use runspool.Store.Table.{select}
use runspool.Tests.Data.{db_of, world_of, busy_task}
use runspool.Text.{join, append}

abbrev audio : ArtifactType
audio = record { kind = "audio"; param = some "<voice>" }

abbrev script : ArtifactType
script = record { kind = "script"; param = none }

parse_type-str_example :
    (parse_type "audio:<voice>" ≡ ok audio) ↔ ((str audio ≡ "audio:<voice>") × IsWritable audio)
parse_type-str_example = parse_type-str "audio:<voice>" audio

parsed_audio : parse_type "audio:<voice>" ≡ ok audio
unfolding parse_type
parsed_audio = refl

abbrev contracts : String → Result String (Option Contract)
contracts name =
    if name == "outline"
    then ok (some (record { requires = []; provides = script ∷ []; declared = true }))
    else ok (some (record { requires = script ∷ []; provides = audio ∷ []; declared = true }))

check_chain-AllMet_example :
    ((check_chain "novel"
        ("outline" ∷ "read" ∷ [])
        contracts
        (listed (text "book" ∷ []))
        false).errors
      ≡ [])
    ↔ ((ts : List ArtifactType) × (parse_types
            (listed (text "book" ∷ []))
            (join ("workflow " ∷ quoted "novel"))
            "inputs"
          ≡ ok ts)
        × AllMet "novel" contracts ts ("outline" ∷ "read" ∷ []))
check_chain-AllMet_example =
    check_chain-AllMet "novel" contracts ("outline" ∷ "read" ∷ []) (listed (text "book" ∷ []))

checked_chain :
    (check_chain "novel"
      ("outline" ∷ "read" ∷ [])
      contracts
      (listed (text "book" ∷ []))
      false).errors
    ≡ []
unfolding check_chain
checked_chain = refl

unmet_chain :
    (check_chain "novel" ("read" ∷ []) contracts (listed (text "book" ∷ [])) false).errors
    ≡ "workflow 'novel': step 'read' requires 'script', which no earlier step provides (provided before it: 'book' (the workflow inputs))"
      ∷ []
unfolding check_chain join commas str
unmet_chain = refl

-- One file, whose only block has three bytes.
abbrev pub files : Files
files = record {
  is_absolute = λ p. false;
  in_workspace = λ p. p;
  is_file = λ p. true;
  blocks = λ p. ok ((1 ∷ 2 ∷ 3 ∷ []) ∷ []);
  st_size = λ p. ok 3;
  hexdigest = λ bs. "ab";
}

abbrev returned : List (Option Artifact)
returned = some (record { type = text "audio:alto"; path = path "a.wav"; sha256 = none }) ∷ []

abbrev stored : List RecordedArtifact
stored = record { type = "audio:alto"; path = "a.wav"; sha256 = "ab"; size_bytes = some 3 } ∷ []

returned_stored : prepare_artifacts files "read" (some (audio ∷ [])) 1 returned ≡ ok stored
unfolding prepare_artifacts str append
returned_stored = refl

prepare_artifacts-All_example :
    (length stored ≡ length returned) × All (IsConcrete (some (audio ∷ []))) stored
prepare_artifacts-All_example =
    prepare_artifacts-All files "read" (some (audio ∷ [])) 1 returned stored returned_stored

abbrev row_of : String → ArtifactRow
row_of p = record {
  id = 1;
  task_id = 1;
  step = "read";
  step_run_id = none;
  type = "audio:alto";
  path = p;
  sha256 = "ab";
  size_bytes = some 3;
  created_at = 9;
}

abbrev two_recordings : Db
two_recordings = record (db_of busy_task []) { artifacts = row_of "a.wav" ∷ row_of "b.wav" ∷ [] }

latest-last_of_each_example :
    (latest 1 (world_of two_recordings)).0
    ≡ ok (
        last_of_each
          (select (λ a. a.task_id == 1 && counts two_recordings a) two_recordings.artifacts))
latest-last_of_each_example =
    latest-last_of_each 1 (world_of two_recordings)
      (record { alone = λ n db. refl; sound = λ n. refl })
