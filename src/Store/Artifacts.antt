-- ===== src/Store/Artifacts.antt =====
-- artifact_log.py: the artifacts that steps recorded, one row each, never updated.
pub mod Latest
use runspool.Prelude.{
  ℕ, suc, String, Bool, true, false, ◌&&◌, ◌||◌, not, Option, none, some, List, [], ◌∷◌, ◌++◌,
  if◌then◌else◌, ◌==◌, nat_eq, string_eq,
}
use runspool.Prelude.Exec.{ok, pure, ◌>>=◌}
use runspool.Engine.Artifacts.Recorded.{RecordedArtifact}
use runspool.Store.Rows.{RunStatus, StepRun, ArtifactRow, Db}
use runspool.Store.Table.{find, select}
use runspool.Store.World.{M, connect}

abbrev artifact_row : ℕ → String → Option ℕ → RecordedArtifact → ℕ → ℕ → ArtifactRow
artifact_row task_id step step_run_id a id now = record {
  id = id;
  task_id = task_id;
  step = step;
  step_run_id = step_run_id;
  type = a.type;
  path = a.path;
  sha256 = a.sha256;
  size_bytes = a.size_bytes;
  created_at = now;
}

-- `executemany("insert into artifacts ...")`.
unfoldable pub insert_all : ℕ → String → Option ℕ → ℕ → List RecordedArtifact → Db → Db
insert_all task_id step step_run_id now [] db = db
insert_all task_id step step_run_id now (a ∷ rest) db =
    let id = suc db.last_artifact in
    insert_all task_id step step_run_id now rest (record db {
      artifacts = db.artifacts ++ (artifact_row task_id step step_run_id a id now ∷ []);
      last_artifact = id;
    })

-- `ArtifactLog.record`.
unfoldable pub record_all : ℕ → String → List RecordedArtifact → Option ℕ → M Unit
unfolding insert_all
record_all task_id step [] step_run_id = pure tt
record_all task_id step (a ∷ rest) step_run_id =
    connect λ now db. (ok tt, insert_all task_id step step_run_id now (a ∷ rest) db)

abbrev pub run_key : StepRun → ℕ
run_key r = r.id

abbrev pub is_finished : RunStatus → Bool
is_finished RunStatus.ok = true
is_finished RunStatus.degraded = true
is_finished _ = false

-- `a.step_run_id is null or r.status in ('ok', 'degraded')`, behind the left join.
abbrev pub counts : Db → ArtifactRow → Bool
counts db a = elim a.step_run_id [
  | none ↦ true
  | some i ↦ elim (find run_key i db.step_runs) [ none ↦ false | some r ↦ is_finished r.status ]
]

abbrev pub of_type : Option String → ArtifactRow → Bool
of_type none a = true
of_type (some type) a = a.type == type

-- `ArtifactLog.list_for_task`.
unfoldable pub list_for_task : ℕ → Option String → Bool → M (List ArtifactRow)
list_for_task task_id type include_unfinished = connect λ now db. (
  ok (
      select (λ a. a.task_id == task_id && of_type type a && (include_unfinished || counts db a))
        db.artifacts),
  db,
)

-- `latest.pop(type, None)`, of the dict's values.
unfoldable pub without : String → List ArtifactRow → List ArtifactRow
without type [] = []
without type (a ∷ rest) = let more = without type rest in if a.type == type then more else a ∷ more

-- The loop of `latest`; `found` are the dict's values in its order.
unfoldable pub newest : List ArtifactRow → List ArtifactRow → List ArtifactRow
unfolding without
newest [] found = found
newest (a ∷ rest) found = newest rest (without a.type found ++ (a ∷ []))

-- `ArtifactLog.latest`.
unfoldable pub latest : ℕ → M (List ArtifactRow)
unfolding list_for_task newest
latest task_id = do rows ← list_for_task task_id none false; pure (newest rows [])
