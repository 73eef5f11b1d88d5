-- ===== src/Store/Artifacts/Latest.antt =====
-- artifact_log.py: `latest` keeps the rows that no later row of their type replaces.
use mathlib.Core.List.{append_assoc, append-nil}
use runspool.Prelude.{
  ℕ, none, nat_eq, ◌&&◌, String, Bool, false, ◌≡◌, refl, sym, ap, ◌∙◌, List, [], ◌∷◌, ◌++◌, arith,
  ◌||◌, inl, inr, Bool-cases, if◌then◌else◌, ◌==◌, string_eq,
}
use runspool.Store.Rows.{ArtifactRow, Db}
use runspool.Prelude.Exec.{ok}
use runspool.Store.Quiet.{IsQuiet}
use runspool.Store.Table.{select}
use runspool.Store.World.{World, connect, advance}
use runspool.Store.Artifacts.{without, newest, latest, list_for_task, counts, of_type}
use text.Mathlib.TextEquality.{eq_iff}

abbrev pub of_some_type : List ArtifactRow → String → Bool
of_some_type [] type = false
of_some_type (a ∷ rest) type = a.type == type || of_some_type rest type

-- The rows whose type no later row has, in their order.
abbrev pub last_of_each : List ArtifactRow → List ArtifactRow
last_of_each [] = []
last_of_each (a ∷ rest) =
    if of_some_type rest a.type then last_of_each rest else a ∷ last_of_each rest

abbrev kept : List ArtifactRow → List ArtifactRow → List ArtifactRow
kept rows [] = []
kept rows (a ∷ rest) = if of_some_type rows a.type then kept rows rest else a ∷ kept rows rest

kept-append : (rows xs ys : List ArtifactRow) → kept rows (xs ++ ys) ≡ kept rows xs ++ kept rows ys
kept-append rows [] ys = refl
kept-append rows (a ∷ xs) ys = ground (arith, kept-append rows xs ys)

kept-without :
    (a : ArtifactRow) (rows found : List ArtifactRow)
    → kept rows (without a.type found) ≡ kept (a ∷ rows) found
unfolding without
kept-without a rows [] = refl
kept-without a rows (b ∷ found) =
    ground (arith, kept-without a rows found, eq_iff a.type b.type, eq_iff b.type a.type)

kept-nil : (found : List ArtifactRow) → kept [] found ≡ found
kept-nil [] = refl
kept-nil (a ∷ found) = ap (λ (rest : List ArtifactRow). a ∷ rest) (kept-nil found)

kept_one :
    (a : ArtifactRow) (rows : List ArtifactRow)
    → kept rows (a ∷ []) ++ last_of_each rows ≡ last_of_each (a ∷ rows)
kept_one a rows = elim (Bool-cases (of_some_type rows a.type)) [
  | inl again ↦ rw again refl
  | inr last ↦ rw last refl
]

newest-kept :
    (rows found : List ArtifactRow) → newest rows found ≡ kept rows found ++ last_of_each rows
unfolding newest
newest-kept [] found = sym (append-nil (kept [] found) ∙ kept-nil found)
newest-kept (a ∷ rows) found =
    newest-kept rows (without a.type found ++ (a ∷ []))
    ∙ ap (λ (k : List ArtifactRow). k ++ last_of_each rows)
        (kept-append rows (without a.type found) (a ∷ []))
    ∙ append_assoc (kept rows (without a.type found)) (kept rows (a ∷ [])) (last_of_each rows)
    ∙ ap (λ (k : List ArtifactRow). kept rows (without a.type found) ++ k) (kept_one a rows)
    ∙ ap (λ (k : List ArtifactRow). k ++ last_of_each (a ∷ rows)) (kept-without a rows found)

select_counting :
    (i : ℕ) (db : Db) (rows : List ArtifactRow)
    → select (λ a. a.task_id == i && of_type none a && (false || counts db a)) rows
      ≡ select (λ a. a.task_id == i && counts db a) rows
unfolding select
select_counting i db [] = refl
select_counting i db (a ∷ rows) = ground (arith, select_counting i db rows)

-- When nobody else writes and nothing fails, `latest` answers the task's rows that count (a row of
-- a run counts when the run ended `ok` or `degraded`) and whose type no later such row has, in the
-- order in which they were recorded.
pub latest-last_of_each :
    (i : ℕ) (w : World)
    → IsQuiet w
    → (latest i w).0
      ≡ ok (last_of_each (select (λ a. a.task_id == i && counts w.db a) w.db.artifacts))
unfolding latest list_for_task connect advance
latest-last_of_each i w q =
    rw (q.sound w.tick, q.alone w.tick w.db)
      (ap (λ (rows : List ArtifactRow). ok (newest rows [])) (select_counting i w.db w.db.artifacts)
        ∙ ap ok (newest-kept (select (λ a. a.task_id == i && counts w.db a) w.db.artifacts) []))
