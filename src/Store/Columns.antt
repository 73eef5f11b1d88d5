-- ===== src/Store/Columns.antt =====
-- The columns of `tasks` that a statement names, each with a value: what `set` writes and what
-- `where` requires (repository.py, LIFECYCLE_COLUMNS and UPDATABLE_COLUMNS).
use runspool.Prelude.{
  ℕ, String, Bool, true, false, ◌≡◌, refl, ◌∙◌, ◌↔◌, ◌&&◌, Option, none, some, List, [], ◌∷◌, arith,
  Eq, ◌==◌, nat_eq, string_eq, bool_eq, option_eq,
}
use runspool.Models.{TaskStatus, status_eq}
use runspool.Store.Rows.{ℤ, pos, negsuc, Task}

abbrev int_beq : ℤ → ℤ → Bool
int_beq (pos a) (pos b) = a == b
int_beq (pos a) (negsuc b) = false
int_beq (negsuc a) (pos b) = false
int_beq (negsuc a) (negsuc b) = a == b

pub int_beq_iff : (a b : ℤ) → (int_beq a b ≡ true) ↔ (a ≡ b)
int_beq_iff (pos a) (pos b) = ground arith
int_beq_iff (pos a) (negsuc b) = ground arith
int_beq_iff (negsuc a) (pos b) = ground arith
int_beq_iff (negsuc a) (negsuc b) = ground arith

instance abbrev pub int_eq : Eq ℤ
int_eq = record { test = int_beq; test_iff = int_beq_iff }

-- A column and its value. `none` is null.
pub data Cell : Type 0 where
  input workflow step : String → Cell
  name progress metadata locked_by last_error claim_token approval_grant : Option String → Cell
  status : TaskStatus → Cell
  priority max_retries : ℤ → Cell
  retry_count : ℕ → Cell
  locked_at heartbeat_at next_retry_at : Option ℕ → Cell
  pause_requested terminate_requested : Bool → Cell

-- `col in LIFECYCLE_COLUMNS`.
abbrev pub is_lifecycle : Cell → Bool
is_lifecycle (workflow _) = true
is_lifecycle (step _) = true
is_lifecycle (status _) = true
is_lifecycle (retry_count _) = true
is_lifecycle (locked_by _) = true
is_lifecycle (locked_at _) = true
is_lifecycle (heartbeat_at _) = true
is_lifecycle (pause_requested _) = true
is_lifecycle (terminate_requested _) = true
is_lifecycle (last_error _) = true
is_lifecycle (next_retry_at _) = true
is_lifecycle (claim_token _) = true
is_lifecycle (approval_grant _) = true
is_lifecycle _ = false

-- `col in UPDATABLE_COLUMNS`.
abbrev pub is_updatable : Cell → Bool
is_updatable (name _) = true
is_updatable (priority _) = true
is_updatable (max_retries _) = true
is_updatable (progress _) = true
is_updatable (metadata _) = true
is_updatable _ = false

-- `set col = ?`.
abbrev pub write : Cell → Task → Task
write (input v) t = record t { input = v }
write (workflow v) t = record t { workflow = v }
write (step v) t = record t { step = v }
write (name v) t = record t { name = v }
write (progress v) t = record t { progress = v }
write (metadata v) t = record t { metadata = v }
write (locked_by v) t = record t { locked_by = v }
write (last_error v) t = record t { last_error = v }
write (claim_token v) t = record t { claim_token = v }
write (approval_grant v) t = record t { approval_grant = v }
write (status v) t = record t { status = v }
write (priority v) t = record t { priority = v }
write (max_retries v) t = record t { max_retries = v }
write (retry_count v) t = record t { retry_count = v }
write (locked_at v) t = record t { locked_at = v }
write (heartbeat_at v) t = record t { heartbeat_at = v }
write (next_retry_at v) t = record t { next_retry_at = v }
write (pause_requested v) t = record t { pause_requested = v }
write (terminate_requested v) t = record t { terminate_requested = v }

abbrev pub write_all : List Cell → Task → Task
write_all [] t = t
write_all (c ∷ cs) t = write_all cs (write c t)

-- `col = ?`, or `col is null` where the value is `None`.
abbrev pub holds : Cell → Task → Bool
holds (input v) t = t.input == v
holds (workflow v) t = t.workflow == v
holds (step v) t = t.step == v
holds (name v) t = t.name == v
holds (progress v) t = t.progress == v
holds (metadata v) t = t.metadata == v
holds (locked_by v) t = t.locked_by == v
holds (last_error v) t = t.last_error == v
holds (claim_token v) t = t.claim_token == v
holds (approval_grant v) t = t.approval_grant == v
holds (status v) t = t.status == v
holds (priority v) t = t.priority == v
holds (max_retries v) t = t.max_retries == v
holds (retry_count v) t = t.retry_count == v
holds (locked_at v) t = t.locked_at == v
holds (heartbeat_at v) t = t.heartbeat_at == v
holds (next_retry_at v) t = t.next_retry_at == v
holds (pause_requested v) t = t.pause_requested == v
holds (terminate_requested v) t = t.terminate_requested == v

abbrev pub all_hold : List Cell → Task → Bool
all_hold [] t = true
all_hold (c ∷ cs) t = holds c t && all_hold cs t

-- `fields.get("task_status")`.
abbrev pub get_status : List Cell → Option TaskStatus
get_status [] = none
get_status (status v ∷ cs) = some v
get_status (_ ∷ cs) = get_status cs

-- `fields.get("step")`.
abbrev pub get_step : List Cell → Option String
get_step [] = none
get_step (step v ∷ cs) = some v
get_step (_ ∷ cs) = get_step cs

-- The id of a row is in no statement's `set`.
pub write-id : (c : Cell) (t : Task) → (write c t).id ≡ t.id
write-id (input v) t = refl
write-id _ t = refl

pub write_all-id : (cs : List Cell) (t : Task) → (write_all cs t).id ≡ t.id
write_all-id [] t = refl
write_all-id (c ∷ cs) t = write_all-id cs (write c t) ∙ write-id c t
