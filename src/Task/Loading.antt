-- ===== src/Task/Loading.antt =====
-- `_load_storage`: the store that a start reads from the two tables, row by row. `x or y` of a column is
-- `y` where the column holds an empty text or 0; only `chat_id` can hold NULL.
pub mod RoundTrip
mod Tests
use telegram_media_downloade.Prelude.{
  ℕ, zero, suc, Bool, true, false, not, ◌&&◌, ◌||◌, Option, none, some, String, List, [], ◌∷◌, ltb,
  if◌then◌else◌, ◌==◌, string_key, pair_key, ◌≡◌, ◌≢◌, refl, ap, ◌∙◌, arith, elem, Distinct,
  Option-cases, Bool-cases, inl, inr,
}
use telegram_media_downloade.Dict.{Dict, get, put, keys}
use telegram_media_downloade.Dict.Laws.{get-put}
use telegram_media_downloade.Task.Status.{TaskStatus, created, other, is_terminal}
use telegram_media_downloade.Task.Snapshot.{FileSnapshot, WorkflowSnapshot, TaskSnapshot}
use telegram_media_downloade.Task.Tables.{TaskRow, Tables, task_row, workflow_columns}
use telegram_media_downloade.Task.Store.{TaskStateStore, find}

abbrev pub text_or : String → String → String
text_or a b = if a == "" then b else a

abbrev pub time_or : ℕ → ℕ → ℕ
time_or zero now = now
time_or (suc t) now = suc t

-- The empty text.
abbrev pub is_blank : TaskStatus → Bool
is_blank (other s) = s == ""
is_blank _ = false

-- `row["status"] or TaskStatus.CREATED`
unfoldable pub status_or_created : TaskStatus → TaskStatus
status_or_created status = if is_blank status then created else status

-- `task_files[row["message_id"]] = FileSnapshot(…)` for each file row of a task.
unfoldable pub load_files :
    ℕ
    → String
    → Dict (String × String) FileSnapshot
    → Dict String FileSnapshot
    → Dict String FileSnapshot
load_files now task_id [] files = files
load_files now task_id (((t, m), f) ∷ rows) files = load_files now task_id rows (
    if t == task_id
    then put m (record f { message_id = m; updated_at = time_or f.updated_at now }) files
    else files)

-- The first key with the greatest `updated_at`.
unfoldable pub newest_from : String → ℕ → Dict String FileSnapshot → String
newest_from key at [] = key
newest_from key at ((k, f) ∷ files) =
    let newer = ltb at f.updated_at in
    newest_from (if newer then k else key) (if newer then f.updated_at else at) files

unfoldable pub newest_file : Dict String FileSnapshot → Option String
unfolding newest_from
newest_file [] = none
newest_file ((k, f) ∷ files) = some (newest_from k f.updated_at files)

-- `if row["workflow_type"] or row["workflow_status"]`
unfoldable pub load_workflow : WorkflowSnapshot → Option WorkflowSnapshot
load_workflow w = if (w.workflow_type == "") && (w.status == "") then none else some w

unfoldable pub load_task : ℕ → Dict String FileSnapshot → TaskRow → TaskSnapshot
unfolding status_or_created newest_file load_workflow
load_task now files row = record {
  task_id = row.task_id;
  source = text_or row.source "bot";
  task_type = text_or row.task_type "unknown";
  chat_id = row.chat_id;
  title = row.title;
  status = status_or_created row.status;
  created_at = time_or row.created_at now;
  updated_at = time_or row.updated_at now;
  total_count = row.total_count;
  success_count = row.success_count;
  failed_count = row.failed_count;
  skipped_count = row.skipped_count;
  upload_success_count = row.upload_success_count;
  current_file = newest_file files;
  workflow = load_workflow row.workflow;
  error = row.error;
  needs_confirmation = row.needs_confirmation;
  files = files;
}

unfoldable pub place_loaded : TaskSnapshot → TaskStateStore → TaskStateStore
place_loaded task s =
    if is_terminal task.status
    then record s { completed = put task.task_id task s.completed }
    else record s { active = put task.task_id task s.active }

unfoldable pub load_rows :
    ℕ → Dict (String × String) FileSnapshot → Dict String TaskRow → TaskStateStore → TaskStateStore
unfolding place_loaded load_files load_task
load_rows now file_rows [] s = s
load_rows now file_rows ((k, row) ∷ rows) s =
    load_rows now file_rows rows
      (place_loaded (load_task now (load_files now row.task_id file_rows []) row) s)

unfoldable pub load_storage : ℕ → Tables → TaskStateStore → TaskStateStore
unfolding load_rows
load_storage now db s = load_rows now db.task_files db.tasks s
