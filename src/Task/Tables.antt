-- ===== src/Task/Tables.antt =====
-- The two SQLite tables of the task store and the statements on them. A row holds the columns of a
-- task; NULL stands only in `chat_id`, since the code writes no other.
use telegram_media_downloade.Prelude.{
  ℕ, Bool, Option, none, some, String, List, [], ◌∷◌, ◌==◌, string_key, pair_key, if◌then◌else◌,
}
use telegram_media_downloade.Prelude.Int.{ℤ}
use telegram_media_downloade.Dict.{Dict, get, put, pop}
use telegram_media_downloade.Task.Status.{TaskStatus}
use telegram_media_downloade.Task.Snapshot.{
  FileSnapshot, WorkflowSnapshot, TaskSnapshot, empty_workflow,
}

pub record TaskRow : Type 0 where
  pub task_id : String
  pub source : String
  pub task_type : String
  pub chat_id : Option ℤ
  pub title : String
  pub status : TaskStatus
  pub created_at : ℕ
  pub updated_at : ℕ
  pub total_count : ℕ
  pub success_count : ℕ
  pub failed_count : ℕ
  pub skipped_count : ℕ
  pub upload_success_count : ℕ
  pub workflow : WorkflowSnapshot
  pub error : String
  pub needs_confirmation : Bool

-- The primary keys are `task_id`, and `(task_id, message_id)`.
pub record Tables : Type 0 where
  pub tasks : Dict String TaskRow
  pub task_files : Dict (String × String) FileSnapshot

-- `task.workflow or WorkflowSnapshot()`
abbrev pub workflow_columns : Option WorkflowSnapshot → WorkflowSnapshot
workflow_columns none = empty_workflow
workflow_columns (some w) = w

unfoldable pub task_row : TaskSnapshot → TaskRow
task_row task = record {
  task_id = task.task_id;
  source = task.source;
  task_type = task.task_type;
  chat_id = task.chat_id;
  title = task.title;
  status = task.status;
  created_at = task.created_at;
  updated_at = task.updated_at;
  total_count = task.total_count;
  success_count = task.success_count;
  failed_count = task.failed_count;
  skipped_count = task.skipped_count;
  upload_success_count = task.upload_success_count;
  workflow = workflow_columns task.workflow;
  error = task.error;
  needs_confirmation = task.needs_confirmation;
}

-- `ON CONFLICT(task_id) DO UPDATE SET …` leaves `created_at` as it was.
abbrev pub over_row : Option TaskRow → TaskRow → TaskRow
over_row none row = row
over_row (some old) row = record row { created_at = old.created_at }

unfoldable pub write_task : TaskSnapshot → Tables → Tables
unfolding task_row
write_task task db = record db {
  tasks = put task.task_id (over_row (get task.task_id db.tasks) (task_row task)) db.tasks;
}

unfoldable pub write_file : String → FileSnapshot → Tables → Tables
write_file task_id file db = record db {
  task_files = put (task_id, file.message_id) file db.task_files;
}

-- `DELETE FROM task_files WHERE task_id = ?`
unfoldable pub delete_files :
    String → Dict (String × String) FileSnapshot → Dict (String × String) FileSnapshot
delete_files task_id [] = []
delete_files task_id (((t, m), f) ∷ rows) =
    let rest = delete_files task_id rows in if t == task_id then rest else ((t, m), f) ∷ rest

unfoldable pub delete_task : String → Tables → Tables
delete_task task_id db = record {
  tasks = pop task_id db.tasks;
  task_files = delete_files task_id db.task_files;
}

-- `_delete_task_storage`
unfoldable pub delete_task_storage : List String → Tables → Tables
unfolding delete_task
delete_task_storage [] db = db
delete_task_storage (task_id ∷ ids) db = delete_task_storage ids (delete_task task_id db)
