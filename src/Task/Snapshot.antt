-- ===== src/Task/Snapshot.antt =====
-- The snapshots of files, workflows and tasks. The code shares the current file with an entry of
-- `files` and keeps that sharing in `clone`; here `current_file` is that entry's key. Sizes, counts
-- and times are numbers.
use telegram_media_downloade.Prelude.{
  ℕ, max, Bool, false, Option, none, some, String, [], ◌∷◌, length, count, or_else,
}
use telegram_media_downloade.Prelude.Int.{ℤ}
use telegram_media_downloade.Dict.{Dict, values}
use telegram_media_downloade.Task.Status.{
  TaskStatus, FileStatus, created, is_success, is_failure, is_skip, is_uploaded,
}

pub record FileSnapshot : Type 0 where
  pub message_id : String
  pub status : FileStatus
  pub filename : String
  pub total_size : ℕ
  pub downloaded_size : ℕ
  pub download_speed : ℕ
  pub save_path : String
  pub error : String
  pub updated_at : ℕ
  pub uploaded_size : ℕ
  pub upload_speed : ℕ

-- `FileSnapshot(message_id=…)`
unfoldable pub new_file : String → ℕ → FileSnapshot
new_file message_id now = record {
  message_id = message_id;
  status = FileStatus.queued;
  filename = "";
  total_size = 0;
  downloaded_size = 0;
  download_speed = 0;
  save_path = "";
  error = "";
  updated_at = now;
  uploaded_size = 0;
  upload_speed = 0;
}

pub record WorkflowSnapshot : Type 0 where
  pub workflow_type : String
  pub status : String
  pub scan_count : ℕ
  pub media_count : ℕ
  pub selected_count : ℕ
  pub summary : String
  pub error : String

abbrev pub empty_workflow : WorkflowSnapshot
empty_workflow = record {
  workflow_type = "";
  status = "";
  scan_count = 0;
  media_count = 0;
  selected_count = 0;
  summary = "";
  error = "";
}

pub record TaskSnapshot : Type 0 where
  pub task_id : String
  pub source : String
  pub task_type : String
  pub chat_id : Option ℤ
  pub title : String
  pub status : TaskStatus
  pub created_at : ℕ
  pub updated_at : ℕ
  pub total_count : ℕ
  pub success_count : ℕ
  pub failed_count : ℕ
  pub skipped_count : ℕ
  pub upload_success_count : ℕ
  pub current_file : Option String
  pub workflow : Option WorkflowSnapshot
  pub error : String
  pub needs_confirmation : Bool
  pub files : Dict String FileSnapshot

-- `TaskSnapshot(task_id=…)`
unfoldable pub new_task : String → ℕ → TaskSnapshot
new_task task_id now = record {
  task_id = task_id;
  source = "bot";
  task_type = "unknown";
  chat_id = none;
  title = "";
  status = created;
  created_at = now;
  updated_at = now;
  total_count = 0;
  success_count = 0;
  failed_count = 0;
  skipped_count = 0;
  upload_success_count = 0;
  current_file = none;
  workflow = none;
  error = "";
  needs_confirmation = false;
  files = [];
}

-- `sum(1 for item in self.files.values() if …)`
unfoldable pub count_files : (FileStatus → Bool) → Dict String FileSnapshot → ℕ
count_files test files = count (λ (f : FileSnapshot). test f.status) (values files)

-- The body of `if self.files:`.
unfoldable pub recount : TaskSnapshot → TaskSnapshot
recount task = record task {
  total_count = max task.total_count (length task.files);
  success_count = count_files is_success task.files;
  failed_count = count_files is_failure task.files;
  skipped_count = count_files is_skip task.files;
  upload_success_count = max task.upload_success_count (count_files is_uploaded task.files);
}

unfoldable pub refresh_counts_from_files : TaskSnapshot → TaskSnapshot
unfolding recount
refresh_counts_from_files task = elim task.files [ [] ↦ task | _ ∷ _ ↦ recount task ]

-- The keyword arguments of an update. A value that is None is skipped, and so is a key that is no
-- field; `updated_at` is set by the store, and no caller passes the files, the id or `created_at`.
pub record TaskUpdates : Type 0 where
  pub source : Option String
  pub task_type : Option String
  pub chat_id : Option ℤ
  pub title : Option String
  pub status : Option TaskStatus
  pub total_count : Option ℕ
  pub success_count : Option ℕ
  pub failed_count : Option ℕ
  pub skipped_count : Option ℕ
  pub upload_success_count : Option ℕ
  pub workflow : Option WorkflowSnapshot
  pub error : Option String
  pub needs_confirmation : Option Bool

abbrev pub no_updates : TaskUpdates
no_updates = record {
  source = none;
  task_type = none;
  chat_id = none;
  title = none;
  status = none;
  total_count = none;
  success_count = none;
  failed_count = none;
  skipped_count = none;
  upload_success_count = none;
  workflow = none;
  error = none;
  needs_confirmation = none;
}

-- `if value is not None: setattr(…)`
abbrev pub assign {ℓ} : {A : Type ℓ} → Option A → A → A
assign none old = old
assign (some new) old = new

-- `TaskStateStore._apply_updates`
unfoldable pub apply_updates : ℕ → TaskUpdates → TaskSnapshot → TaskSnapshot
apply_updates now u task = record task {
  source = assign u.source task.source;
  task_type = assign u.task_type task.task_type;
  chat_id = or_else u.chat_id task.chat_id;
  title = assign u.title task.title;
  status = assign u.status task.status;
  total_count = assign u.total_count task.total_count;
  success_count = assign u.success_count task.success_count;
  failed_count = assign u.failed_count task.failed_count;
  skipped_count = assign u.skipped_count task.skipped_count;
  upload_success_count = assign u.upload_success_count task.upload_success_count;
  workflow = or_else u.workflow task.workflow;
  error = assign u.error task.error;
  needs_confirmation = assign u.needs_confirmation task.needs_confirmation;
  updated_at = now;
}

-- The `file_updates` of `transition_file`; None values are skipped.
pub record FileUpdates : Type 0 where
  pub status : Option FileStatus
  pub filename : Option String
  pub total_size : Option ℕ
  pub downloaded_size : Option ℕ
  pub download_speed : Option ℕ
  pub save_path : Option String
  pub error : Option String
  pub uploaded_size : Option ℕ
  pub upload_speed : Option ℕ

abbrev pub no_file_updates : FileUpdates
no_file_updates = record {
  status = none;
  filename = none;
  total_size = none;
  downloaded_size = none;
  download_speed = none;
  save_path = none;
  error = none;
  uploaded_size = none;
  upload_speed = none;
}

unfoldable pub apply_file_updates : ℕ → FileUpdates → FileSnapshot → FileSnapshot
apply_file_updates now u file = record file {
  status = assign u.status file.status;
  filename = assign u.filename file.filename;
  total_size = assign u.total_size file.total_size;
  downloaded_size = assign u.downloaded_size file.downloaded_size;
  download_speed = assign u.download_speed file.download_speed;
  save_path = assign u.save_path file.save_path;
  error = assign u.error file.error;
  uploaded_size = assign u.uploaded_size file.uploaded_size;
  upload_speed = assign u.upload_speed file.upload_speed;
  updated_at = now;
}

-- The keyword arguments of `update_workflow`.
pub record WorkflowUpdates : Type 0 where
  pub workflow_type : Option String
  pub status : Option String
  pub scan_count : Option ℕ
  pub media_count : Option ℕ
  pub selected_count : Option ℕ
  pub summary : Option String
  pub error : Option String

unfoldable pub apply_workflow_updates : WorkflowUpdates → WorkflowSnapshot → WorkflowSnapshot
apply_workflow_updates u w = record {
  workflow_type = assign u.workflow_type w.workflow_type;
  status = assign u.status w.status;
  scan_count = assign u.scan_count w.scan_count;
  media_count = assign u.media_count w.media_count;
  selected_count = assign u.selected_count w.selected_count;
  summary = assign u.summary w.summary;
  error = assign u.error w.error;
}
