-- ===== src/Task/Store/Files.antt =====
-- `transition_file` and `upsert_file`: one lifecycle transition of a task and one of its files. The
-- rows are written before the memory changes.
use telegram_media_downloade.Prelude.{Option, none, some, String, if◌then◌else◌, string_key}
use telegram_media_downloade.Dict.{get, put, pop}
use telegram_media_downloade.Task.Status.{TaskStatus, is_terminal}
use telegram_media_downloade.Task.Snapshot.{
  FileSnapshot, TaskSnapshot, TaskUpdates, FileUpdates, new_file, new_task, apply_updates,
  apply_file_updates, refresh_counts_from_files,
}
use telegram_media_downloade.Task.Tables.{write_task, write_file}
use telegram_media_downloade.Task.Store.{
  TaskStateStore, Moment, Result, ok, raise, storage_failed, find, settle, drop_evicted, returning,
  validate_updates, checked,
}

-- `self._active.get(…) or …`, cloned, or a new task.
unfoldable pub task_or_new : Moment → String → Option TaskSnapshot → TaskSnapshot
task_or_new m key none = new_task key m.now
task_or_new m key (some existing) = existing

-- `task.files.get(message_key)`, or a new file.
unfoldable pub file_or_new : Moment → String → Option FileSnapshot → FileSnapshot
file_or_new m key none = new_file key m.now
file_or_new m key (some file) = file

-- An empty `task_updates` is falsy, and touches nothing.
unfoldable pub updated_task : Moment → Option TaskUpdates → TaskSnapshot → TaskSnapshot
updated_task m none task = task
updated_task m (some u) task = apply_updates m.now u task

unfoldable pub requested_status : Option TaskUpdates → Option TaskStatus
requested_status none = none
requested_status (some u) = u.status

-- The file after its updates.
unfoldable pub moved_file : Moment → String → FileUpdates → TaskSnapshot → FileSnapshot
unfolding file_or_new
moved_file m message_key u task =
    apply_file_updates m.now u (file_or_new m message_key (get message_key task.files))

-- The task with that file, and fresh counts.
unfoldable pub moved_task : Moment → String → FileSnapshot → TaskSnapshot → TaskSnapshot
moved_task m message_key file task = refresh_counts_from_files (record task {
  files = put message_key file task.files;
  current_file = some message_key;
  updated_at = m.now;
})

-- The first transaction: the task and the file.
unfoldable pub write_transition :
    Moment
    → String
    → TaskSnapshot
    → FileSnapshot
    → TaskStateStore
    → Result (Unit {0}) × TaskStateStore
write_transition m key task file s = elim s.storage [
  | none ↦ (ok tt, s)
  | some db ↦
      if m.write_ok
      then (ok tt, record s { storage = some (write_file key file (write_task task db)) })
      else (raise storage_failed, s)
]

-- The changes in memory, and the second transaction.
unfoldable pub install_task :
    Moment → String → TaskSnapshot → TaskStateStore → Result (Unit {0}) × TaskStateStore
install_task m key task s =
    if is_terminal task.status
    then (let (kept, evicted) = settle key task s in
        drop_evicted m evicted (record s { active = pop key s.active; completed = kept }))
    else (ok tt, record s { active = put key task s.active; completed = pop key s.completed })

unfoldable pub installed :
    Moment
    → String
    → TaskSnapshot
    → FileSnapshot
    → Result (Unit {0}) × TaskStateStore
    → Result (TaskSnapshot × FileSnapshot) × TaskStateStore
unfolding install_task
installed m key task file (ok u, s) = returning (task, file) (install_task m key task s)
installed m key task file (raise e, s) = (raise e, s)

unfoldable pub transition_file :
    Moment
    → String
    → String
    → Option TaskUpdates
    → FileUpdates
    → TaskStateStore
    → Result (TaskSnapshot × FileSnapshot) × TaskStateStore
unfolding write_transition installed
transition_file m key message_key task_updates file_updates s =
    let before = task_or_new m key (find key s) in
    let updated = updated_task m task_updates before in
    let file = moved_file m message_key file_updates updated in
    let task = moved_task m message_key file updated in
    checked (validate_updates before (requested_status task_updates)) s
      (installed m key task file (write_transition m key task file s))

unfoldable pub file_of :
    Result (TaskSnapshot × FileSnapshot) × TaskStateStore → Result FileSnapshot × TaskStateStore
file_of (ok (task, file), s) = (ok file, s)
file_of (raise e, s) = (raise e, s)

unfoldable pub upsert_file :
    Moment → String → String → FileUpdates → TaskStateStore → Result FileSnapshot × TaskStateStore
unfolding file_of
upsert_file m key message_key file_updates s =
    file_of (transition_file m key message_key none file_updates s)
