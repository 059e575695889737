-- ===== src/Task/Store/Methods.antt =====
-- The methods of `TaskStateStore` that create, change, complete and remove tasks.
use telegram_media_downloade.Prelude.{
  ℕ, Bool, true, false, not, ◌&&◌, Option, none, some, String, List, [], ◌∷◌, ◌++◌, length, nat_beq,
  if◌then◌else◌, ◌==◌, string_key, is_some, elem, ltb,
}
use telegram_media_downloade.Prelude.Int.{ℤ, same_int}
use telegram_media_downloade.Dict.{Dict, get, pop, keys, values}
use telegram_media_downloade.Task.Status.{
  TaskStatus, queued, completed_with_errors, is_terminal, is_retryable,
}
use telegram_media_downloade.Task.Status.{completed as completed_status}
use telegram_media_downloade.Task.Snapshot.{
  TaskSnapshot, TaskUpdates, WorkflowUpdates, no_updates, new_task, apply_updates,
  apply_workflow_updates, refresh_counts_from_files,
}
use telegram_media_downloade.Task.Tables.{
  TaskRow, workflow_columns, delete_task, delete_task_storage,
}
use telegram_media_downloade.Task.Store.{
  TaskStateStore, Moment, Result, ok, raise, task_transition, task_identity_conflict,
  storage_failed, find, move_completed, store_task, returning, validate_status, validate_updates,
  checked,
}

-- The arguments that `create_task` and `ensure_task` name.
pub record TaskIdentity : Type 0 where
  pub source : String
  pub task_type : String
  pub chat_id : Option ℤ
  pub title : String

-- `_apply_updates(task, source=source, …, status=status, **updates)`
abbrev pub creation : TaskIdentity → TaskStatus → TaskUpdates → TaskUpdates
creation i status u = record u {
  source = some i.source;
  task_type = some i.task_type;
  chat_id = i.chat_id;
  title = some i.title;
  status = some status;
}

unfoldable pub write_back :
    Moment → String → TaskSnapshot → TaskStateStore → Result TaskSnapshot × TaskStateStore
write_back m key task s = returning task (store_task m key task s)

-- `TaskSnapshot(task_id=…, source=…, task_type=…, chat_id=…, title=…, status=…)`
unfoldable pub first_task : Moment → String → TaskIdentity → TaskStatus → TaskSnapshot
unfolding new_task
first_task m key i status = record (new_task key m.now) {
  source = i.source;
  task_type = i.task_type;
  chat_id = i.chat_id;
  title = i.title;
  status = status;
}

unfoldable pub create_task :
    Moment
    → String
    → TaskIdentity
    → TaskStatus
    → TaskUpdates
    → TaskStateStore
    → Result TaskSnapshot × TaskStateStore
unfolding write_back
create_task m key i status u s = elim (find key s) [
  | none ↦
      checked (validate_status key status) s
        (write_back m key (apply_updates m.now (creation i status u) (first_task m key i status)) s)
  | some existing ↦
      checked (validate_updates existing (some status)) s
        (write_back m key (apply_updates m.now (creation i status u) existing) s)
]

abbrev pub same_chat : Option ℤ → Option ℤ → Bool
same_chat none none = true
same_chat (some a) (some b) = same_int a b
same_chat _ _ = false

-- A count is compared where the call names it.
abbrev pub same_count : Option ℕ → ℕ → Bool
same_count none n = true
same_count (some m) n = nat_beq n m

-- Every field of `expected_identity` has the expected value.
unfoldable pub same_identity : TaskIdentity → TaskUpdates → TaskSnapshot → Bool
same_identity i u t =
    (t.source == i.source)
    && (t.task_type == i.task_type)
    && same_chat t.chat_id i.chat_id
    && (t.title == i.title)
    && same_count u.total_count t.total_count
    && same_count u.success_count t.success_count
    && same_count u.failed_count t.failed_count
    && same_count u.skipped_count t.skipped_count
    && same_count u.upload_success_count t.upload_success_count

unfoldable pub ensure_task :
    Moment
    → String
    → TaskIdentity
    → TaskStatus
    → TaskUpdates
    → TaskStateStore
    → Result TaskSnapshot × TaskStateStore
ensure_task m key i status u s = elim (find key s) [
  | some existing ↦
      if same_identity i u existing
      then (ok existing, s)
      else (raise (task_identity_conflict key), s)
  | none ↦ create_task m key i status u s
]

-- `None` is returned where there is no such task.
unfoldable pub returning_some :
    Result TaskSnapshot × TaskStateStore → Result (Option TaskSnapshot) × TaskStateStore
returning_some (ok t, s) = (ok (some t), s)
returning_some (raise e, s) = (raise e, s)

unfoldable pub update_task :
    Moment → String → TaskUpdates → TaskStateStore → Result (Option TaskSnapshot) × TaskStateStore
unfolding write_back returning_some
update_task m key u s = elim (find key s) [
  | none ↦ (ok none, s)
  | some existing ↦
      checked (validate_updates existing u.status) s
        (returning_some (write_back m key (apply_updates m.now u existing) s))
]

abbrev pub retry_updates : TaskUpdates → TaskUpdates
retry_updates u = record u {
  status = some queued;
  error = some "";
  needs_confirmation = some false;
}

unfoldable pub retry_task :
    Moment → String → TaskUpdates → TaskStateStore → Result (Option TaskSnapshot) × TaskStateStore
unfolding write_back returning_some
retry_task m key u s = elim (find key s) [
  | none ↦ (ok none, s)
  | some existing ↦
      if not (is_retryable existing.status)
      then (raise (task_transition key existing.status queued), s)
      else returning_some (write_back m key (apply_updates m.now (retry_updates u) existing) s)
]

unfoldable pub reconcile_task :
    Moment
    → String
    → TaskStatus
    → TaskUpdates
    → TaskStateStore
    → Result (Option TaskSnapshot) × TaskStateStore
unfolding write_back returning_some
reconcile_task m key status u s = elim (find key s) [
  | none ↦ (ok none, s)
  | some existing ↦ checked (validate_status key status) s (
      returning_some
        (write_back m key (apply_updates m.now (record u { status = some status }) existing) s))
]

unfoldable pub update_workflow :
    Moment
    → String
    → WorkflowUpdates
    → TaskStateStore
    → Result (Option TaskSnapshot) × TaskStateStore
unfolding write_back returning_some
update_workflow m key u s = elim (find key s) [
  | none ↦ (ok none, s)
  | some existing ↦
      let workflow = apply_workflow_updates u (workflow_columns existing.workflow) in
      returning_some (
        write_back m key
          (apply_updates m.now (record no_updates { workflow = some workflow }) existing) s)
]

-- The status that `complete_task` gives a task whose counts are fresh.
unfoldable pub target_status : TaskSnapshot → TaskStatus
target_status task =
    if is_terminal task.status
    then task.status
    else if ltb 0 task.failed_count
    then completed_with_errors
    else completed_status

unfoldable pub complete_task :
    Moment → String → TaskStateStore → Result (Option TaskSnapshot) × TaskStateStore
unfolding returning_some
complete_task m key s = elim (find key s) [
  | none ↦ (ok none, s)
  | some existing ↦
      let task = refresh_counts_from_files existing in
      let done = record task { status = target_status task; updated_at = m.now } in
      checked (validate_updates task (some (target_status task))) s
        (returning_some (returning done (move_completed m key done s)))
]

unfoldable pub get_task : String → TaskStateStore → Option TaskSnapshot
get_task key s = find key s

-- `self._active.pop(key, None) or self._completed.pop(key, None)`: the second runs only if the
-- first found nothing.
unfoldable pub forget : String → TaskStateStore → TaskStateStore
forget key s = elim (get key s.active) [
  | some t ↦ record s { active = pop key s.active }
  | none ↦ record s { completed = pop key s.completed }
]

unfoldable pub remove_task : Moment → String → TaskStateStore → Result Bool × TaskStateStore
unfolding forget
remove_task m key s =
    let left = forget key s in
    elim s.storage [
      | none ↦ (ok (is_some (find key s)), left)
      | some db ↦
          if m.write_ok
          then (ok (is_some (find key s)), record left { storage = some (delete_task key db) })
          else (raise storage_failed, left)
    ]

-- `SELECT task_id FROM tasks WHERE status IN (…)`
unfoldable pub terminal_ids : Dict String TaskRow → List String
terminal_ids [] = []
terminal_ids ((k, row) ∷ rows) =
    let rest = terminal_ids rows in if is_terminal row.status then k ∷ rest else rest

-- `set.update`
unfoldable pub union : List String → List String → List String
union xs [] = xs
union xs (y ∷ ys) = union (if elem y xs then xs else xs ++ y ∷ []) ys

unfoldable pub clear_completed : Moment → TaskStateStore → Result ℕ × TaskStateStore
clear_completed m s = elim s.storage [
  | none ↦ (ok (length (keys s.completed)), record s { completed = [] })
  | some db ↦
      let ids = union (keys s.completed) (terminal_ids db.tasks) in
      if m.write_ok
      then (
        ok (length ids),
        record s { completed = []; storage = some (delete_task_storage ids db) },
      )
      else (raise storage_failed, record s { completed = [] })
]

unfoldable pub clear : Moment → TaskStateStore → Result (Unit {0}) × TaskStateStore
clear m s = elim s.storage [
  | none ↦ (ok tt, record s { active = []; completed = [] })
  | some db ↦
      if m.write_ok
      then (
        ok tt,
        record s {
          active = [];
          completed = [];
          storage = some (record { tasks = []; task_files = [] });
        },
      )
      else (raise storage_failed, record s { active = []; completed = [] })
]

-- `tasks()`: the active ones first.
unfoldable pub all_tasks : TaskStateStore → List TaskSnapshot
all_tasks s = values s.active ++ values s.completed
