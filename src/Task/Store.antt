-- ===== src/Task/Store.antt =====
-- `TaskStateStore`: the tasks in memory, their rows on disk, and every method that changes them.
-- A method runs under the store's lock, so it is one function; it returns its result, or what it
-- raises, beside the state that it leaves, which is not always the state before a raise.
pub mod Methods
pub mod Files
pub mod Eviction
pub mod Memory
pub mod Invariant
pub mod Calls
pub mod Placing
pub mod MethodEffects
pub mod FileEffects
pub mod Effects
pub mod Histories
pub mod Clean
pub mod Errors
use telegram_media_downloade.Prelude.{
  ℕ, zero, suc, Bool, true, false, not, ◌&&◌, ◌||◌, Option, none, some, String, List, [], ◌∷◌,
  length, ltb, nat_beq, leb, or_else, if◌then◌else◌, ◌==◌, string_key, is_some,
}
use telegram_media_downloade.Prelude.Int.{ℤ, same_int}
use telegram_media_downloade.Dict.{Dict, get, put, pop}
use telegram_media_downloade.Task.Status.{
  TaskStatus, created, queued, completed_with_errors, other, is_terminal, is_known, is_allowed,
  is_retryable,
}
use telegram_media_downloade.Task.Status.{completed as completed_status}
use telegram_media_downloade.Task.Snapshot.{
  FileSnapshot, WorkflowSnapshot, TaskSnapshot, TaskUpdates, FileUpdates, WorkflowUpdates,
  no_updates, no_file_updates, new_file, new_task, empty_workflow, apply_updates,
  apply_file_updates, apply_workflow_updates, refresh_counts_from_files,
}
use telegram_media_downloade.Task.Tables.{
  Tables, write_task, write_file, delete_task, delete_task_storage,
}

pub record TaskStateStore : Type 0 where
  pub recent_limit : ℕ
  pub active : Dict String TaskSnapshot
  pub completed : Dict String TaskSnapshot
  -- `none` where there is no `storage_path`
  pub storage : Option Tables

-- What a call meets: the clock, and whether the database takes its first transaction (the write of
-- the task) and its second (the removal of evicted tasks).
pub record Moment : Type 0 where
  pub now : ℕ
  pub write_ok : Bool
  pub delete_ok : Bool

pub data StoreError : Type 0 where
  task_transition : String → TaskStatus → TaskStatus → StoreError
  task_identity_conflict : String → StoreError
  -- sqlite3.Error
  storage_failed : StoreError

pub data Result {ℓ} (A : Type ℓ) : Type ℓ where
  ok : A → Result A
  raise : StoreError → Result A

-- `self._active.get(key) or self._completed.get(key)`
unfoldable pub find : String → TaskStateStore → Option TaskSnapshot
find key s = or_else (get key s.active) (get key s.completed)

-- The first key with the least `updated_at`.
unfoldable pub oldest_from : String → ℕ → Dict String TaskSnapshot → String
oldest_from key at [] = key
oldest_from key at ((k, t) ∷ d) =
    let older = ltb t.updated_at at in
    oldest_from (if older then k else key) (if older then t.updated_at else at) d

unfoldable pub oldest : Dict String TaskSnapshot → Option String
unfolding oldest_from
oldest [] = none
oldest ((k, t) ∷ d) = some (oldest_from k t.updated_at d)

-- `while len(self._completed) > self.recent_limit`, with fuel for each entry: what is kept, and the
-- evicted keys in order.
unfoldable pub evict : ℕ → ℕ → Dict String TaskSnapshot → Dict String TaskSnapshot × List String
evict zero limit d = (d, [])
evict (suc fuel) limit d = elim (ltb limit (length d)) [
  | false ↦ (d, [])
  | true ↦ elim (oldest d) [
    | none ↦ (d, [])
    | some k ↦ let (kept, keys) = evict fuel limit (pop k d) in (kept, k ∷ keys)
  ]
]

-- The tasks that `_completed` keeps once `key` is put in, and the keys that it evicts.
unfoldable pub settle :
    String → TaskSnapshot → TaskStateStore → Dict String TaskSnapshot × List String
settle key task s =
    let grown = put key task s.completed in evict (length grown) s.recent_limit grown

-- `if self.storage_path and evicted_keys`, in a transaction of its own.
unfoldable pub drop_evicted :
    Moment → List String → TaskStateStore → Result (Unit {0}) × TaskStateStore
drop_evicted m [] s = (ok tt, s)
drop_evicted m (k ∷ keys) s = elim s.storage [
  | none ↦ (ok tt, s)
  | some db ↦
      if m.delete_ok
      then (ok tt, record s { storage = some (delete_task_storage (k ∷ keys) db) })
      else (raise storage_failed, s)
]

unfoldable pub persist_task :
    Moment → TaskSnapshot → TaskStateStore → Result (Unit {0}) × TaskStateStore
persist_task m task s = elim s.storage [
  | none ↦ (ok tt, s)
  | some db ↦
      if m.write_ok
      then (ok tt, record s { storage = some (write_task task db) })
      else (raise storage_failed, s)
]

-- The next statement runs only if the last one did not raise.
unfoldable pub then_do :
    Result (Unit {0}) × TaskStateStore
    → (TaskStateStore → Result (Unit {0}) × TaskStateStore)
    → Result (Unit {0}) × TaskStateStore
then_do (ok u, s) next = next s
then_do (raise e, s) next = (raise e, s)

unfoldable pub move_completed :
    Moment → String → TaskSnapshot → TaskStateStore → Result (Unit {0}) × TaskStateStore
move_completed m key task s =
    let (kept, evicted) = settle key task s in
    then_do (persist_task m task (record s { active = pop key s.active; completed = kept }))
      (drop_evicted m evicted)

unfoldable pub store_task :
    Moment → String → TaskSnapshot → TaskStateStore → Result (Unit {0}) × TaskStateStore
store_task m key task s =
    if is_terminal task.status
    then move_completed m key task s
    else persist_task m task
        (record s { active = put key task s.active; completed = pop key s.completed })

-- `return task.clone()`, where the calls before it did not raise.
unfoldable pub returning {ℓ} :
    {A : Type ℓ} → A → Result (Unit {0}) × TaskStateStore → Result A × TaskStateStore
returning a (ok u, s) = (ok a, s)
returning a (raise e, s) = (raise e, s)

-- `_validate_status`
unfoldable pub validate_status : String → TaskStatus → Result (Unit {0})
validate_status task_id status =
    if is_known status then ok tt else raise (task_transition task_id (other "<unknown>") status)

unfoldable pub validate_transition : TaskSnapshot → TaskStatus → Result (Unit {0})
validate_transition task requested =
    if not (is_known requested)
    then raise (task_transition task.task_id (other "<unknown>") requested)
    else if is_allowed task.status requested
    then ok tt
    else raise (task_transition task.task_id task.status requested)

-- `_validate_updates`
unfoldable pub validate_updates : TaskSnapshot → Option TaskStatus → Result (Unit {0})
validate_updates task none = ok tt
validate_updates task (some requested) = validate_transition task requested

-- Runs the rest where a check did not raise; a check changes nothing.
unfoldable pub checked {ℓ} :
    {A : Type ℓ}
    → Result (Unit {0})
    → TaskStateStore
    → Result A × TaskStateStore
    → Result A × TaskStateStore
checked (ok u) s rest = rest
checked (raise e) s rest = (raise e, s)
