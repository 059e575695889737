-- ===== src/Task/Store/Calls.antt =====
-- The calls that reach the store, in the order in which its lock admits them, and what one call can
-- do to the memory.
use telegram_media_downloade.Prelude.{
  ◌≡◌, ◌⊎◌, Bool, true, Option, none, some, String, List, [], ◌∷◌, if◌then◌else◌, string_key,
}
use telegram_media_downloade.Dict.{put, pop}
use telegram_media_downloade.Task.Status.{TaskStatus, queued, is_terminal, is_allowed, is_retryable}
use telegram_media_downloade.Task.Snapshot.{TaskSnapshot, TaskUpdates, FileUpdates, WorkflowUpdates}
use telegram_media_downloade.Task.Store.{
  TaskStateStore, Moment, StoreError, Result, ok, raise, find, settle,
}
use telegram_media_downloade.Task.Store.Methods.{
  TaskIdentity, create_task, ensure_task, update_task, retry_task, reconcile_task, update_workflow,
  complete_task, remove_task, clear_completed, clear,
}
use telegram_media_downloade.Task.Store.Files.{transition_file, upsert_file}
use telegram_media_downloade.Task.Store.Memory.{SameMemory}

pub data Call : Type 0 where
  creates ensures : String → TaskIdentity → TaskStatus → TaskUpdates → Call
  updates retries : String → TaskUpdates → Call
  reconciles : String → TaskStatus → TaskUpdates → Call
  updates_workflow : String → WorkflowUpdates → Call
  transitions : String → String → Option TaskUpdates → FileUpdates → Call
  upserts : String → String → FileUpdates → Call
  completes removes : String → Call
  clears_completed clears : Call

-- The store after a call, whether it returned or raised.
unfoldable pub after : Moment → Call → TaskStateStore → TaskStateStore
after m (creates key i status u) s = (create_task m key i status u s).1
after m (ensures key i status u) s = (ensure_task m key i status u s).1
after m (updates key u) s = (update_task m key u s).1
after m (retries key u) s = (retry_task m key u s).1
after m (reconciles key status u) s = (reconcile_task m key status u s).1
after m (updates_workflow key u) s = (update_workflow m key u s).1
after m (transitions key file tu fu) s = (transition_file m key file tu fu s).1
after m (upserts key file fu) s = (upsert_file m key file fu s).1
after m (completes key) s = (complete_task m key s).1
after m (removes key) s = (remove_task m key s).1
after m clears_completed s = (clear_completed m s).1
after m clears s = (clear m s).1

unfoldable pub run : List (Moment × Call) → TaskStateStore → TaskStateStore
run [] s = s
run ((m, c) ∷ calls) s = run calls (after m c s)

-- The calls that may leave the table: a retry of a retryable task, which queues it, and a
-- reconciliation.
abbrev pub Exempt : Call → String → TaskStatus → TaskStatus → Type 0
Exempt (retries k u) key a b = (k ≡ key) × (is_retryable a ≡ true) × (b ≡ queued)
Exempt (reconciles k status u) key a b = (k ≡ key) × (b ≡ status)
Exempt _ key a b = ⊥

-- How a call may change the status of a task.
abbrev pub Moved : Call → String → Option TaskSnapshot → TaskStatus → Type 0
Moved c key none b = Unit
Moved c key (some t) b = (t.status ≡ b) ⊎ (is_allowed t.status b ≡ true) ⊎ Exempt c key t.status b

-- The memory with a task put in its place.
unfoldable pub placed : String → TaskSnapshot → TaskStateStore → TaskStateStore
placed key task s =
    if is_terminal task.status
    then record s { active = pop key s.active; completed = (settle key task s).0 }
    else record s { active = put key task s.active; completed = pop key s.completed }

-- What one call does to the memory: nothing, or one task is placed, or tasks are taken out.
pub data Effect (c : Call) (s t : TaskStateStore) : Type 0 where
  keeps : SameMemory s t → Effect c s t
  places :
      (key : String) (task : TaskSnapshot)
      → task.task_id ≡ key
      → Moved c key (find key s) task.status
      → SameMemory (placed key task s) t
      → Effect c s t
  forgets :
      (key : String) (b d : Bool)
      → SameMemory
          (record s {
            active = if b then pop key s.active else s.active;
            completed = if d then pop key s.completed else s.completed;
          })
          t
      → Effect c s t
  empties :
      (b : Bool)
      → SameMemory (record s { active = if b then [] else s.active; completed = [] }) t
      → Effect c s t

-- What a call raises.
unfoldable pub error_of {ℓ} : {A : Type ℓ} → Result A × TaskStateStore → Option StoreError
error_of (ok a, s) = none
error_of (raise e, s) = some e

unfoldable pub raised : Moment → Call → TaskStateStore → Option StoreError
unfolding error_of
raised m (creates key i status u) s = error_of (create_task m key i status u s)
raised m (ensures key i status u) s = error_of (ensure_task m key i status u s)
raised m (updates key u) s = error_of (update_task m key u s)
raised m (retries key u) s = error_of (retry_task m key u s)
raised m (reconciles key status u) s = error_of (reconcile_task m key status u s)
raised m (updates_workflow key u) s = error_of (update_workflow m key u s)
raised m (transitions key file tu fu) s = error_of (transition_file m key file tu fu s)
raised m (upserts key file fu) s = error_of (upsert_file m key file fu s)
raised m (completes key) s = error_of (complete_task m key s)
raised m (removes key) s = error_of (remove_task m key s)
raised m clears_completed s = error_of (clear_completed m s)
raised m clears s = error_of (clear m s)
