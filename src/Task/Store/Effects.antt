-- ===== src/Task/Store/Effects.antt =====
-- Every call has one of the effects of `Effect`.
use telegram_media_downloade.Prelude.{
  inl, inr, true, false, String, arith, string_key, Option-cases,
}
use telegram_media_downloade.Dict.{get}
use telegram_media_downloade.Task.Store.{TaskStateStore, Moment}
use telegram_media_downloade.Task.Store.Methods.{forget, remove_task, clear_completed, clear}
use telegram_media_downloade.Task.Store.Memory.{SameMemory, SameMemory-refl, SameMemory-trans}
use telegram_media_downloade.Task.Store.Invariant.{IsWellFormed}
use telegram_media_downloade.Task.Store.Calls.{
  Call, creates, ensures, updates, retries, reconciles, updates_workflow, transitions, upserts,
  completes, removes, clears_completed, clears, after, Effect, forgets, empties,
}
use telegram_media_downloade.Task.Store.MethodEffects.{
  create_task-Effect, ensure_task-Effect, update_task-Effect, retry_task-Effect,
  reconcile_task-Effect, update_workflow-Effect, complete_task-Effect,
}
use telegram_media_downloade.Task.Store.FileEffects.{transition_file-Effect, upsert_file-Effect}

-- Taking tasks out.
remove_task-SameMemory :
    (m : Moment) (key : String) (s : TaskStateStore)
    → SameMemory (forget key s) (remove_task m key s).1
unfolding remove_task
remove_task-SameMemory m key s = ground arith

remove_task-Effect :
    (m : Moment) (key : String) (s : TaskStateStore)
    → Effect (removes key) s (remove_task m key s).1
remove_task-Effect m key s = elim (Option-cases (get key s.active)) [
  | inr (t, e) ↦ forgets key true false (
      SameMemory-trans {t = forget key s} (unfold forget in rw (e, forget) (SameMemory-refl _))
        (remove_task-SameMemory m key s))
  | inl e ↦ forgets key false true (
      SameMemory-trans {t = forget key s} (unfold forget in rw (e, forget) (SameMemory-refl _))
        (remove_task-SameMemory m key s))
]

clear_completed-Effect :
    (m : Moment) (s : TaskStateStore) → Effect clears_completed s (clear_completed m s).1
unfolding clear_completed
clear_completed-Effect m s = empties false (ground arith)

clear-Effect : (m : Moment) (s : TaskStateStore) → Effect clears s (clear m s).1
unfolding clear
clear-Effect m s = empties true (ground arith)

pub after-Effect :
    (m : Moment) (c : Call) (s : TaskStateStore) → IsWellFormed s → Effect c s (after m c s)
unfolding after
after-Effect m (creates key i status u) s w = create_task-Effect _ m key i status u s w
after-Effect m (ensures key i status u) s w = ensure_task-Effect m key i status u s w
after-Effect m (updates key u) s w = update_task-Effect m key u s w
after-Effect m (retries key u) s w = retry_task-Effect m key u s w
after-Effect m (reconciles key status u) s w = reconcile_task-Effect m key status u s w
after-Effect m (updates_workflow key u) s w = update_workflow-Effect m key u s w
after-Effect m (transitions key file tu fu) s w = transition_file-Effect _ m key file tu fu s w
after-Effect m (upserts key file fu) s w = upsert_file-Effect _ m key file fu s w
after-Effect m (completes key) s w = complete_task-Effect m key s w
after-Effect m (removes key) s w = remove_task-Effect m key s
after-Effect m clears_completed s w = clear_completed-Effect m s
after-Effect m clears s w = clear-Effect m s
