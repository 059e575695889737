-- ===== src/Task/Store/MethodEffects.antt =====
-- The effect of each method on one task.
use telegram_media_downloade.Prelude.{
  ◌≡◌, refl, sym, ◌∙◌, ◌⊎◌, inl, inr, true, some, String, string_key, Bool-cases, Option-cases,
  subst,
}
use telegram_media_downloade.Task.Status.{TaskStatus, is_allowed, is_retryable}
use telegram_media_downloade.Task.Snapshot.{
  TaskUpdates, WorkflowUpdates, apply_updates, refresh_counts_from_files,
}
use telegram_media_downloade.Task.Store.{
  TaskStateStore, Moment, find, move_completed, returning, validate_status, validate_updates,
}
use telegram_media_downloade.Task.Store.Methods.{
  TaskIdentity, creation, first_task, create_task, ensure_task, update_task, retry_task,
  retry_updates, reconcile_task, update_workflow, target_status, complete_task, same_identity,
}
use telegram_media_downloade.Task.Store.Memory.{
  SameMemory-refl, state-returning, state-returning_some, checked_cases,
}
use telegram_media_downloade.Task.Store.Invariant.{IsWellFormed}
use telegram_media_downloade.Task.Store.Calls.{
  Call, ensures, updates, retries, reconciles, updates_workflow, completes, Moved, Effect, keeps,
  places,
}
use telegram_media_downloade.Task.Store.Placing.{
  move_completed-placed, write_back-placed, find_id, validated, rewritten, either, refresh_id,
  refresh_status, target_status-is_terminal,
}

pub update_task-Effect :
    (m : Moment) (key : String) (u : TaskUpdates) (s : TaskStateStore)
    → IsWellFormed s
    → Effect (updates key u) s (update_task m key u s).1
unfolding update_task
update_task-Effect m key u s w = elim (Option-cases (find key s)) [
  | inl e ↦ rw (e, update_task) (keeps (SameMemory-refl s))
  | inr (t, e) ↦
      rw (e, update_task)
        (checked_cases (Effect (updates key u) s) (validate_updates t u.status) s _
          (keeps (SameMemory-refl s))
          (λ v.
            rewritten (updates key u) m key t (apply_updates m.now u t) s w e
              (unfold apply_updates in refl)
              (unfold apply_updates in either (validated t u.status v))))
]

pub retry_task-Effect :
    (m : Moment) (key : String) (u : TaskUpdates) (s : TaskStateStore)
    → IsWellFormed s
    → Effect (retries key u) s (retry_task m key u s).1
unfolding retry_task
retry_task-Effect m key u s w = elim (Option-cases (find key s)) [
  | inl e ↦ rw (e, retry_task) (keeps (SameMemory-refl s))
  | inr (t, e) ↦ elim (Bool-cases (is_retryable t.status)) [
    | inr fixed ↦ rw (e, retry_task) (rw fixed (keeps (SameMemory-refl s)))
    | inl may ↦
        rw (e, retry_task)
          (rw may (
            rewritten (retries key u) m key t (apply_updates m.now (retry_updates u) t) s w e
              (unfold apply_updates in refl) (unfold apply_updates in inr (inr (refl, may, refl)))))
  ]
]

pub reconcile_task-Effect :
    (m : Moment) (key : String) (status : TaskStatus) (u : TaskUpdates) (s : TaskStateStore)
    → IsWellFormed s
    → Effect (reconciles key status u) s (reconcile_task m key status u s).1
unfolding reconcile_task
reconcile_task-Effect m key status u s w = elim (Option-cases (find key s)) [
  | inl e ↦ rw (e, reconcile_task) (keeps (SameMemory-refl s))
  | inr (t, e) ↦
      rw (e, reconcile_task)
        (checked_cases (Effect (reconciles key status u) s) (validate_status key status) s _
          (keeps (SameMemory-refl s))
          (λ v.
            rewritten (reconciles key status u) m key t
              (apply_updates m.now (record u { status = some status }) t) s w e
              (unfold apply_updates in refl) (unfold apply_updates in inr (inr (refl, refl)))))
]

pub update_workflow-Effect :
    (m : Moment) (key : String) (u : WorkflowUpdates) (s : TaskStateStore)
    → IsWellFormed s
    → Effect (updates_workflow key u) s (update_workflow m key u s).1
unfolding update_workflow
update_workflow-Effect m key u s w = elim (Option-cases (find key s)) [
  | inl e ↦ rw (e, update_workflow) (keeps (SameMemory-refl s))
  | inr (t, e) ↦
      rw (e, update_workflow)
        (rewritten (updates_workflow key u) m key t _ s w e (unfold apply_updates in refl)
          (unfold apply_updates in inl refl))
]

pub complete_task-Effect :
    (m : Moment) (key : String) (s : TaskStateStore)
    → IsWellFormed s
    → Effect (completes key) s (complete_task m key s).1
unfolding complete_task
complete_task-Effect m key s w = elim (Option-cases (find key s)) [
  | inl e ↦ rw (e, complete_task) (keeps (SameMemory-refl s))
  | inr (t, e) ↦
      let task = refresh_counts_from_files t in
      let done = record task { status = target_status task; updated_at = m.now } in
      rw (e, complete_task)
        (checked_cases (Effect (completes key) s)
          (validate_updates task (some (target_status task))) s _ (keeps (SameMemory-refl s))
          (λ v.
            rw
              (
                state-returning_some (returning done (move_completed m key done s)),
                state-returning done (move_completed m key done s),
              )
              (places key done (refresh_id t ∙ find_id key t s w e)
                (subst (λ o. Moved (completes key) key o (target_status task)) (sym e)
                  (subst
                    (λ a. (a ≡ target_status task) ⊎ (is_allowed a (target_status task) ≡ true) ⊎ ⊥)
                    (refresh_status t) (either (validated task (some (target_status task)) v))))
                (move_completed-placed m key done s (target_status-is_terminal task)))))
]

pub create_task-Effect :
    (c : Call) (m : Moment) (key : String) (i : TaskIdentity) (status : TaskStatus)
    (u : TaskUpdates) (s : TaskStateStore)
    → IsWellFormed s
    → Effect c s (create_task m key i status u s).1
unfolding create_task
create_task-Effect c m key i status u s w = elim (Option-cases (find key s)) [
  | inl e ↦
      rw (e, create_task)
        (checked_cases (Effect c s) (validate_status key status) s _ (keeps (SameMemory-refl s))
          (λ v.
            places key (apply_updates m.now (creation i status u) (first_task m key i status))
              (unfold apply_updates first_task in refl)
              (subst
                (λ o.
                  Moved c key o
                    (apply_updates m.now (creation i status u) (first_task m key i status)).status)
                (sym e) tt)
              (write_back-placed m key _ s)))
  | inr (t, e) ↦
      rw (e, create_task)
        (checked_cases (Effect c s) (validate_updates t (some status)) s _
          (keeps (SameMemory-refl s))
          (λ v.
            places key (apply_updates m.now (creation i status u) t)
              (unfold apply_updates in find_id key t s w e)
              (subst (λ o. Moved c key o (apply_updates m.now (creation i status u) t).status)
                (sym e) (unfold apply_updates in either (validated t (some status) v)))
              (write_back-placed m key _ s)))
]

pub ensure_task-Effect :
    (m : Moment) (key : String) (i : TaskIdentity) (status : TaskStatus) (u : TaskUpdates)
    (s : TaskStateStore)
    → IsWellFormed s
    → Effect (ensures key i status u) s (ensure_task m key i status u s).1
unfolding ensure_task
ensure_task-Effect m key i status u s w = elim (Option-cases (find key s)) [
  | inl e ↦ rw (e, ensure_task) (create_task-Effect _ m key i status u s w)
  | inr (t, e) ↦ elim (Bool-cases (same_identity i u t)) [
    | inl agrees ↦ rw (e, ensure_task) (rw agrees (keeps (SameMemory-refl s)))
    | inr clash ↦ rw (e, ensure_task) (rw clash (keeps (SameMemory-refl s)))
  ]
]
