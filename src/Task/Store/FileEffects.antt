-- ===== src/Task/Store/FileEffects.antt =====
-- The effect of a file transition.
use telegram_media_downloade.Prelude.{
  ◌≡◌, refl, ◌∙◌, ◌⊎◌, inl, inr, true, Option, none, some, String, string_key, Option-cases,
}
use telegram_media_downloade.Task.Status.{TaskStatus, is_allowed}
use telegram_media_downloade.Task.Snapshot.{
  TaskSnapshot, FileSnapshot, TaskUpdates, FileUpdates, new_task, apply_updates, assign,
}
use telegram_media_downloade.Task.Store.{
  TaskStateStore, Moment, Result, ok, raise, find, validate_updates,
}
use telegram_media_downloade.Task.Store.Files.{
  task_or_new, updated_task, requested_status, moved_file, moved_task, install_task, installed,
  transition_file, upsert_file,
}
use telegram_media_downloade.Task.Store.Memory.{
  SameMemory, SameMemory-refl, SameMemory-trans, write_transition-SameMemory, state-returning,
  state-file_of, checked_cases,
}
use telegram_media_downloade.Task.Store.Invariant.{IsWellFormed}
use telegram_media_downloade.Task.Store.Calls.{Call, Moved, Effect, keeps, places}
use telegram_media_downloade.Task.Store.Placing.{
  install_task-placed, placed-SameMemory, find_id, validated, either, refresh_id, refresh_status,
}

-- The task that `transition_file` starts from.
pub before_id :
    (m : Moment) (key : String) (s : TaskStateStore)
    → IsWellFormed s
    → (task_or_new m key (find key s)).task_id ≡ key
unfolding task_or_new new_task
before_id m key s w = elim (Option-cases (find key s)) [
  | inl e ↦ rw (e, task_or_new)
  | inr (t, e) ↦ rw (e, task_or_new) (find_id key t s w e)
]

pub before-Moved :
    (c : Call) (m : Moment) (key : String) (s : TaskStateStore) (b : TaskStatus)
    → ((task_or_new m key (find key s)).status ≡ b)
      ⊎ (is_allowed (task_or_new m key (find key s)).status b ≡ true)
    → Moved c key (find key s) b
before-Moved c m key s b h = go (find key s) h
  where
    go :
        (o : Option TaskSnapshot)
        → ((task_or_new m key o).status ≡ b) ⊎ (is_allowed (task_or_new m key o).status b ≡ true)
        → Moved c key o b
    go none h = tt
    go (some t) h = unfold task_or_new in either h

pub moved_id :
    (m : Moment) (file_key : String) (file : FileSnapshot) (t : TaskSnapshot)
    → (moved_task m file_key file t).task_id ≡ t.task_id
unfolding moved_task
moved_id m file_key file t = refresh_id _

pub moved_status :
    (m : Moment) (file_key : String) (file : FileSnapshot) (t : TaskSnapshot)
    → (moved_task m file_key file t).status ≡ t.status
unfolding moved_task
moved_status m file_key file t = refresh_status _

pub updated_id :
    (m : Moment) (u : Option TaskUpdates) (t : TaskSnapshot)
    → (updated_task m u t).task_id ≡ t.task_id
unfolding updated_task apply_updates
updated_id m none t = refl
updated_id m (some u) t = refl

pub updated_status :
    (m : Moment) (u : Option TaskUpdates) (t : TaskSnapshot)
    → (updated_task m u t).status ≡ assign (requested_status u) t.status
unfolding updated_task requested_status apply_updates
updated_status m none t = refl
updated_status m (some u) t = refl

-- After the first transaction the task is installed, or nothing is changed.
pub installed-Effect :
    (c : Call) (m : Moment) (key : String) (task : TaskSnapshot) (file : FileSnapshot)
    (s : TaskStateStore) (r : Result (Unit {0}) × TaskStateStore)
    → SameMemory s r.1
    → task.task_id ≡ key
    → Moved c key (find key s) task.status
    → Effect c s (installed m key task file r).1
unfolding installed
installed-Effect c m key task file s (raise e, t) same i moved = keeps same
installed-Effect c m key task file s (ok u, t) same i moved =
    rw (state-returning {A = TaskSnapshot × FileSnapshot} (task, file) (install_task m key task t))
      (places key task i moved
        (SameMemory-trans (placed-SameMemory key task same) (install_task-placed m key task t)))

pub transition_file-Effect :
    (c : Call) (m : Moment) (key file_key : String) (tu : Option TaskUpdates) (fu : FileUpdates)
    (s : TaskStateStore)
    → IsWellFormed s
    → Effect c s (transition_file m key file_key tu fu s).1
unfolding transition_file
transition_file-Effect c m key file_key tu fu s w =
    let before = task_or_new m key (find key s) in
    let updated = updated_task m tu before in
    let file = moved_file m file_key fu updated in
    let task = moved_task m file_key file updated in
    checked_cases (Effect c s) (validate_updates before (requested_status tu)) s _
      (keeps (SameMemory-refl s))
      (λ v.
        installed-Effect c m key task file s _ (write_transition-SameMemory m key task file s)
          (moved_id m file_key file updated ∙ updated_id m tu before ∙ before_id m key s w)
          (before-Moved c m key s task.status (
            rw (moved_status m file_key file updated, updated_status m tu before)
              (validated before (requested_status tu) v))))

pub upsert_file-Effect :
    (c : Call) (m : Moment) (key file_key : String) (fu : FileUpdates) (s : TaskStateStore)
    → IsWellFormed s
    → Effect c s (upsert_file m key file_key fu s).1
unfolding upsert_file
upsert_file-Effect c m key file_key fu s w =
    rw (state-file_of (transition_file m key file_key none fu s))
      (transition_file-Effect c m key file_key none fu s w)
