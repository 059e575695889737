-- ===== src/Task/Store/Errors.antt =====
-- What is left when a call raises.
use telegram_media_downloade.Prelude.{
  ◌≡◌, refl, ◌⊎◌, inl, inr, false, Option, none, some, String, arith, Option-cases, Bool-cases, ◌≢◌,
}
use telegram_media_downloade.Task.Status.{TaskStatus, is_retryable}
use telegram_media_downloade.Task.Snapshot.{TaskUpdates, FileUpdates, WorkflowUpdates}
use telegram_media_downloade.Task.Tables.{Tables}
use telegram_media_downloade.Task.Store.{
  TaskStateStore, Moment, StoreError, storage_failed, ok, find, checked,
}
use telegram_media_downloade.Task.Store.Methods.{
  TaskIdentity, create_task, ensure_task, update_task, retry_task, reconcile_task, update_workflow,
  complete_task, remove_task, clear_completed, clear, same_identity,
}
use telegram_media_downloade.Task.Store.Files.{
  write_transition, installed, transition_file, upsert_file,
}
use telegram_media_downloade.Task.Store.Calls.{
  Call, creates, ensures, updates, retries, reconciles, updates_workflow, transitions, upserts,
  completes, removes, clears_completed, clears, after, error_of, raised,
}
use telegram_media_downloade.Task.Store.Clean.{
  IsClean, clean, checked-IsClean, file_of-IsClean, returning_some-IsDiskOnly, returning-IsDiskOnly,
  write_back-IsDiskOnly, move_completed-IsDiskOnly, installed-IsDiskOnly,
  write_transition-IsDiskOnly,
}

none_found {ℓ} : {A : Type ℓ} (a : A) (s : TaskStateStore) → IsClean {A = A} s (ok a, s)
unfolding error_of
none_found a s = inl refl

update_task-IsClean :
    (m : Moment) (key : String) (u : TaskUpdates) (s : TaskStateStore)
    → IsClean s (update_task m key u s)
unfolding update_task
update_task-IsClean m key u s = elim (Option-cases (find key s)) [
  | inl e ↦ rw (e, update_task) (none_found none s)
  | inr (t, e) ↦
      rw (e, update_task)
        (checked-IsClean _ s _ (returning_some-IsDiskOnly _ (write_back-IsDiskOnly m key _ s)))
]

retry_task-IsClean :
    (m : Moment) (key : String) (u : TaskUpdates) (s : TaskStateStore)
    → IsClean s (retry_task m key u s)
unfolding retry_task
retry_task-IsClean m key u s = elim (Option-cases (find key s)) [
  | inl e ↦ rw (e, retry_task) (none_found none s)
  | inr (t, e) ↦ elim (Bool-cases (is_retryable t.status)) [
    | inr fixed ↦ rw (e, retry_task) (rw fixed (inr (inr refl)))
    | inl may ↦
        rw (e, retry_task)
          (rw may (clean s _ (returning_some-IsDiskOnly _ (write_back-IsDiskOnly m key _ s))))
  ]
]

create_task-IsClean :
    (m : Moment) (key : String) (i : TaskIdentity) (status : TaskStatus) (u : TaskUpdates)
    (s : TaskStateStore)
    → IsClean s (create_task m key i status u s)
unfolding create_task
create_task-IsClean m key i status u s = elim (Option-cases (find key s)) [
  | inl e ↦ rw (e, create_task) (checked-IsClean _ s _ (write_back-IsDiskOnly m key _ s))
  | inr (t, e) ↦ rw (e, create_task) (checked-IsClean _ s _ (write_back-IsDiskOnly m key _ s))
]

ensure_task-IsClean :
    (m : Moment) (key : String) (i : TaskIdentity) (status : TaskStatus) (u : TaskUpdates)
    (s : TaskStateStore)
    → IsClean s (ensure_task m key i status u s)
unfolding ensure_task
ensure_task-IsClean m key i status u s = elim (Option-cases (find key s)) [
  | inl e ↦ rw (e, ensure_task) (create_task-IsClean m key i status u s)
  | inr (t, e) ↦ elim (Bool-cases (same_identity i u t)) [
    | inl agrees ↦ rw (e, ensure_task) (rw agrees (none_found t s))
    | inr clash ↦ rw (e, ensure_task) (rw clash (inr (inr refl)))
  ]
]

reconcile_task-IsClean :
    (m : Moment) (key : String) (status : TaskStatus) (u : TaskUpdates) (s : TaskStateStore)
    → IsClean s (reconcile_task m key status u s)
unfolding reconcile_task
reconcile_task-IsClean m key status u s = elim (Option-cases (find key s)) [
  | inl e ↦ rw (e, reconcile_task) (none_found none s)
  | inr (t, e) ↦
      rw (e, reconcile_task)
        (checked-IsClean _ s _ (returning_some-IsDiskOnly _ (write_back-IsDiskOnly m key _ s)))
]

update_workflow-IsClean :
    (m : Moment) (key : String) (u : WorkflowUpdates) (s : TaskStateStore)
    → IsClean s (update_workflow m key u s)
unfolding update_workflow
update_workflow-IsClean m key u s = elim (Option-cases (find key s)) [
  | inl e ↦ rw (e, update_workflow) (none_found none s)
  | inr (t, e) ↦
      rw (e, update_workflow)
        (clean s _ (returning_some-IsDiskOnly _ (write_back-IsDiskOnly m key _ s)))
]

complete_task-IsClean :
    (m : Moment) (key : String) (s : TaskStateStore) → IsClean s (complete_task m key s)
unfolding complete_task
complete_task-IsClean m key s = elim (Option-cases (find key s)) [
  | inl e ↦ rw (e, complete_task) (none_found none s)
  | inr (t, e) ↦
      rw (e, complete_task)
        (checked-IsClean _ s _ (
          returning_some-IsDiskOnly _
            (returning-IsDiskOnly _ _ (move_completed-IsDiskOnly m key _ s))))
]

transition_file-IsClean :
    (m : Moment) (key file : String) (tu : Option TaskUpdates) (fu : FileUpdates)
    (s : TaskStateStore)
    → IsClean s (transition_file m key file tu fu s)
unfolding transition_file
transition_file-IsClean m key file tu fu s =
    checked-IsClean _ s _
      (installed-IsDiskOnly m key _ _ _ (write_transition-IsDiskOnly m key _ _ s))

upsert_file-IsClean :
    (m : Moment) (key file : String) (fu : FileUpdates) (s : TaskStateStore)
    → IsClean s (upsert_file m key file fu s)
unfolding upsert_file
upsert_file-IsClean m key file fu s =
    file_of-IsClean _ s (transition_file-IsClean m key file none fu s)

removal-IsClean :
    (m : Moment) (key : String) (s : TaskStateStore)
    → IsClean s (remove_task m key s) × IsClean s (clear_completed m s) × IsClean s (clear m s)
unfolding remove_task clear_completed clear error_of
removal-IsClean m key s = (ground arith, ground arith, ground arith)

raised-IsClean :
    (m : Moment) (c : Call) (s : TaskStateStore)
    → (raised m c s ≡ none) ⊎ (raised m c s ≡ some storage_failed) ⊎ (after m c s ≡ s)
unfolding raised after
raised-IsClean m (creates key i status u) s = create_task-IsClean m key i status u s
raised-IsClean m (ensures key i status u) s = ensure_task-IsClean m key i status u s
raised-IsClean m (updates key u) s = update_task-IsClean m key u s
raised-IsClean m (retries key u) s = retry_task-IsClean m key u s
raised-IsClean m (reconciles key status u) s = reconcile_task-IsClean m key status u s
raised-IsClean m (updates_workflow key u) s = update_workflow-IsClean m key u s
raised-IsClean m (transitions key file tu fu) s = transition_file-IsClean m key file tu fu s
raised-IsClean m (upserts key file fu) s = upsert_file-IsClean m key file fu s
raised-IsClean m (completes key) s = complete_task-IsClean m key s
raised-IsClean m (removes key) s = (removal-IsClean m key s).0
raised-IsClean m clears_completed s = (removal-IsClean m "" s).1
raised-IsClean m clears s = (removal-IsClean m "" s).2

-- A call that is refused, by a forbidden transition or an identity conflict, leaves the store exactly as
-- it was, in memory and on disk; only an error of the database can leave a change behind.
pub after-refused :
    (m : Moment) (c : Call) (s : TaskStateStore) (e : StoreError)
    → raised m c s ≡ some e
    → e ≢ storage_failed
    → after m c s ≡ s
after-refused m c s e h n = elim (raised-IsClean m c s) [
  | inl fine ↦ absurd (ground arith)
  | inr (inl disk) ↦ absurd (n (ground arith))
  | inr (inr same) ↦ same
]

-- A file transition whose rows cannot be written raises, and leaves the store exactly as it was,
-- in memory and on disk.
pub transition_file-unwritten :
    (m : Moment) (key file : String) (tu : Option TaskUpdates) (fu : FileUpdates)
    (s : TaskStateStore) (db : Tables)
    → s.storage ≡ some db
    → m.write_ok ≡ false
    → (after m (transitions key file tu fu) s ≡ s)
      × (raised m (transitions key file tu fu) s ≢ none)
unfolding after raised transition_file write_transition installed checked error_of
transition_file-unwritten m key file tu fu s db h no_write = (ground arith, ground arith)
