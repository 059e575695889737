-- ===== src/Task/Guard.antt =====
-- `terminal_safe_task_updates`, and the progress writer that goes through it
-- (module/progress_persistence.py).
use telegram_media_downloade.Prelude.{
  ◌≡◌, inl, inr, refl, Bool, true, false, Option, none, some, String, List, not, ◌&&◌, ◌||◌, arith,
  ◌↔◌, if◌then◌else◌, Bool-cases, ◌∙◌,
}
use telegram_media_downloade.Task.Status.{
  TaskStatus, scanning, waiting_confirmation, downloading, uploading, other, is_terminal, is_known,
  is_allowed,
}
use telegram_media_downloade.Task.Snapshot.{TaskSnapshot, FileSnapshot, TaskUpdates, FileUpdates}
use telegram_media_downloade.Task.Store.{
  TaskStateStore, Moment, StoreError, task_transition, Result, ok, raise, find, validate_updates,
  validate_transition, checked,
}
use telegram_media_downloade.Task.Store.Methods.{get_task}
use telegram_media_downloade.Task.Store.Files.{
  task_or_new, requested_status, transition_file, installed, write_transition, updated_task,
  moved_file, moved_task,
}
use telegram_media_downloade.Task.Store.Calls.{Call, run, error_of}
use telegram_media_downloade.Task.Store.Clean.{
  IsDiskOnly, installed-IsDiskOnly, write_transition-IsDiskOnly,
}

-- `safe_updates.pop("status", None)` for a finished task.
unfoldable pub drop_status : Option TaskSnapshot → TaskUpdates → TaskUpdates
drop_status none u = u
drop_status (some task) u = if is_terminal task.status then record u { status = none } else u

unfoldable pub terminal_safe_task_updates : TaskStateStore → String → TaskUpdates → TaskUpdates
unfolding drop_status
terminal_safe_task_updates s key u = elim u.status [
  | none ↦ u
  | some requested ↦ drop_status (get_task key s) u
]

-- `_transition_without_reopening` takes the lock twice, to read the task and to move the file: other
-- calls may reach the store in between.
unfoldable pub transition_without_reopening :
    Moment
    → String
    → String
    → TaskUpdates
    → FileUpdates
    → List (Moment × Call)
    → TaskStateStore
    → Result (TaskSnapshot × FileSnapshot) × TaskStateStore
transition_without_reopening m key file u fu between s =
    transition_file m key file (some (terminal_safe_task_updates s key u)) fu (run between s)

-- The statuses of a task from which file progress cannot move it on.
unfoldable pub is_blocked : TaskStatus → Bool
is_blocked scanning = true
is_blocked waiting_confirmation = true
is_blocked (other s) = true
is_blocked _ = false

-- What the progress of a file asks of its task.
unfoldable pub is_progress : TaskStatus → Bool
is_progress downloading = true
is_progress uploading = true
is_progress _ = false

progress_allowed :
    (a b : TaskStatus)
    → is_progress b ≡ true
    → is_terminal a ≡ false
    → is_blocked a ≡ false
    → (is_known b ≡ true) × (is_allowed a b ≡ true)
unfolding is_known is_allowed is_terminal is_progress is_blocked
progress_allowed a b p t n = ground arith

-- A task that is there and finished.
abbrev pub is_finished_task : Option TaskSnapshot → Bool
is_finished_task none = false
is_finished_task (some t) = is_terminal t.status

progress_refused :
    (a b : TaskStatus)
    → is_progress b ≡ true
    → is_blocked a || is_terminal a ≡ true
    → (is_known b ≡ true) × (is_allowed a b ≡ false)
unfolding is_known is_allowed is_terminal is_progress is_blocked
progress_refused a b p n = ground arith

-- The check that the guarded updates meet.
guarded_check :
    (seen : Option TaskSnapshot) (t : TaskSnapshot) (b : TaskStatus) (u : TaskUpdates)
    → u.status ≡ some b
    → is_progress b ≡ true
    → validate_updates t (drop_status seen u).status ≡ (
        if not (is_finished_task seen) && (is_blocked t.status || is_terminal t.status)
        then raise (task_transition t.task_id t.status b)
        else ok tt)
unfolding validate_updates validate_transition drop_status
guarded_check none t b u e p =
    ground (arith, progress_allowed t.status b p, progress_refused t.status b p)
guarded_check (some seen) t b u e p =
    ground (arith, progress_allowed t.status b p, progress_refused t.status b p)

checked-error {ℓ} :
    {A : Type ℓ} (r : Result (Unit {0})) (s : TaskStateStore) (rest : Result A × TaskStateStore)
    (e : StoreError)
    → r ≡ raise e
    → error_of (checked r s rest) ≡ some e
unfolding checked error_of
checked-error (ok u) s rest e h = cc
checked-error (raise d) s rest e h = ground arith

checked-passes {ℓ} :
    {A : Type ℓ} (r : Result (Unit {0})) (s : TaskStateStore) (rest : Result A × TaskStateStore)
    → r ≡ ok tt
    → error_of (checked r s rest) ≡ error_of rest
unfolding checked error_of
checked-passes (ok u) s rest h = refl
checked-passes (raise d) s rest h = cc

-- The check inside the guarded transition of a store that has become another one.
guarded_status :
    (m : Moment) (s later : TaskStateStore) (key : String) (t : TaskSnapshot) (b : TaskStatus)
    (u : TaskUpdates)
    → find key later ≡ some t
    → u.status ≡ some b
    → is_progress b ≡ true
    → validate_updates
        (task_or_new m key (find key later))
        (requested_status (some (terminal_safe_task_updates s key u)))
      ≡ (if not (is_finished_task (find key s)) && (is_blocked t.status || is_terminal t.status)
          then raise (task_transition t.task_id t.status b)
          else ok tt)
guarded_status m s later key t b u h e p = rw h (
    unfold task_or_new requested_status terminal_safe_task_updates get_task in
    rw (e, terminal_safe_task_updates) (guarded_check (find key s) t b u e p))

-- The guarded transition of a file that asks for the status downloading or uploading, with any calls
-- of others between its look at the task and its write: where the task is there at the write, it
-- raises the transition error from its status to the one that is asked for exactly when the look saw
-- no finished task, and at the write the task is scanning, waits for a confirmation, has an unknown
-- status, or has been finished. So a task that was finished at the look is not refused, and one that is
-- finished in between is.
pub transition_without_reopening-raises :
    (m : Moment) (s : TaskStateStore) (between : List (Moment × Call)) (key file : String)
    (t : TaskSnapshot) (b : TaskStatus) (u : TaskUpdates) (fu : FileUpdates)
    → find key (run between s) ≡ some t
    → u.status ≡ some b
    → is_progress b ≡ true
    → (error_of (transition_without_reopening m key file u fu between s)
        ≡ some (task_transition t.task_id t.status b))
      ↔ ((is_finished_task (find key s) ≡ false)
          × (is_blocked t.status || is_terminal t.status ≡ true))
unfolding transition_without_reopening transition_file
transition_without_reopening-raises m s between key file t b u fu h e p =
    elim (Bool-cases refused) [
      | inl yes_it ↦ (
        λ raised_it. ground (arith, yes_it),
        λ both.
            checked-error _ later rest (task_transition t.task_id t.status b) (check ∙ (rw yes_it)),
      )
      | inr free ↦ (
        λ raised_it. absurd (ground (arith, checked-passes _ later rest (check ∙ (rw free)), disk)),
        λ both. absurd (ground (arith, both, free)),
      )
    ]
  where
    later : TaskStateStore
    later = run between s

    refused : Bool
    refused = not (is_finished_task (find key s)) && (is_blocked t.status || is_terminal t.status)

    check :
        validate_updates
          (task_or_new m key (find key later))
          (requested_status (some (terminal_safe_task_updates s key u)))
        ≡ (if refused then raise (task_transition t.task_id t.status b) else ok tt)
    check = guarded_status m s later key t b u h e p

    before : TaskSnapshot
    before =
        updated_task m (some (terminal_safe_task_updates s key u))
          (task_or_new m key (find key later))

    made : FileSnapshot
    made = moved_file m file fu before

    rest : Result (TaskSnapshot × FileSnapshot) × TaskStateStore
    rest =
        installed m key (moved_task m file made before) made
          (write_transition m key (moved_task m file made before) made later)

    disk : IsDiskOnly rest
    disk = installed-IsDiskOnly m key _ made _ (write_transition-IsDiskOnly m key _ made later)
