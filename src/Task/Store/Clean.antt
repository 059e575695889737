-- ===== src/Task/Store/Clean.antt =====
-- The steps of the methods raise only what the database raises.
use telegram_media_downloade.Prelude.{
  ◌≡◌, refl, ◌⊎◌, inl, inr, none, some, String, List, [], ◌∷◌, arith, Bool-cases,
}
use telegram_media_downloade.Task.Status.{is_terminal}
use telegram_media_downloade.Task.Snapshot.{TaskSnapshot, FileSnapshot}
use telegram_media_downloade.Task.Store.{
  TaskStateStore, Moment, storage_failed, Result, ok, raise, persist_task, drop_evicted, then_do,
  move_completed, store_task, returning, checked, settle,
}
use telegram_media_downloade.Task.Store.Methods.{write_back, returning_some}
use telegram_media_downloade.Task.Store.Files.{write_transition, install_task, installed, file_of}
use telegram_media_downloade.Task.Store.Calls.{error_of}

-- A result that raises, if at all, the error of the database.
abbrev pub IsDiskOnly {ℓ} : {A : Type ℓ} → Result A × TaskStateStore → Type 0
IsDiskOnly r = (error_of r ≡ none) ⊎ (error_of r ≡ some storage_failed)

-- Or it changes nothing.
abbrev pub IsClean {ℓ} : {A : Type ℓ} → TaskStateStore → Result A × TaskStateStore → Type 0
IsClean s r = (error_of r ≡ none) ⊎ (error_of r ≡ some storage_failed) ⊎ (r.1 ≡ s)

pub clean {ℓ} :
    {A : Type ℓ} (s : TaskStateStore) (r : Result A × TaskStateStore) → IsDiskOnly r → IsClean s r
clean s r (inl h) = inl h
clean s r (inr h) = inr (inl h)

pub persist_task-IsDiskOnly :
    (m : Moment) (task : TaskSnapshot) (s : TaskStateStore) → IsDiskOnly (persist_task m task s)
unfolding persist_task error_of
persist_task-IsDiskOnly m task s = ground arith

pub drop_evicted-IsDiskOnly :
    (m : Moment) (keys : List String) (s : TaskStateStore) → IsDiskOnly (drop_evicted m keys s)
unfolding drop_evicted error_of
drop_evicted-IsDiskOnly m [] s = ground arith
drop_evicted-IsDiskOnly m (k ∷ keys) s = ground arith

pub then_do-IsDiskOnly :
    (p : Result (Unit {0}) × TaskStateStore)
    (next : TaskStateStore → Result (Unit {0}) × TaskStateStore)
    → IsDiskOnly p
    → ((t : TaskStateStore) → IsDiskOnly (next t))
    → IsDiskOnly (then_do p next)
unfolding then_do error_of
then_do-IsDiskOnly (ok u, t) next h k = k t
then_do-IsDiskOnly (raise e, t) next h k = h

pub move_completed-IsDiskOnly :
    (m : Moment) (key : String) (task : TaskSnapshot) (s : TaskStateStore)
    → IsDiskOnly (move_completed m key task s)
unfolding move_completed
move_completed-IsDiskOnly m key task s =
    then_do-IsDiskOnly _ _ (persist_task-IsDiskOnly m task _)
      (drop_evicted-IsDiskOnly m (settle key task s).1)

pub store_task-IsDiskOnly :
    (m : Moment) (key : String) (task : TaskSnapshot) (s : TaskStateStore)
    → IsDiskOnly (store_task m key task s)
unfolding store_task
store_task-IsDiskOnly m key task s = elim (Bool-cases (is_terminal task.status)) [
  | inl over ↦ rw over (move_completed-IsDiskOnly m key task s)
  | inr open_yet ↦ rw open_yet (persist_task-IsDiskOnly m task _)
]

pub returning-IsDiskOnly {ℓ} :
    {A : Type ℓ} (a : A) (r : Result (Unit {0}) × TaskStateStore)
    → IsDiskOnly r
    → IsDiskOnly (returning a r)
unfolding returning error_of
returning-IsDiskOnly a (ok u, t) h = h
returning-IsDiskOnly a (raise e, t) h = h

pub returning_some-IsDiskOnly :
    (r : Result TaskSnapshot × TaskStateStore) → IsDiskOnly r → IsDiskOnly (returning_some r)
unfolding returning_some error_of
returning_some-IsDiskOnly (ok t, u) h = h
returning_some-IsDiskOnly (raise e, t) h = h

pub file_of-IsClean :
    (r : Result (TaskSnapshot × FileSnapshot) × TaskStateStore) (s : TaskStateStore)
    → IsClean s r
    → IsClean s (file_of r)
unfolding file_of error_of
file_of-IsClean (ok (t, f), u) s h = h
file_of-IsClean (raise e, t) s h = h

pub checked-IsClean {ℓ} :
    {A : Type ℓ} (r : Result (Unit {0})) (s : TaskStateStore) (rest : Result A × TaskStateStore)
    → IsDiskOnly rest
    → IsClean s (checked r s rest)
unfolding checked error_of
checked-IsClean (ok tt) s rest h = clean s rest h
checked-IsClean (raise e) s rest h = inr (inr refl)

pub write_back-IsDiskOnly :
    (m : Moment) (key : String) (task : TaskSnapshot) (s : TaskStateStore)
    → IsDiskOnly (write_back m key task s)
unfolding write_back
write_back-IsDiskOnly m key task s =
    returning-IsDiskOnly task (store_task m key task s) (store_task-IsDiskOnly m key task s)

pub install_task-IsDiskOnly :
    (m : Moment) (key : String) (task : TaskSnapshot) (s : TaskStateStore)
    → IsDiskOnly (install_task m key task s)
unfolding install_task
install_task-IsDiskOnly m key task s = elim (Bool-cases (is_terminal task.status)) [
  | inl over ↦ rw over (drop_evicted-IsDiskOnly m (settle key task s).1 _)
  | inr open_yet ↦ rw open_yet (unfold error_of in inl refl)
]

pub installed-IsDiskOnly :
    (m : Moment) (key : String) (task : TaskSnapshot) (file : FileSnapshot)
    (p : Result (Unit {0}) × TaskStateStore)
    → IsDiskOnly p
    → IsDiskOnly (installed m key task file p)
unfolding installed
installed-IsDiskOnly m key task file (ok u, t) h =
    returning-IsDiskOnly {A = TaskSnapshot × FileSnapshot} (task, file) (install_task m key task t)
      (install_task-IsDiskOnly m key task t)
installed-IsDiskOnly m key task file (raise e, t) h = unfold error_of in h

pub write_transition-IsDiskOnly :
    (m : Moment) (key : String) (task : TaskSnapshot) (file : FileSnapshot) (s : TaskStateStore)
    → IsDiskOnly (write_transition m key task file s)
unfolding write_transition error_of
write_transition-IsDiskOnly m key task file s = ground arith
