-- ===== src/Task/Counts.antt =====
-- The counters of a task after a file transition.
use telegram_media_downloade.Prelude.{
  ◌+◌, ◌≤◌, ◌≡◌, refl, ◌∙◌, false, Option, none, some, String, List, [], ◌∷◌, length, count, arith,
  string_key, ◌≢◌, subst, ap,
}
use telegram_media_downloade.Dict.{Dict, get, put, values}
use telegram_media_downloade.Dict.Laws.{get-put_self, get-put_ne}
use telegram_media_downloade.Task.Status.{is_success, is_failure, is_skip, is_uploaded, is_terminal}
use telegram_media_downloade.Task.Snapshot.{
  FileSnapshot, TaskSnapshot, TaskUpdates, FileUpdates, count_files, recount,
  refresh_counts_from_files, apply_updates,
}
use telegram_media_downloade.Task.Store.{
  TaskStateStore, Moment, Result, ok, raise, find, returning, validate_updates, checked,
}
use telegram_media_downloade.Task.Store.Files.{
  task_or_new, updated_task, requested_status, moved_file, moved_task, write_transition,
  install_task, installed, transition_file,
}
use telegram_media_downloade.Task.Store.Memory.{SameMemory}
use telegram_media_downloade.Task.Store.Placing.{install_task-placed}
use telegram_media_downloade.Task.Store.Calls.{placed}

length-values {ℓ κ} : {K : Type ℓ} {V : Type κ} (d : Dict K V) → length (values d) ≡ length d
unfolding values
length-values [] = refl
length-values ((k, v) ∷ d) = omega (arith, length-values d)

-- No status is a success, a failure and a skip at once.
kinds-le-length :
    (fs : List FileSnapshot)
    → count (λ (f : FileSnapshot). is_success f.status) fs
        + count (λ (f : FileSnapshot). is_failure f.status) fs
        + count (λ (f : FileSnapshot). is_skip f.status) fs
      ≤ length fs
unfolding is_success is_failure is_skip
kinds-le-length [] = omega arith
kinds-le-length (f ∷ fs) = ground (arith, kinds-le-length fs)

-- The counters are those of the files, and add up to no more than the total.
pub record IsCounted (t : TaskSnapshot) : Type 0 where
  pub successes : t.success_count ≡ count_files is_success t.files
  pub failures : t.failed_count ≡ count_files is_failure t.files
  pub skips : t.skipped_count ≡ count_files is_skip t.files
  pub uploads : count_files is_uploaded t.files ≤ t.upload_success_count
  pub files_fit : length t.files ≤ t.total_count
  pub within : t.success_count + t.failed_count + t.skipped_count ≤ t.total_count

recount-IsCounted : (t : TaskSnapshot) → IsCounted (recount t)
unfolding recount count_files
recount-IsCounted t = record {
  successes = refl;
  failures = refl;
  skips = refl;
  uploads = omega arith;
  files_fit = omega arith;
  within = omega (arith, kinds-le-length (values t.files), length-values t.files);
}

refresh-IsCounted : (t : TaskSnapshot) → t.files ≢ [] → IsCounted (refresh_counts_from_files t)
unfolding refresh_counts_from_files
refresh-IsCounted t h = go t.files refl
  where
    go :
        (fs : Dict String FileSnapshot)
        → t.files ≡ fs
        → IsCounted (elim fs [ [] ↦ t | _ ∷ _ ↦ recount t ])
    go [] e = absurd (h e)
    go (f ∷ fs) e = recount-IsCounted t

put-ne-nil {κ} : {V : Type κ} (k : String) (v : V) (d : Dict String V) → put k v d ≢ []
unfolding put
put-ne-nil k v [] = λ e. ground arith
put-ne-nil k v ((j, w) ∷ d) = λ e. ground arith

-- A checked call that returns has run the rest.
checked_ok {ℓ} :
    {A : Type ℓ} (r : Result (Unit {0})) (s t : TaskStateStore) (rest : Result A × TaskStateStore)
    (a : A)
    → checked r s rest ≡ (ok a, t)
    → rest ≡ (ok a, t)
unfolding checked
checked_ok (ok u) s t rest a h = h
checked_ok (raise e) s t rest a h = cc

returning_ok {ℓ} :
    {A : Type ℓ} (a b : A) (r : Result (Unit {0}) × TaskStateStore) (t : TaskStateStore)
    → returning a r ≡ (ok b, t)
    → (a ≡ b) × (r.1 ≡ t)
unfolding returning
returning_ok a b (ok u, s) t h = ground arith
returning_ok a b (raise e, s) t h = cc

-- What the two transactions hand back is the task that was computed, in its place in memory.
installed_ok :
    (m : Moment) (key : String) (task : TaskSnapshot) (file : FileSnapshot)
    (p : Result (Unit {0}) × TaskStateStore) (out : TaskSnapshot × FileSnapshot)
    (t : TaskStateStore)
    → installed m key task file p ≡ (ok out, t)
    → ((task, file) ≡ out) × SameMemory (placed key task p.1) t
unfolding installed
installed_ok m key task file (ok u, s) out t h =
    let (same, e) = returning_ok (task, file) out (install_task m key task s) t h in
    (same, rw (← e) (install_task-placed m key task s))
installed_ok m key task file (raise e, s) out t h = cc

find-placed_active :
    (key : String) (task : TaskSnapshot) (s t : TaskStateStore)
    → is_terminal task.status ≡ false
    → SameMemory (placed key task s) t
    → find key t ≡ some task
unfolding find placed
find-placed_active key task s t h same =
    rw (same.active, same.completed, h) (rw (get-put_self key task s.active) refl)

refresh_files : (t : TaskSnapshot) → (refresh_counts_from_files t).files ≡ t.files
unfolding refresh_counts_from_files
refresh_files t = ground arith

refresh_current : (t : TaskSnapshot) → (refresh_counts_from_files t).current_file ≡ t.current_file
unfolding refresh_counts_from_files
refresh_current t = ground arith

-- What a transition leaves in the task that it returns.
pub record IsMoved (before task : TaskSnapshot) (key : String) (file : FileSnapshot) : Type 0 where
  pub counted : IsCounted task
  pub current : task.current_file ≡ some key
  pub held : get key task.files ≡ some file
  pub others : (j : String) → key ≢ j → get j task.files ≡ get j before.files

moved_task-IsMoved :
    (m : Moment) (key : String) (file : FileSnapshot) (t : TaskSnapshot)
    → IsMoved t (moved_task m key file t) key file
unfolding moved_task
moved_task-IsMoved m key file t = record {
  counted = refresh-IsCounted _ (put-ne-nil key file t.files);
  current = refresh_current _;
  held = rw (refresh_files _) (get-put_self key file t.files);
  others = λ j n. rw (refresh_files _) (get-put_ne key j file t.files n);
}

updated_files :
    (m : Moment) (u : Option TaskUpdates) (t : TaskSnapshot) → (updated_task m u t).files ≡ t.files
unfolding updated_task apply_updates
updated_files m none t = refl
updated_files m (some u) t = refl

-- A file transition that returns has put the file under its key and made it the current one, has
-- left the other files of the task as they were, and has counted all files anew: successes,
-- failures and skips are those of the files and add up to at most the total. A task that is not
-- finished then stands in memory as it was returned.
pub transition_file-IsMoved :
    (m : Moment) (key file_key : String) (tu : Option TaskUpdates) (fu : FileUpdates)
    (s t : TaskStateStore) (task : TaskSnapshot) (file : FileSnapshot)
    → transition_file m key file_key tu fu s ≡ (ok (task, file), t)
    → IsMoved (task_or_new m key (find key s)) task file_key file
      × (is_terminal task.status ≡ false → find key t ≡ some task)
unfolding transition_file
transition_file-IsMoved m key file_key tu fu s t task file h =
    let before = task_or_new m key (find key s) in
    let updated = updated_task m tu before in
    let made = moved_file m file_key fu updated in
    let final = moved_task m file_key made updated in
    let p = write_transition m key final made s in
    let (same, mem) =
      installed_ok m key final made p (task, file) t
        (checked_ok (validate_updates before (requested_status tu)) s t _ (task, file) h) in
    let good = moved_task-IsMoved m file_key made updated in
    (
      subst (λ (o : TaskSnapshot × FileSnapshot). IsMoved before o.0 file_key o.1) same
          (record {
            counted = good.counted;
            current = good.current;
            held = good.held;
            others = λ j n. good.others j n ∙ ap (get j) (updated_files m tu before);
          }),
      λ open_yet.
          find-placed_active key task p.1 t open_yet (
            subst (λ (o : TaskSnapshot × FileSnapshot). SameMemory (placed key o.0 p.1) t) same
              mem),
    )
