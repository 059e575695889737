-- ===== src/Task/Store/Placing.antt =====
-- How the parts that the methods share place a task in memory.
use telegram_media_downloade.Prelude.{
  ◌≡◌, refl, sym, ◌∙◌, ap, ◌⊎◌, inl, inr, true, Option, none, some, String, arith, string_key,
  Bool-cases, Option-cases, subst,
}
use telegram_media_downloade.Dict.{get, put, pop}
use telegram_media_downloade.Task.Status.{TaskStatus, is_terminal, is_allowed}
use telegram_media_downloade.Task.Snapshot.{TaskSnapshot, refresh_counts_from_files, assign}
use telegram_media_downloade.Task.Store.{
  TaskStateStore, Moment, ok, find, settle, move_completed, store_task, validate_transition,
  validate_updates,
}
use telegram_media_downloade.Task.Store.Methods.{write_back, target_status, returning_some}
use telegram_media_downloade.Task.Store.Files.{install_task}
use telegram_media_downloade.Task.Store.Memory.{
  SameMemory, SameMemory-refl, persist_task-SameMemory, drop_evicted-SameMemory, then_do-SameMemory,
  state-returning, state-returning_some,
}
use telegram_media_downloade.Task.Store.Invariant.{IsWellFormed}
use telegram_media_downloade.Task.Store.Calls.{Call, Moved, Exempt, placed, Effect, places}

pub move_completed-placed :
    (m : Moment) (key : String) (task : TaskSnapshot) (s : TaskStateStore)
    → is_terminal task.status ≡ true
    → SameMemory (placed key task s) (move_completed m key task s).1
unfolding move_completed placed
move_completed-placed m key task s over = rw over (
    then_do-SameMemory _ _ _ (persist_task-SameMemory m task _)
      (drop_evicted-SameMemory m (settle key task s).1))

pub store_task-placed :
    (m : Moment) (key : String) (task : TaskSnapshot) (s : TaskStateStore)
    → SameMemory (placed key task s) (store_task m key task s).1
unfolding store_task
store_task-placed m key task s = elim (Bool-cases (is_terminal task.status)) [
  | inl over ↦ rw (over, store_task) (move_completed-placed m key task s over)
  | inr open_yet ↦
      rw (open_yet, store_task) (unfold placed in rw open_yet (persist_task-SameMemory m task _))
]

pub install_task-placed :
    (m : Moment) (key : String) (task : TaskSnapshot) (s : TaskStateStore)
    → SameMemory (placed key task s) (install_task m key task s).1
unfolding install_task placed
install_task-placed m key task s = elim (Bool-cases (is_terminal task.status)) [
  | inl over ↦ rw over (drop_evicted-SameMemory m (settle key task s).1 _)
  | inr open_yet ↦ rw open_yet (SameMemory-refl _)
]

pub write_back-placed :
    (m : Moment) (key : String) (task : TaskSnapshot) (s : TaskStateStore)
    → SameMemory (placed key task s) (write_back m key task s).1
unfolding write_back
write_back-placed m key task s =
    rw (state-returning task (store_task m key task s)) (store_task-placed m key task s)

pub placed-SameMemory :
    (key : String) (task : TaskSnapshot) {s t : TaskStateStore}
    → SameMemory s t
    → SameMemory (placed key task s) (placed key task t)
unfolding placed settle
placed-SameMemory key task {s} {t} h = elim (Bool-cases (is_terminal task.status)) [
  | inl over ↦ rw over (record {
    limit = h.limit;
    active = ap (pop key) h.active;
    completed = rw (h.completed, h.limit);
  })
  | inr open_yet ↦ rw open_yet (record {
    limit = h.limit;
    active = ap (put key task) h.active;
    completed = ap (pop key) h.completed;
  })
]

-- A task that is found stands under its own id.
pub find_id :
    (key : String) (t : TaskSnapshot) (s : TaskStateStore)
    → IsWellFormed s
    → find key s ≡ some t
    → t.task_id ≡ key
unfolding find
find_id key t s w h = elim (Option-cases (get key s.active)) [
  | inl e ↦ (w.settled.at key t (ground arith)).0
  | inr (u, e) ↦ (w.running.at key t (ground arith)).0
]

-- A status that passes the check is in the table, or there is none.
pub validated :
    (t : TaskSnapshot) (requested : Option TaskStatus)
    → validate_updates t requested ≡ ok tt
    → (t.status ≡ assign requested t.status)
      ⊎ (is_allowed t.status (assign requested t.status) ≡ true)
unfolding validate_updates validate_transition
validated t none h = inl refl
validated t (some r) h = inr (ground arith)

-- A found task that is changed and written back.
pub rewritten :
    (c : Call) (m : Moment) (key : String) (t task : TaskSnapshot) (s : TaskStateStore)
    → IsWellFormed s
    → find key s ≡ some t
    → task.task_id ≡ t.task_id
    → ((t.status ≡ task.status)
        ⊎ (is_allowed t.status task.status ≡ true)
        ⊎ Exempt c key t.status task.status)
    → Effect c s (returning_some (write_back m key task s)).1
rewritten c m key t task s w e i moved = rw (state-returning_some (write_back m key task s)) (
    places key task (i ∙ find_id key t s w e) (subst (λ o. Moved c key o task.status) (sym e) moved)
      (write_back-placed m key task s))

pub either : {A B C : Type 0} → A ⊎ B → A ⊎ B ⊎ C
either (inl a) = inl a
either (inr b) = inr (inl b)

pub refresh_id : (t : TaskSnapshot) → (refresh_counts_from_files t).task_id ≡ t.task_id
unfolding refresh_counts_from_files
refresh_id t = ground arith

pub refresh_status : (t : TaskSnapshot) → (refresh_counts_from_files t).status ≡ t.status
unfolding refresh_counts_from_files
refresh_status t = ground arith

pub target_status-is_terminal : (t : TaskSnapshot) → is_terminal (target_status t) ≡ true
unfolding target_status is_terminal
target_status-is_terminal t = ground arith
