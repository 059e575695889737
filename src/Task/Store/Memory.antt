-- ===== src/Task/Store/Memory.antt =====
-- Writing rows changes nothing in memory, and a check that raises changes nothing at all.
use telegram_media_downloade.Prelude.{◌≡◌, refl, ◌∙◌, String, List, [], ◌∷◌, arith}
use telegram_media_downloade.Task.Snapshot.{TaskSnapshot, FileSnapshot}
use telegram_media_downloade.Task.Store.{
  TaskStateStore, Moment, Result, ok, raise, drop_evicted, persist_task, then_do, returning,
  checked,
}
use telegram_media_downloade.Task.Store.Methods.{returning_some}
use telegram_media_downloade.Task.Store.Files.{write_transition, file_of}

-- Two stores that agree but for the rows on disk.
pub record SameMemory (s t : TaskStateStore) : Type 0 where
  pub limit : t.recent_limit ≡ s.recent_limit
  pub active : t.active ≡ s.active
  pub completed : t.completed ≡ s.completed

pub SameMemory-refl : (s : TaskStateStore) → SameMemory s s
SameMemory-refl s = record { limit = refl; active = refl; completed = refl }

pub SameMemory-trans : {s t u : TaskStateStore} → SameMemory s t → SameMemory t u → SameMemory s u
SameMemory-trans a b = record {
  limit = b.limit ∙ a.limit;
  active = b.active ∙ a.active;
  completed = b.completed ∙ a.completed;
}

pub persist_task-SameMemory :
    (m : Moment) (task : TaskSnapshot) (s : TaskStateStore) → SameMemory s (persist_task m task s).1
unfolding persist_task
persist_task-SameMemory m task s = ground arith

pub drop_evicted-SameMemory :
    (m : Moment) (keys : List String) (s : TaskStateStore) → SameMemory s (drop_evicted m keys s).1
unfolding drop_evicted
drop_evicted-SameMemory m [] s = SameMemory-refl s
drop_evicted-SameMemory m (k ∷ keys) s = ground arith

pub write_transition-SameMemory :
    (m : Moment) (key : String) (task : TaskSnapshot) (file : FileSnapshot) (s : TaskStateStore)
    → SameMemory s (write_transition m key task file s).1
unfolding write_transition
write_transition-SameMemory m key task file s = ground arith

pub then_do-SameMemory :
    (r : Result (Unit {0}) × TaskStateStore)
    (next : TaskStateStore → Result (Unit {0}) × TaskStateStore) (s : TaskStateStore)
    → SameMemory s r.1
    → ((t : TaskStateStore) → SameMemory t (next t).1)
    → SameMemory s (then_do r next).1
unfolding then_do
then_do-SameMemory (ok u, t) next s h k = SameMemory-trans h (k t)
then_do-SameMemory (raise e, t) next s h k = h

-- Handing a result back leaves the state as it is.
pub state-returning {ℓ} :
    {A : Type ℓ} (a : A) (r : Result (Unit {0}) × TaskStateStore) → (returning a r).1 ≡ r.1
unfolding returning
state-returning a (ok u, s) = refl
state-returning a (raise e, s) = refl

pub state-returning_some : (r : Result TaskSnapshot × TaskStateStore) → (returning_some r).1 ≡ r.1
unfolding returning_some
state-returning_some (ok t, s) = refl
state-returning_some (raise e, s) = refl

pub state-file_of :
    (r : Result (TaskSnapshot × FileSnapshot) × TaskStateStore) → (file_of r).1 ≡ r.1
unfolding file_of
state-file_of (ok (t, f), s) = refl
state-file_of (raise e, s) = refl

-- To prove something of the state after a checked call: of the state before, and of the state after
-- the rest where the check passed.
pub checked_cases {ℓ κ} :
    {A : Type ℓ} (P : TaskStateStore → Type κ) (r : Result (Unit {0})) (s : TaskStateStore)
    (rest : Result A × TaskStateStore)
    → P s
    → (r ≡ ok tt → P rest.1)
    → P (checked r s rest).1
unfolding checked
checked_cases P (ok tt) s rest before after = after refl
checked_cases P (raise e) s rest before after = before
