-- ===== src/Task/Store/Invariant.antt =====
-- A well-formed store: every task stands under its own id, once, with the finished tasks in
-- `completed` and the others in `active`, and no more finished tasks than the limit.
use telegram_media_downloade.Prelude.{
  ◌≤◌, ◌≡◌, true, false, none, some, String, length, arith, Bool-cases, Option-cases, inl, inr,
  string_key,
}
use native.Mathlib.Nat.{le_refl}
use telegram_media_downloade.Dict.{get, put, pop}
use telegram_media_downloade.Dict.Laws.{
  Holds, Holds-put, Holds-pop, get-put, get-pop, length-pop-le,
}
use telegram_media_downloade.Task.Status.{is_terminal}
use telegram_media_downloade.Task.Snapshot.{TaskSnapshot}
use telegram_media_downloade.Task.Store.{TaskStateStore, Moment, settle, move_completed, store_task}
use telegram_media_downloade.Task.Store.Eviction.{length-evict, get-evict}
use telegram_media_downloade.Task.Store.Memory.{
  SameMemory, persist_task-SameMemory, drop_evicted-SameMemory, then_do-SameMemory,
}

abbrev pub IsActive : String → TaskSnapshot → Type 0
IsActive k t = (t.task_id ≡ k) × (is_terminal t.status ≡ false)

abbrev pub IsSettled : String → TaskSnapshot → Type 0
IsSettled k t = (t.task_id ≡ k) × (is_terminal t.status ≡ true)

pub record IsWellFormed (s : TaskStateStore) : Type 0 where
  pub running : Holds IsActive s.active
  pub settled : Holds IsSettled s.completed
  pub apart : (k : String) (t : TaskSnapshot) → get k s.active ≡ some t → get k s.completed ≡ none
  pub bounded : length s.completed ≤ s.recent_limit

pub SameMemory-IsWellFormed :
    {s t : TaskStateStore} → SameMemory s t → IsWellFormed s → IsWellFormed t
SameMemory-IsWellFormed m w = record {
  running = rw m.active w.running;
  settled = rw m.completed w.settled;
  apart = λ k u h. rw m.completed (w.apart k u (rw m.active at h));
  bounded = rw (m.completed, m.limit) w.bounded;
}

-- What the loop leaves of `completed` with one more task in it.
settle-Holds :
    (key : String) (task : TaskSnapshot) (s : TaskStateStore)
    → IsSettled key task
    → Holds IsSettled s.completed
    → Holds IsSettled (settle key task s).0
unfolding settle
settle-Holds key task s p h = record {
  at = λ k t q. (Holds-put key task s.completed p h).at k t (get-evict _ s.recent_limit _ k t q);
}

pub length-settle :
    (key : String) (task : TaskSnapshot) (s : TaskStateStore)
    → length (settle key task s).0 ≤ s.recent_limit
unfolding settle
length-settle key task s = length-evict _ s.recent_limit _ (le_refl _)

-- A task that is active under another key is not among the finished ones.
settle-none :
    (key : String) (task : TaskSnapshot) (s : TaskStateStore) (k : String) (t : TaskSnapshot)
    → IsWellFormed s
    → get k (pop key s.active) ≡ some t
    → get k (settle key task s).0 ≡ none
unfolding settle
settle-none key task s k t w h = elim (Option-cases (get k (settle key task s).0)) [
  | inl e ↦ e
  | inr (u, e) ↦ absurd (
      ground (
        arith,
        get-evict (length (put key task s.completed)) s.recent_limit (put key task s.completed) k u
            e,
        get-put key k task s.completed,
        get-pop key k s.active,
        w.apart k t,
      ))
]

pub settled-IsWellFormed :
    (key : String) (task : TaskSnapshot) (s : TaskStateStore)
    → IsSettled key task
    → IsWellFormed s
    → IsWellFormed (record s { active = pop key s.active; completed = (settle key task s).0 })
settled-IsWellFormed key task s p w = record {
  running = Holds-pop key s.active w.running;
  settled = settle-Holds key task s p w.settled;
  apart = λ k t h. settle-none key task s k t w h;
  bounded = length-settle key task s;
}

pub active-IsWellFormed :
    (key : String) (task : TaskSnapshot) (s : TaskStateStore)
    → IsActive key task
    → IsWellFormed s
    → IsWellFormed (record s { active = put key task s.active; completed = pop key s.completed })
active-IsWellFormed key task s p w = record {
  running = Holds-put key task s.active p w.running;
  settled = Holds-pop key s.completed w.settled;
  apart =
      λ k t h. ground (arith, get-put key k task s.active, get-pop key k s.completed, w.apart k t);
  bounded = omega (arith, length-pop-le key s.completed, w.bounded);
}

pub move_completed-IsWellFormed :
    (m : Moment) (key : String) (task : TaskSnapshot) (s : TaskStateStore)
    → IsSettled key task
    → IsWellFormed s
    → IsWellFormed (move_completed m key task s).1
unfolding move_completed
move_completed-IsWellFormed m key task s p w =
    SameMemory-IsWellFormed
      (then_do-SameMemory _ _ _ (persist_task-SameMemory m task _)
        (drop_evicted-SameMemory m (settle key task s).1))
      (settled-IsWellFormed key task s p w)

pub store_task-IsWellFormed :
    (m : Moment) (key : String) (task : TaskSnapshot) (s : TaskStateStore)
    → task.task_id ≡ key
    → IsWellFormed s
    → IsWellFormed (store_task m key task s).1
unfolding store_task
store_task-IsWellFormed m key task s i w = elim (Bool-cases (is_terminal task.status)) [
  | inl over ↦ rw over (move_completed-IsWellFormed m key task s (i, over) w)
  | inr open_yet ↦ rw open_yet (
      SameMemory-IsWellFormed (persist_task-SameMemory m task _)
        (active-IsWellFormed key task s (i, open_yet) w))
]
