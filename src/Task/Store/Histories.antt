-- ===== src/Task/Store/Histories.antt =====
-- What holds after any calls: the store is well formed, and statuses move along the table.
use telegram_media_downloade.Prelude.{
  ◌≡◌, refl, sym, ◌⊎◌, inl, inr, Bool, true, false, some, String, List, [], ◌∷◌, arith,
  if◌then◌else◌, string_key, Bool-cases, Option-cases, subst, ◌==◌, ==_iff, length,
}
use telegram_media_downloade.Dict.{Dict, get, put, pop}
use telegram_media_downloade.Dict.Laws.{get-put, get-pop, length-pop-le}
use telegram_media_downloade.Task.Status.{TaskStatus, is_terminal, is_allowed}
use telegram_media_downloade.Task.Snapshot.{TaskSnapshot}
use telegram_media_downloade.Task.Store.{TaskStateStore, Moment, find, settle}
use telegram_media_downloade.Task.Store.Eviction.{get-evict}
use telegram_media_downloade.Task.Store.Memory.{SameMemory}
use telegram_media_downloade.Task.Store.Invariant.{
  IsWellFormed, SameMemory-IsWellFormed, settled-IsWellFormed, active-IsWellFormed,
}
use telegram_media_downloade.Task.Store.Calls.{
  Call, after, run, Moved, Exempt, placed, Effect, keeps, places, forgets, empties,
}
use telegram_media_downloade.Task.Store.Effects.{after-Effect}

placed-IsWellFormed :
    (key : String) (task : TaskSnapshot) (s : TaskStateStore)
    → task.task_id ≡ key
    → IsWellFormed s
    → IsWellFormed (placed key task s)
unfolding placed
placed-IsWellFormed key task s i w = elim (Bool-cases (is_terminal task.status)) [
  | inl over ↦ rw over (settled-IsWellFormed key task s (i, over) w)
  | inr open_yet ↦ rw open_yet (active-IsWellFormed key task s (i, open_yet) w)
]

-- Reading less than before.
get-pop_if :
    (b : Bool) (key k : String) (t : TaskSnapshot) (d : Dict String TaskSnapshot)
    → get k (if b then pop key d else d) ≡ some t
    → get k d ≡ some t
get-pop_if true key k t d h = ground (arith, get-pop key k d)
get-pop_if false key k t d h = h

forgotten-IsWellFormed :
    (key : String) (b d : Bool) (s : TaskStateStore)
    → IsWellFormed s
    → IsWellFormed (record s {
      active = if b then pop key s.active else s.active;
      completed = if d then pop key s.completed else s.completed;
    })
forgotten-IsWellFormed key b d s w = record {
  running = record { at = λ k t h. w.running.at k t (get-pop_if b key k t s.active h) };
  settled = record { at = λ k t h. w.settled.at k t (get-pop_if d key k t s.completed h) };
  apart = λ k t h. elim (Option-cases (get k (if d then pop key s.completed else s.completed))) [
    | inl e ↦ e
    | inr (u, e) ↦ absurd (
        ground (
          arith,
          get-pop_if d key k u s.completed e,
          w.apart k t (get-pop_if b key k t s.active h),
        ))
  ];
  bounded = ground (arith, length-pop-le key s.completed, w.bounded);
}

emptied-IsWellFormed :
    (b : Bool) (s : TaskStateStore)
    → IsWellFormed s
    → IsWellFormed (record s { active = if b then [] else s.active; completed = [] })
unfolding get
emptied-IsWellFormed true s w = record {
  running = record { at = λ k t h. absurd (ground arith) };
  settled = record { at = λ k t h. absurd (ground arith) };
  apart = λ k t h. refl;
  bounded = omega arith;
}
emptied-IsWellFormed false s w = record {
  running = w.running;
  settled = record { at = λ k t h. absurd (ground arith) };
  apart = λ k t h. refl;
  bounded = omega arith;
}

Effect-IsWellFormed :
    (c : Call) {s t : TaskStateStore} → Effect c s t → IsWellFormed s → IsWellFormed t
Effect-IsWellFormed c (keeps same) w = SameMemory-IsWellFormed same w
Effect-IsWellFormed c {s} (places key task i moved same) w =
    SameMemory-IsWellFormed same (placed-IsWellFormed key task s i w)
Effect-IsWellFormed c {s} (forgets key b d same) w =
    SameMemory-IsWellFormed same (forgotten-IsWellFormed key b d s w)
Effect-IsWellFormed c {s} (empties b same) w =
    SameMemory-IsWellFormed same (emptied-IsWellFormed b s w)

-- A well-formed store stays well formed after any calls, also those that raise or meet a failing
-- disk: every task stands under its own id in just one of the two dictionaries, the finished
-- ones in `completed`, and `completed` holds at most `recent_limit` tasks.
pub run-IsWellFormed :
    (calls : List (Moment × Call)) (s : TaskStateStore)
    → IsWellFormed s
    → IsWellFormed (run calls s)
unfolding run
run-IsWellFormed [] s w = w
run-IsWellFormed ((m, c) ∷ calls) s w =
    run-IsWellFormed calls (after m c s) (Effect-IsWellFormed c (after-Effect m c s w) w)

find-SameMemory : {s t : TaskStateStore} → SameMemory s t → (k : String) → find k t ≡ find k s
unfolding find
find-SameMemory h k = rw (h.active, h.completed)

find-forgotten :
    (key : String) (b d : Bool) (s : TaskStateStore) (k : String) (t : TaskSnapshot)
    → IsWellFormed s
    → find k (record s {
      active = if b then pop key s.active else s.active;
      completed = if d then pop key s.completed else s.completed;
    })
      ≡ some t
    → find k s ≡ some t
unfolding find
find-forgotten key b d s k t w h = elim (Option-cases (get k s.active)) [
  | inl e ↦ ground (arith, get-pop key k s.active, get-pop_if d key k t s.completed)
  | inr (u, e) ↦
      ground (arith, get-pop key k s.active, get-pop_if d key k t s.completed, w.apart k u e)
]

-- In `completed` after a task is settled: that task, or one that was there.
get-settle :
    (key : String) (task : TaskSnapshot) (s : TaskStateStore) (k : String) (t : TaskSnapshot)
    → get k (settle key task s).0 ≡ some t
    → ((key == k) ≡ true) × (t ≡ task) ⊎ ((key == k) ≡ false) × (get k s.completed ≡ some t)
unfolding settle
get-settle key task s k t h = ground (
  arith,
  get-evict (length (put key task s.completed)) s.recent_limit (put key task s.completed) k t h,
  get-put key k task s.completed,
)

find-placed :
    (key : String) (task : TaskSnapshot) (s : TaskStateStore) (k : String) (t : TaskSnapshot)
    → find k (placed key task s) ≡ some t
    → ((key == k) ≡ true) × (t ≡ task) ⊎ (find k s ≡ some t)
unfolding find placed
find-placed key task s k t h = elim (Bool-cases (is_terminal task.status)) [
  | inl over ↦ ground (arith, get-pop key k s.active, get-settle key task s k t)
  | inr open_yet ↦ ground (arith, get-put key k task s.active, get-pop key k s.completed)
]

find-emptied :
    (b : Bool) (s : TaskStateStore) (k : String) (u : TaskSnapshot)
    → find k (record s { active = if b then [] else s.active; completed = [] }) ≡ some u
    → find k s ≡ some u
unfolding find get
find-emptied true s k u h = ground arith
find-emptied false s k u h = ground arith

-- What a call may do to a status.
abbrev pub IsLawful : Call → String → TaskStatus → TaskStatus → Type 0
IsLawful c k a b = (a ≡ b) ⊎ (is_allowed a b ≡ true) ⊎ Exempt c k a b

placed-IsLawful :
    (c : Call) (s : TaskStateStore) (key k : String) (t u task : TaskSnapshot)
    → Moved c key (find key s) task.status
    → find k s ≡ some t
    → ((key == k) ≡ true) × (u ≡ task) ⊎ (find k s ≡ some u)
    → IsLawful c k t.status u.status
placed-IsLawful c s key k t u task moved before (inl (e, v)) =
    subst (λ x. IsLawful c k t.status x.status) (sym v)
      (subst (λ o. Moved c k o task.status) before
        (subst (λ j. Moved c j (find j s) task.status) ((==_iff key k).0 e) moved))
placed-IsLawful c s key k t u task moved before (inr same) = inl (ground arith)

Effect-IsLawful :
    (c : Call) (s r : TaskStateStore) (k : String) (t u : TaskSnapshot)
    → IsWellFormed s
    → find k s ≡ some t
    → Effect c s r
    → find k r ≡ some u
    → IsLawful c k t.status u.status
Effect-IsLawful c s r k t u w before (keeps e) h = inl (ground (arith, find-SameMemory e k))
Effect-IsLawful c s r k t u w before (forgets key b d e) h =
    inl (ground (arith, find-forgotten key b d s k u w (rw (find-SameMemory e k) at h)))
Effect-IsLawful c s r k t u w before (empties b e) h =
    inl (ground (arith, find-emptied b s k u (rw (find-SameMemory e k) at h)))
Effect-IsLawful c s r k t u w before (places key task i moved e) h =
    placed-IsLawful c s key k t u task moved before
      (find-placed key task s k u (rw (find-SameMemory e k) at h))

-- Whatever one call does to a well-formed store, a task that is there before and after it keeps
-- its status, or moves along the transition table, or the call is a retry of a retryable task,
-- which becomes queued, or the reconciliation of that task, which sets the status that it is
-- given.
pub after-IsLawful :
    (m : Moment) (c : Call) (s : TaskStateStore) (k : String) (t u : TaskSnapshot)
    → IsWellFormed s
    → find k s ≡ some t
    → find k (after m c s) ≡ some u
    → IsLawful c k t.status u.status
after-IsLawful m c s k t u w before later =
    Effect-IsLawful c s (after m c s) k t u w before (after-Effect m c s w) later
