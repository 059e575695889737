-- ===== src/Disk/System.antt =====
-- The admission with the coroutines and the objects around it: the local variables of each running
-- `acquire`, and the `DiskReservation` objects that were handed out. A history is a list of
-- events, each one step of one coroutine.
use telegram_media_downloade.Prelude.{
  ℕ, zero, suc, Bool, true, false, Option, none, some, String, List, [], ◌∷◌, ◌++◌, inl, inr,
  if◌then◌else◌, string_key, elem,
}
use telegram_media_downloade.Prelude.Int.{ℤ}
use telegram_media_downloade.Dict.{Dict, get, put, pop}
use telegram_media_downloade.Disk.{Admission, release, notify_space_changed, resolve_waiter}
use telegram_media_downloade.Disk.Acquire.{
  begin_acquire, round, abandon, Round, admitted, asleep, failed,
}

-- The local variables of a coroutine inside the loop of `acquire`.
pub record Acquirer : Type 0 where
  pub required_bytes : ℕ
  pub over_capacity_since : Option ℕ

pub record DiskReservation : Type 0 where
  pub reservation_id : String
  pub size_bytes : ℕ
  pub released : Bool

pub record System : Type 0 where
  pub admission : Admission
  pub acquirers : Dict String Acquirer
  pub reservations : List DiskReservation

pub data Event : Type 0 where
  -- `acquire(key, size)` is called
  begin : String → ℤ → Event
  -- the coroutine of `key` runs a round, with the free bytes and the time it reads
  runs : String → ℕ → ℕ → Event
  -- its poll timer fires
  timer : String → Event
  -- it is cancelled
  cancel : String → Event
  -- `release()` is called on the i-th reservation object
  gives_back : ℕ → Event
  notify : Event

-- `DiskReservation.release`: only the first call reaches the admission.
unfoldable pub release_once : DiskReservation → Admission → DiskReservation × Admission
release_once r a =
    if r.released then (r, a) else (record r { released = true }, release r.reservation_id a)

unfoldable pub give_back : ℕ → List DiskReservation → Admission → List DiskReservation × Admission
unfolding release_once
give_back i [] a = ([], a)
give_back zero (r ∷ rs) a = let (r', a') = release_once r a in (r' ∷ rs, a')
give_back (suc i) (r ∷ rs) a = let (rs', a') = give_back i rs a in (r ∷ rs', a')

-- What becomes of the coroutine after a round.
unfoldable pub after_round : String → Acquirer → Round × Admission → System → System
after_round key q (admitted, a) s = record {
  admission = a;
  acquirers = pop key s.acquirers;
  reservations =
      s.reservations
      ++ record { reservation_id = key; size_bytes = q.required_bytes; released = false } ∷ [];
}
after_round key q (asleep since, a) s = record s {
  admission = a;
  acquirers = put key (record q { over_capacity_since = since }) s.acquirers;
}
after_round key q (failed e, a) s = record s { admission = a; acquirers = pop key s.acquirers }

unfoldable pub step : Event → System → System
unfolding after_round give_back
step (begin key size) s = elim (begin_acquire key size s.admission) [
  | inl e ↦ s
  | inr (required, a) ↦ record s {
    admission = a;
    acquirers =
        put key (record { required_bytes = required; over_capacity_since = none }) s.acquirers;
  }
]
step (runs key free now) s = elim (get key s.acquirers) [
  | none ↦ s
  | some q ↦
      if elem key s.admission.wakeup_waiters
      then s
      else after_round key q (round key q.required_bytes q.over_capacity_since free now s.admission)
          s
]
step (timer key) s = record s { admission = resolve_waiter key s.admission }
step (cancel key) s = elim (get key s.acquirers) [
  | none ↦ s
  | some q ↦ record s { admission = abandon key s.admission; acquirers = pop key s.acquirers }
]
step (gives_back i) s =
    let (rs, a) = give_back i s.reservations s.admission in
    record s { admission = a; reservations = rs }
step notify s = record s { admission = notify_space_changed s.admission }

unfoldable pub run : List Event → System → System
run [] s = s
run (e ∷ es) s = run es (step e s)
