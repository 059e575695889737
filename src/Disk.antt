-- ===== src/Disk.antt =====
-- module/download_admission.py: the state of `DiskSpaceAdmission` and its methods.
-- A method that runs under the lock, or that has no await, is one function on the state. Bytes are
-- numbers (the code clamps what the disk reports at 0 and refuses a negative size); an inequality
-- between differences of the source is written with sums, so that nothing is cut off at 0. Seconds
-- are numbers too. A sleeping `acquire` is known by its key, of which there is one at a time.
pub mod Acquire
pub mod System
pub mod Books
pub mod Invariant
mod Tests
pub mod Admit
use telegram_media_downloade.Prelude.{
  ℕ, ◌+◌, Bool, true, false, not, ◌&&◌, ◌||◌, Option, none, some, String, List, [], ◌∷◌, ◌++◌, ltb,
  leb, ◌==◌, if◌then◌else◌, string_key, elem, erase, head?, length,
}
use telegram_media_downloade.Prelude.Int.{ℤ, clamp}
use telegram_media_downloade.Dict.{Dict, get, put, pop, has}
use telegram_media_downloade.Dict.Order.{total}

pub record Admission : Type 0 where
  pub minimum_free_bytes : ℕ
  pub capacity_timeout_sec : ℕ
  pub wakeup_waiters : List String
  pub waiting : List String
  pub requested_bytes : Dict String ℕ
  pub reserved_bytes : Dict String ℕ

-- `__init__`: negative settings are read as 0.
pub init : ℤ → ℤ → Admission
init minimum_free_bytes capacity_timeout_sec = record {
  minimum_free_bytes = clamp minimum_free_bytes;
  capacity_timeout_sec = clamp capacity_timeout_sec;
  wakeup_waiters = [];
  waiting = [];
  requested_bytes = [];
  reserved_bytes = [];
}

-- What the disk reports, never below 0.
unfoldable pub free_bytes_now : ℤ → ℕ
free_bytes_now disk = clamp disk

unfoldable pub reserved_total : Admission → ℕ
reserved_total a = total a.reserved_bytes

-- free - reserved - required >= minimum
unfoldable pub can_admit : Admission → ℕ → ℕ → Bool
can_admit a required_bytes free_bytes =
    leb (a.minimum_free_bytes + reserved_total a + required_bytes) free_bytes

unfoldable pub capacity_bytes : Admission → ℕ → ℕ
capacity_bytes a free_bytes = free_bytes + reserved_total a

-- `self._requested_bytes.get(head, 0)`
unfoldable pub requested : Admission → String → ℕ
requested a key = elim (get key a.requested_bytes) [ none ↦ 0 | some n ↦ n ]

-- `none` is the IndexError of `self._waiting[0]`.
unfoldable pub may_admit : Admission → String → ℕ → ℕ → Option Bool
may_admit a key required_bytes free_bytes =
    if not (can_admit a required_bytes free_bytes) then some false else elim (head? a.waiting) [
      | none ↦ none
      | some head ↦
          some (if head == key then true else not (can_admit a (requested a head) free_bytes))
    ]

unfoldable pub notify_all : Admission → Admission
notify_all a = record a { wakeup_waiters = [] }

unfoldable pub discard : String → Admission → Admission
discard key a = record a {
  requested_bytes = pop key a.requested_bytes;
  reserved_bytes = pop key a.reserved_bytes;
  waiting = erase key a.waiting;
}

-- The start of `_wait_for_change`: the future is put on the list, and the coroutine sleeps.
unfoldable pub wait_for_change : String → Admission → Admission
wait_for_change key a = record a { wakeup_waiters = a.wakeup_waiters ++ key ∷ [] }

-- The poll interval is over: `_resolve_waiter`, and the `finally` that takes the future off.
unfoldable pub resolve_waiter : String → Admission → Admission
resolve_waiter key a = record a { wakeup_waiters = erase key a.wakeup_waiters }

unfoldable pub release : String → Admission → Admission
unfolding notify_all
release reservation_id a =
    notify_all (record a { reserved_bytes = pop reservation_id a.reserved_bytes })

unfoldable pub notify_space_changed : Admission → Admission
unfolding notify_all
notify_space_changed a = notify_all a

pub record DiskReservationSnapshot : Type 0 where
  pub free_bytes : ℕ
  pub reserved_bytes : ℕ
  pub minimum_free_bytes : ℕ
  pub waiting_count : ℕ

unfoldable pub snapshot : ℤ → Admission → DiskReservationSnapshot
snapshot disk a = record {
  free_bytes = free_bytes_now disk;
  reserved_bytes = reserved_total a;
  minimum_free_bytes = a.minimum_free_bytes;
  waiting_count = length a.waiting;
}
