-- ===== src/Disk/Acquire.antt =====
-- `DiskSpaceAdmission.acquire`, in the steps between which other coroutines can run: the part
-- before the loop, one round of the loop, and the `except BaseException` clause.
use telegram_media_downloade.Prelude.{
  ℕ, ◌+◌, true, false, ◌||◌, Option, none, some, String, [], ◌∷◌, ◌++◌, ltb, leb, ◌⊎◌, inl, inr,
  if◌then◌else◌, string_key, elem, erase,
}
use telegram_media_downloade.Prelude.Int.{ℤ, pos, negsuc}
use telegram_media_downloade.Dict.{put, pop, has}
use telegram_media_downloade.Disk.{
  Admission, capacity_bytes, may_admit, notify_all, discard, wait_for_change,
}

pub data AcquireError : Type 0 where
  negative_size : AcquireError
  duplicate_reservation : String → AcquireError
  -- with the required bytes and the capacity
  disk_capacity_exceeded : String → ℕ → ℕ → AcquireError
  -- a bug of the books: IndexError or ValueError of `_waiting`
  waiting_corrupt : AcquireError

-- Before the loop: the request is validated and put at the end of the queue.
unfoldable pub begin_acquire : String → ℤ → Admission → (AcquireError ⊎ (ℕ × Admission))
begin_acquire key (negsuc n) a = inl negative_size
begin_acquire key (pos required_bytes) a =
    if has key a.requested_bytes || has key a.reserved_bytes
    then inl (duplicate_reservation key)
    else inr (
      required_bytes,
      record a {
        waiting = a.waiting ++ key ∷ [];
        requested_bytes = put key required_bytes a.requested_bytes;
      },
    )

-- How one round of the loop ends: with the reservation, asleep with `over_capacity_since`, or by an
-- exception.
pub data Round : Type 0 where
  admitted : Round
  asleep : Option ℕ → Round
  failed : AcquireError → Round

-- The `except BaseException` clause, also where the coroutine is cancelled as it sleeps.
unfoldable pub abandon : String → Admission → Admission
unfolding notify_all discard
abandon key a = notify_all (discard key a)

unfoldable pub admit : String → ℕ → Admission → Round × Admission
unfolding notify_all
admit key required_bytes a =
    if elem key a.waiting
    then (
      admitted,
      notify_all (record a {
        waiting = erase key a.waiting;
        requested_bytes = pop key a.requested_bytes;
        reserved_bytes = put key required_bytes a.reserved_bytes;
      }),
    )
    else (failed waiting_corrupt, abandon key a)

-- The request does not fit even when all reservations are given back.
unfoldable pub over_capacity : String → ℕ → Option ℕ → ℕ → ℕ → Admission → Round × Admission
over_capacity key required_bytes none capacity now a = (asleep (some now), wait_for_change key a)
over_capacity key required_bytes (some since) capacity now a =
    if leb (since + a.capacity_timeout_sec) now
    then (failed (disk_capacity_exceeded key required_bytes capacity), abandon key a)
    else (asleep (some since), wait_for_change key a)

-- One round of `while True`, with the free bytes and the clock that it reads.
unfoldable pub round : String → ℕ → Option ℕ → ℕ → ℕ → Admission → Round × Admission
round key required_bytes over_capacity_since free_bytes now a =
    let capacity = capacity_bytes a free_bytes in
    if ltb capacity (required_bytes + a.minimum_free_bytes)
    then over_capacity key required_bytes over_capacity_since capacity now a
    else elim (may_admit a key required_bytes free_bytes) [
      | none ↦ (failed waiting_corrupt, abandon key a)
      | some false ↦ (asleep none, wait_for_change key a)
      | some true ↦ admit key required_bytes a
    ]
