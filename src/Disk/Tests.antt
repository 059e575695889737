-- ===== src/Disk/Tests.antt =====
-- The theorems about the admission, each at an input that meets its conditions.
use telegram_media_downloade.Prelude.{
  ℕ, ◌+◌, ◌≤◌, ◌≡◌, refl, none, some, String, List, [], ◌∷◌, string_key, arith,
}
use telegram_media_downloade.Prelude.Int.{pos, negsuc}
use telegram_media_downloade.Dict.{get, put, pop, keys, has}
use telegram_media_downloade.Dict.Order.{total}
use telegram_media_downloade.Disk.{
  Admission, init, can_admit, capacity_bytes, requested, reserved_total, may_admit, resolve_waiter,
  release, wait_for_change,
}
use telegram_media_downloade.Disk.Acquire.{
  begin_acquire, admitted, failed, round, admit, disk_capacity_exceeded,
}
use telegram_media_downloade.Disk.System.{
  System, Event, begin, runs, timer, cancel, gives_back, step, run,
}
use telegram_media_downloade.Disk.Books.{book, sizes}
use telegram_media_downloade.Disk.Admit.{round-space, round-progress, rounds, rounds-patience}
use telegram_media_downloade.Disk.Invariant.{IsConsistent, run-IsConsistent, cancel-begin}

abbrev start : System
start = record {
  admission = record {
    minimum_free_bytes = 10;
    capacity_timeout_sec = 60;
    wakeup_waiters = [];
    waiting = [];
    requested_bytes = [];
    reserved_bytes = [];
  };
  acquirers = [];
  reservations = [];
}

start_lem : start.admission ≡ init (pos 10) (pos 60)
unfolding init
start_lem = refl

start-IsConsistent : IsConsistent start
unfolding book sizes keys get
start-IsConsistent = record {
  requests = refl;
  queue = refl;
  distinct = tt;
  held = refl;
  owners = tt;
  apart = λ k q h. refl;
}

-- "big" needs 200 bytes, "small" 50.
abbrev queued : Admission
queued = record start.admission {
  waiting = "big" ∷ "small" ∷ [];
  requested_bytes = ("big", 200) ∷ ("small", 50) ∷ [];
  reserved_bytes = ("held", 120) ∷ [];
}

round-space_example : 10 + reserved_total (round "small" 50 none 190 0 queued).1 ≤ 190
unfolding round may_admit can_admit admit get capacity_bytes reserved_total total requested
round-space_example = round-space "small" 50 190 0 none queued refl refl

round-progress_example :
    (k : String) × (m : ℕ) × (get k queued.requested_bytes ≡ some m)
    × ((round k m none 190 0 queued).0 ≡ admitted)
unfolding keys get can_admit reserved_total total
round-progress_example = round-progress "small" 50 190 0 none queued refl refl refl

rounds-patience_example :
    rounds "big" 400 none ((queued, 190, 1) ∷ (queued, 190, 30) ∷ (queued, 190, 61) ∷ [])
    ≡ failed (disk_capacity_exceeded "big" 400 (capacity_bytes queued 190))
unfolding capacity_bytes reserved_total total
rounds-patience_example =
    rounds-patience "big" 400 60 (queued, 190, 1) (queued, 190, 61) ((queued, 190, 30) ∷ [])
      (omega arith) ((omega arith, omega arith, refl), tt) (omega arith) refl (omega arith)

abbrev history : List Event
history =
    begin "a" (pos 50)
    ∷ runs "a" 100 0
    ∷ begin "b" (pos 60)
    ∷ runs "b" 100 1
    ∷ gives_back 0
    ∷ timer "b"
    ∷ runs "b" 100 2
    ∷ gives_back 0
    ∷ begin "a" (negsuc 3)
    ∷ cancel "b"
    ∷ []

run-IsConsistent_example : IsConsistent (run history start)
run-IsConsistent_example = run-IsConsistent history start start-IsConsistent

history_ends : (run history start).admission.reserved_bytes ≡ ("b", 60) ∷ []
unfolding run step round may_admit can_admit admit begin_acquire capacity_bytes reserved_total total
    has requested put pop resolve_waiter release wait_for_change
history_ends = refl

cancel-begin_example :
    step (cancel "a") (step (begin "a" (pos 50)) start)
    ≡ record start { admission = record start.admission { wakeup_waiters = [] } }
unfolding get book
cancel-begin_example = cancel-begin "a" 50 start start-IsConsistent refl refl
