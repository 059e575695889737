-- ===== src/Progress/Tests.antt =====
-- Progress reports of one download.
use telegram_media_downloade.Prelude.{
  ℕ, ◌≡◌, refl, true, false, List, [], ◌∷◌, arith, string_key, pair_key,
}
use telegram_media_downloade.Dict.{get, pop}
use telegram_media_downloade.Progress.{
  should_persist, end_persist, leave, ProgressPersistence, Report, Running, Event, reports, ends,
  cancels, orphan_ends, clears, step, run,
}
use telegram_media_downloade.Progress.Writers.{IsSound, run-IsSound, cancels-overlaps}
use telegram_media_downloade.Progress.Rate.{count_writes, IsPaid, count_writes-bound}
use telegram_media_downloade.Progress.Transfer.{
  TransferProgressTracker, start, mark_stalled, consume_stalled, clear_transfer,
  consume_stalled-once,
}

abbrev persistence : ProgressPersistence
persistence = record {
  min_interval_seconds = 2;
  min_byte_delta = 100;
  samples = (("1", "7"), record { persisted_at = 10; downloaded_size = 50 }) ∷ [];
  inflight = [];
  next_event = 0;
}

abbrev report_at : ℕ → ℕ → Report
report_at size now = record { key = ("1", "7"); force = false; downloaded_size = size; now = now }

abbrev events : List Event
events =
    reports (report_at 60 15)
    ∷ reports (report_at 70 15)
    ∷ ends 0 false
    ∷ reports (report_at 170 15)
    ∷ cancels 0
    ∷ orphan_ends 0
    ∷ reports (record (report_at 80 16) { force = true })
    ∷ clears ("1", "7")
    ∷ []

abbrev idle : Running
idle = record { persistence = persistence; writers = []; orphans = [] }

idle-IsSound : IsSound idle
unfolding get
idle-IsSound = record { exclusive = tt; agrees = λ key. refl }

run-IsSound_example : IsSound (run events idle)
run-IsSound_example = run-IsSound events idle idle-IsSound

-- One write is under way.
abbrev writing : Running
writing = record {
  persistence = record persistence { inflight = (("1", "7"), 0) ∷ []; next_event = 1 };
  writers = (report_at 60 15, 0) ∷ [];
  orphans = [];
}

writing-IsSound : IsSound writing
unfolding get
writing-IsSound = record { exclusive = (refl, tt); agrees = λ key. refl }

abbrev retried : Report
retried = report_at 0 40

cancels-overlaps_example :
    ((step (reports retried) (step (cancels 0) writing)).orphans ≡ (report_at 60 15, 0) ∷ [])
    × ((step (reports retried) (step (cancels 0) writing)).writers
        ≡ (retried, (step (cancels 0) writing).persistence.next_event) ∷ [])
unfolding step should_persist end_persist leave get pop
cancels-overlaps_example =
    cancels-overlaps 0 0 (report_at 60 15) retried writing writing-IsSound refl refl refl

abbrev growing : List Report
growing = report_at 60 11 ∷ report_at 170 11 ∷ report_at 180 14 ∷ []

count_writes-bound_example : IsPaid (count_writes growing persistence) 2 100 10 50 14 180
unfolding get
count_writes-bound_example =
    count_writes-bound ("1", "7") growing 10 50 14 180 persistence
      (record { idle = refl; sample = refl })
      (
        refl,
        refl,
        omega arith,
        omega arith,
        (
          refl,
          refl,
          omega arith,
          omega arith,
          (refl, refl, omega arith, omega arith, (omega arith, omega arith)),
        ),
      )

abbrev tracker : TransferProgressTracker
tracker = record { last_progress_at = []; downloaded_size = []; stalled = "b" ∷ [] }

consume_stalled-once_example :
    ((consume_stalled "b" (mark_stalled "b" tracker)).0 ≡ true)
    × ((consume_stalled "b" (consume_stalled "b" (mark_stalled "b" tracker)).1).0 ≡ false)
    × ((consume_stalled "b" (start "b" 4 tracker)).0 ≡ false)
    × ((consume_stalled "b" (clear_transfer "b" tracker)).0 ≡ false)
consume_stalled-once_example = consume_stalled-once "b" 4 tracker (refl, tt)
