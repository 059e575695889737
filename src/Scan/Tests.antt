-- ===== src/Scan/Tests.antt =====
-- Calls on scan jobs at concrete values.
use telegram_media_downloade.Prelude.{
  ℕ, ◌≡◌, ◌≤◌, ◌||◌, refl, none, some, List, [], ◌∷◌, count, if◌then◌else◌,
}
use telegram_media_downloade.Prelude.Int.{pos}
use telegram_media_downloade.Rows.{select_one, select, update_where, least_from, least}
use telegram_media_downloade.Scan.{
  ScanStatus, LibraryStatus, pause, stop, Library, ScanJob, returns, full, running, paused_user,
  is_running,
}
use telegram_media_downloade.Scan.Controls.{
  get_job, new_job, insert_scan_job, create_scan_job, start_job, claim_next_job,
  consume_job_control, set_library_status,
}
use telegram_media_downloade.Scan.Calls.{
  Call, creates, claims, recovers, rewrites, after, run, no_jobs, request_all,
}
use telegram_media_downloade.Scan.Invariant.{IsSound}
use telegram_media_downloade.Scan.Runs.{run-no_jobs-IsSound, requests-consume, asks_stop, any_stop}
use telegram_media_downloade.Scan.Rows.{Follows}
use telegram_media_downloade.Scan.Follows.{after-Follows}

abbrev library : Library
library = record {
  id = 1;
  status = LibraryStatus.new;
  fetched_through_message_id = 0;
  indexed_through_message_id = 0;
  index_revision = 0;
  last_full_scan_at = none;
  last_incremental_scan_at = none;
  updated_at = 0;
}

-- A full scan of a library, which is running.
abbrev scanning : List (ℕ × Call)
scanning =
    (1, rewrites (library ∷ []) [] [])
    ∷ (2, creates 1 (some full) (pos 1) (pos 100))
    ∷ (3, claims)
    ∷ []

run-no_jobs-IsSound_example :
    IsSound (run scanning no_jobs)
    × (count (λ j. is_running j.status) (run scanning no_jobs).jobs ≤ 1)
run-no_jobs-IsSound_example = run-no_jobs-IsSound scanning

after-Follows_example : Follows (run scanning no_jobs) (after 4 recovers (run scanning no_jobs))
after-Follows_example = after-Follows 4 recovers (run scanning no_jobs)

abbrev scan : ScanJob
scan = record (new_job library full 1 100 2 1) {
  status = running;
  started_at = some 3;
  updated_at = 3;
}

requests-consume_example :
    (last : ScanJob) × (last ≡ record scan {
      status =
          if asks_stop scan.control_requested || any_stop ((4, stop) ∷ (5, pause) ∷ [])
          then ScanStatus.stopped
          else paused_user;
      control_requested = none;
      updated_at = 7;
    })
    × ((consume_job_control 1 7
          (request_all 1 ((4, stop) ∷ (5, pause) ∷ []) (run scanning no_jobs))).0
        ≡ returns (some last))
    × (get_job 1
          (consume_job_control 1 7
            (request_all 1 ((4, stop) ∷ (5, pause) ∷ []) (run scanning no_jobs))).1
        ≡ some last)
unfolding run after create_scan_job insert_scan_job new_job claim_next_job start_job get_job
    select_one select update_where least least_from set_library_status
requests-consume_example = requests-consume scanning 1 4 7 scan stop ((5, pause) ∷ []) refl refl
