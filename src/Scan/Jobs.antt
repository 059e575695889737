-- ===== src/Scan/Jobs.antt =====
-- `transition_job` and `recover_interrupted_jobs` of `ChannelLibraryStore`. A status outside
-- SCAN_JOB_STATUSES is none.
use telegram_media_downloade.Prelude.{
  ℕ, Bool, true, false, not, ◌&&◌, ◌||◌, Option, none, some, String, List, ltb, nat_beq, is_some,
  or_else, any, count, if◌then◌else◌,
}
use telegram_media_downloade.Rows.{update_where}
use telegram_media_downloade.Scan.{
  ScanStatus, LibraryStatus, Control, Library, ScanJob, ScanStore, ScanError, Reply, raises, queued,
  running, paused_user, waiting_rate_limit, auto_paused_download, completed, job_missing,
  unsupported_status, illegal_transition, other_runner, before_deadline, no_deadline,
  below_snapshot, open_targets, open_failures, is_running, is_queued, is_paused, is_stopped,
  is_waiting, is_finished, is_completed, is_recoverable, is_full, is_incremental, is_repair,
  is_allowed,
}
use telegram_media_downloade.Scan.Controls.{get_job, job_reply, status_after}

-- `deadline is not None and now < deadline`
abbrev pub is_early : ℕ → Option ℕ → Bool
is_early now none = false
is_early now (some deadline) = ltb now deadline

-- The error of the first check of `transition_job` that fails.
unfoldable pub transition_error : ScanJob → ScanStatus → ℕ → Option ℕ → ScanStore → Option ScanError
transition_error job new_status now wait_until s =
    if not (is_allowed job.status new_status)
    then some illegal_transition
    else if is_running new_status
        && any (λ j. is_running j.status && not (nat_beq j.id job.id)) s.jobs
    then some other_runner
    else if (is_queued new_status || is_running new_status) && is_early now job.wait_until
    then some before_deadline
    else if is_waiting new_status && not (is_some wait_until)
    then some no_deadline
    else if is_finished new_status
        && (ltb job.fetched_through_message_id job.snapshot_max_message_id
            || ltb job.indexed_through_message_id job.snapshot_max_message_id)
    then some below_snapshot
    else if (is_finished new_status && is_repair job.kind)
        && any (λ t. nat_beq t.job_id job.id && not t.is_completed) s.targets
    then some open_targets
    else if is_completed new_status
        && any (λ f. nat_beq f.library_id job.library_id && not f.is_resolved) s.failures
    then some open_failures
    else none

-- `next_wait_until` and `next_wait_reason`
abbrev pub next_wait {ℓ} : {A : Type ℓ} → ScanStatus → Option A → Option A → Option A
next_wait waiting_rate_limit given old = given
next_wait queued given old = none
next_wait _ given old = old

abbrev pub is_over : ScanStatus → Bool
is_over status = not (is_recoverable status)

abbrev pub transitioned :
    ScanStatus → ℕ → Option ℕ → Option String → Option String → ScanJob → ScanJob
transitioned new_status now wait_until wait_reason last_error j = record j {
  status = new_status;
  started_at = if is_running new_status then or_else j.started_at (some now) else j.started_at;
  updated_at = now;
  completed_at = if is_over new_status then some now else none;
  wait_until = next_wait new_status wait_until j.wait_until;
  wait_reason = next_wait new_status wait_reason j.wait_reason;
  last_error = or_else last_error j.last_error;
  control_requested = if is_running new_status then j.control_requested else none;
}

abbrev pub library_status_of : ScanStatus → LibraryStatus
library_status_of paused_user = LibraryStatus.paused
library_status_of ScanStatus.stopped = LibraryStatus.stopped
library_status_of completed = LibraryStatus.ready
library_status_of ScanStatus.partial = LibraryStatus.partial
library_status_of ScanStatus.failed = LibraryStatus.failed
library_status_of _ = LibraryStatus.indexing

abbrev pub finish_library : ScanJob → ScanStatus → ℕ → Library → Library
finish_library job new_status now l = record l {
  status = library_status_of new_status;
  last_full_scan_at =
      if is_full job.kind && is_finished new_status then some now else l.last_full_scan_at;
  last_incremental_scan_at =
      if is_incremental job.kind && is_finished new_status
      then some now
      else l.last_incremental_scan_at;
  updated_at = now;
}

-- What follows the lookup of the job.
unfoldable pub move_job :
    ScanJob
    → ScanStatus
    → ℕ
    → Option ℕ
    → Option String
    → Option String
    → ScanStore
    → Reply ScanJob × ScanStore
unfolding get_job transition_error
move_job job new_status now wait_until wait_reason last_error s =
    let next = record s {
      jobs =
          update_where (λ j. nat_beq j.id job.id)
            (transitioned new_status now wait_until wait_reason last_error) s.jobs;
      libraries =
          update_where (λ l. nat_beq l.id job.library_id) (finish_library job new_status now)
            s.libraries;
    } in
    elim (transition_error job new_status now wait_until s) [
      | some e ↦ (raises e, s)
      | none ↦ (job_reply (get_job job.id next), next)
    ]

unfoldable pub transition_job :
    ℕ
    → Option ScanStatus
    → ℕ
    → Option ℕ
    → Option String
    → Option String
    → ScanStore
    → Reply ScanJob × ScanStore
unfolding get_job move_job
transition_job job_id none now wait_until wait_reason last_error s = (raises unsupported_status, s)
transition_job job_id (some new_status) now wait_until wait_reason last_error s =
    elim (get_job job_id s) [
      | none ↦ (raises job_missing, s)
      | some job ↦ move_job job new_status now wait_until wait_reason last_error s
    ]

-- `status IN ('running', 'auto_paused_download') OR (status = 'waiting_rate_limit' AND …)`
abbrev pub is_interrupted : ℕ → ScanJob → Bool
is_interrupted now j = elim j.status [
  | running ↦ true
  | auto_paused_download ↦ true
  | waiting_rate_limit ↦ not (is_early now j.wait_until)
  | _ ↦ false
]

abbrev pub recovered_status : Option Control → ScanStatus
recovered_status none = queued
recovered_status (some action) = status_after action

abbrev pub recovered : ℕ → ScanJob → ScanJob
recovered now j = record j {
  status = recovered_status j.control_requested;
  control_requested = none;
  wait_until = if is_waiting j.status then none else j.wait_until;
  wait_reason = if is_waiting j.status then none else j.wait_reason;
  updated_at = now;
}

-- The libraries with a job of a status.
unfoldable pub restate_libraries :
    (ScanStatus → Bool) → LibraryStatus → ℕ → List ScanJob → List Library → List Library
restate_libraries test status now jobs libraries =
    update_where (λ l. any (λ (j : ScanJob). nat_beq j.library_id l.id && test j.status) jobs)
      (λ l. record l { status = status; updated_at = now }) libraries

unfoldable pub recover_interrupted_jobs : ℕ → ScanStore → ℕ × ScanStore
unfolding restate_libraries
recover_interrupted_jobs now s =
    let jobs = update_where (is_interrupted now) (recovered now) s.jobs in
    let indexing = restate_libraries is_queued LibraryStatus.indexing now jobs s.libraries in
    let paused = restate_libraries is_paused LibraryStatus.paused now jobs indexing in
    (
      count (is_interrupted now) s.jobs,
      record s {
        jobs = jobs;
        libraries = restate_libraries is_stopped LibraryStatus.stopped now jobs paused;
      },
    )
