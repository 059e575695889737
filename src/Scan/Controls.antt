-- ===== src/Scan/Controls.antt =====
-- The methods of `ChannelLibraryStore` that create, control and claim a scan job. An argument that no
-- constant matches, such as a kind outside SCAN_JOB_KINDS, is none.
use telegram_media_downloade.Prelude.{
  ℕ, suc, max, Bool, not, ◌&&◌, ◌||◌, Option, none, some, String, List, [], ◌∷◌, ◌++◌, ltb, leb,
  nat_beq, or_else, any, if◌then◌else◌,
}
use telegram_media_downloade.Prelude.Int.{ℤ, pos}
use telegram_media_downloade.Rows.{select_one, select, update_where, least}
use telegram_media_downloade.Scan.{
  ScanKind, ScanStatus, LibraryStatus, Control, pause, stop, Library, ScanJob, ScanStore, Reply,
  returns, raises, queued, running, paused_user, unsupported_kind, invalid_range, library_missing,
  recoverable_job, unfinished_full, unsupported_action, job_missing, not_running, is_running,
  is_queued, is_finished, is_recoverable, is_full, is_incremental,
}

unfoldable pub get_job : ℕ → ScanStore → Option ScanJob
get_job job_id s = select_one (λ j. nat_beq j.id job_id) s.jobs

-- The row that is read again.
abbrev pub job_reply : Option ScanJob → Reply ScanJob
job_reply none = raises job_missing
job_reply (some j) = returns j

-- `UPDATE channel_libraries SET status = ?, updated_at = ? WHERE id = ?`
unfoldable pub set_library_status : ℕ → LibraryStatus → ℕ → List Library → List Library
set_library_status library_id status now libraries =
    update_where (λ l. nat_beq l.id library_id)
      (λ l. record l { status = status; updated_at = now }) libraries

-- `_insert_scan_job`, with the defaults of the table.
unfoldable pub new_job : Library → ScanKind → ℕ → ℕ → ℕ → ℕ → ScanJob
new_job library kind start snapshot now id = record {
  id = id;
  library_id = library.id;
  kind = kind;
  status = queued;
  snapshot_max_message_id = snapshot;
  start_message_id = start;
  next_message_id = max start (suc library.fetched_through_message_id);
  fetched_through_message_id = library.fetched_through_message_id;
  indexed_through_message_id = library.indexed_through_message_id;
  index_revision = library.index_revision;
  retry_count = 0;
  wait_until = none;
  wait_reason = none;
  last_error = none;
  control_requested = none;
  created_at = now;
  started_at = none;
  updated_at = now;
  completed_at = none;
}

-- Not `start_message_id < 1 or snapshot_max_message_id < start_message_id - 1`, with the two ids.
abbrev pub valid_range : ℤ → ℤ → Option (ℕ × ℕ)
valid_range (pos start) (pos snapshot) =
    if leb 1 start && leb start (suc snapshot) then some (start, snapshot) else none
valid_range _ _ = none

abbrev pub has_recoverable : ℕ → List ScanJob → Bool
has_recoverable library_id jobs =
    any (λ j. nat_beq j.library_id library_id && is_recoverable j.status) jobs

abbrev pub has_finished_full : ℕ → List ScanJob → Bool
has_finished_full library_id jobs =
    any (λ j. nat_beq j.library_id library_id && (is_full j.kind && is_finished j.status)) jobs

-- What follows the lookup of the library.
unfoldable pub insert_scan_job :
    Library → ScanKind → ℕ → ℕ → ℕ → ScanStore → Reply ScanJob × ScanStore
unfolding new_job set_library_status
insert_scan_job library kind start snapshot now s =
    let job = new_job library kind start snapshot now s.next_job_id in
    if has_recoverable library.id s.jobs
    then (raises recoverable_job, s)
    else if is_incremental kind && not (has_finished_full library.id s.jobs)
    then (raises unfinished_full, s)
    else (
      returns job,
      record s {
        jobs = s.jobs ++ job ∷ [];
        next_job_id = suc s.next_job_id;
        libraries = set_library_status library.id LibraryStatus.indexing now s.libraries;
      },
    )

unfoldable pub create_scan_job :
    ℕ → Option ScanKind → ℤ → ℤ → ℕ → ScanStore → Reply ScanJob × ScanStore
unfolding insert_scan_job
create_scan_job library_id none start snapshot now s = (raises unsupported_kind, s)
create_scan_job library_id (some kind) start snapshot now s = elim (valid_range start snapshot) [
  | none ↦ (raises invalid_range, s)
  | some (first, last) ↦ elim (select_one (λ (l : Library). nat_beq l.id library_id) s.libraries) [
    | none ↦ (raises library_missing, s)
    | some library ↦ insert_scan_job library kind first last now s
  ]
]

-- `"stop" if action == "stop" or job["control_requested"] == "stop" else "pause"`
abbrev pub requested : Control → Option Control → Control
requested stop old = stop
requested pause (some stop) = stop
requested pause _ = pause

-- An UPDATE of a job that has to be running.
unfoldable pub update_running : (ScanJob → ScanJob) → ℕ → ScanStore → Reply ScanJob × ScanStore
unfolding get_job
update_running change job_id s = elim (get_job job_id s) [
  | none ↦ (raises job_missing, s)
  | some job ↦
      let next = record s {
        jobs = update_where (λ j. nat_beq j.id job_id && is_running j.status) change s.jobs;
      } in
      if not (is_running job.status)
      then (raises not_running, s)
      else (job_reply (get_job job_id next), next)
]

-- The column is computed from the row that was read, which is the row that is updated.
unfoldable pub request_job_control : ℕ → Option Control → ℕ → ScanStore → Reply ScanJob × ScanStore
unfolding update_running
request_job_control job_id none now s = (raises unsupported_action, s)
request_job_control job_id (some action) now s =
    update_running
      (λ j. record j {
        control_requested = some (requested action j.control_requested);
        updated_at = now;
      })
      job_id s

unfoldable pub record_job_retry : ℕ → String → ℕ → ScanStore → Reply ScanJob × ScanStore
unfolding update_running
record_job_retry job_id last_error now s =
    update_running
      (λ j. record j {
        retry_count = suc j.retry_count;
        last_error = some last_error;
        updated_at = now;
      })
      job_id s

abbrev pub status_after : Control → ScanStatus
status_after pause = paused_user
status_after stop = ScanStatus.stopped

abbrev pub library_after : Control → LibraryStatus
library_after pause = LibraryStatus.paused
library_after stop = LibraryStatus.stopped

-- The two UPDATEs for the action that was requested.
unfoldable pub apply_control :
    Control → ScanJob → ℕ → ScanStore → Reply (Option ScanJob) × ScanStore
unfolding get_job set_library_status
apply_control action job now s =
    let next = record s {
      jobs =
          update_where (λ j. nat_beq j.id job.id && is_running j.status)
            (λ j. record j {
              status = status_after action;
              control_requested = none;
              updated_at = now;
            })
            s.jobs;
      libraries = set_library_status job.library_id (library_after action) now s.libraries;
    } in
    if not (is_running job.status)
    then (raises not_running, s)
    else (returns (get_job job.id next), next)

unfoldable pub consume_job_control : ℕ → ℕ → ScanStore → Reply (Option ScanJob) × ScanStore
unfolding get_job apply_control
consume_job_control job_id now s = elim (get_job job_id s) [
  | none ↦ (raises job_missing, s)
  | some job ↦ elim job.control_requested [
    | none ↦ (returns none, s)
    | some action ↦ apply_control action job now s
  ]
]

-- `ORDER BY created_at, id`
abbrev pub is_before : ScanJob → ScanJob → Bool
is_before i j =
    ltb i.created_at j.created_at || (nat_beq i.created_at j.created_at && ltb i.id j.id)

-- The two UPDATEs for the job that was found.
unfoldable pub start_job : ScanJob → ℕ → ScanStore → Option ScanJob × ScanStore
unfolding get_job set_library_status
start_job row now s =
    let next = record s {
      jobs =
          update_where (λ j. nat_beq j.id row.id && is_queued j.status)
            (λ j. record j {
              status = running;
              started_at = or_else j.started_at (some now);
              updated_at = now;
            })
            s.jobs;
      libraries = set_library_status row.library_id LibraryStatus.indexing now s.libraries;
    } in
    (get_job row.id next, next)

unfoldable pub claim_next_job : ℕ → ScanStore → Option ScanJob × ScanStore
unfolding start_job
claim_next_job now s =
    if any (λ j. is_running j.status) s.jobs
    then (none, s)
    else elim (least is_before (select (λ j. is_queued j.status) s.jobs)) [
      | none ↦ (none, s)
      | some row ↦ start_job row now s
    ]
