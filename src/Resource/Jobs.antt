-- ===== src/Resource/Jobs.antt =====
-- The methods of `ResourceBotStore` that move, end, recover, cancel and clear delivery jobs, and their summary.
use telegram_media_downloade.Prelude.{
  ℕ, ◌+◌, Bool, true, false, not, ◌&&◌, Option, none, some, String, List, [], ◌∷◌, count, nat_beq,
  if◌then◌else◌, ◌==◌, string_key,
}
use telegram_media_downloade.Prelude.Int.{ℤ, clamp, int_key}
use telegram_media_downloade.Rows.{select_one, select, update_where, delete_where}
use telegram_media_downloade.Resource.{
  JobStatus, DeliveryJob, ResourceBotStore, Reply, returns, raises, failed, cancelled,
  invalid_active_job_status, delivery_job_not_active, invalid_terminal_job_status, job_missing,
  delivery_job_not_queued, delivery_job_not_terminal, is_queued, is_active_job, is_terminal_job,
}
use telegram_media_downloade.Resource.Deliveries.{get_delivery_job}

-- The arguments that are None are left out of the UPDATE.
pub record Progress : Type 0 where
  pub status : Option JobStatus
  pub downloaded_items : Option ℤ
  pub uploaded_items : Option ℤ
  pub download_speed : Option ℤ
  pub upload_speed : Option ℤ

abbrev pub assign_count : Option ℤ → ℕ → ℕ
assign_count none old = old
assign_count (some n) old = clamp n

abbrev pub assign_status : Option JobStatus → JobStatus → JobStatus
assign_status none old = old
assign_status (some status) old = status

abbrev pub is_invalid_active : Option JobStatus → Bool
is_invalid_active none = false
is_invalid_active (some status) = not (is_active_job status)

abbrev pub progressed : Progress → ℕ → DeliveryJob → DeliveryJob
progressed p now j = record j {
  updated_at = now;
  status = assign_status p.status j.status;
  downloaded_items = assign_count p.downloaded_items j.downloaded_items;
  uploaded_items = assign_count p.uploaded_items j.uploaded_items;
  download_speed = assign_count p.download_speed j.download_speed;
  upload_speed = assign_count p.upload_speed j.upload_speed;
}

-- The row that is read again after an UPDATE of it.
abbrev pub row_or_missing : Option DeliveryJob → Reply DeliveryJob
row_or_missing none = raises job_missing
row_or_missing (some j) = returns j

unfoldable pub update_job_progress :
    ℕ → Progress → ℕ → ResourceBotStore → Reply DeliveryJob × ResourceBotStore
unfolding get_delivery_job
update_job_progress job_id p now s =
    let test = λ (j : DeliveryJob). nat_beq j.id job_id && is_active_job j.status in
    let next = record s { jobs = update_where test (progressed p now) s.jobs } in
    if is_invalid_active p.status
    then (raises invalid_active_job_status, s)
    else if nat_beq (count test s.jobs) 1
    then (row_or_missing (get_delivery_job job_id next), next)
    else (raises delivery_job_not_active, s)

-- The manifest is its JSON text.
unfoldable pub set_staging_manifest : ℕ → String → ℕ → ResourceBotStore → ResourceBotStore
set_staging_manifest job_id payload now s = record s {
  jobs =
      update_where (λ j. nat_beq j.id job_id)
        (λ j. record j { staging_manifest = some payload; updated_at = now }) s.jobs;
}

unfoldable pub clear_staging_manifest : ℕ → ResourceBotStore → ResourceBotStore
clear_staging_manifest job_id s = record s {
  jobs = update_where (λ j. nat_beq j.id job_id) (λ j. record j { staging_manifest = none }) s.jobs;
}

abbrev pub ended : JobStatus → Option String → Option String → ℕ → DeliveryJob → DeliveryJob
ended status error_code error_summary now j = record j {
  status = status;
  error_code = error_code;
  error_summary = error_summary;
  download_speed = 0;
  upload_speed = 0;
  updated_at = now;
  finished_at = some now;
}

-- Where no row is updated, the job is read as it is.
unfoldable pub finish_delivery_job :
    ℕ
    → JobStatus
    → Option String
    → Option String
    → ℕ
    → ResourceBotStore
    → Reply DeliveryJob × ResourceBotStore
unfolding get_delivery_job
finish_delivery_job job_id status error_code error_summary now s =
    let test = λ (j : DeliveryJob). nat_beq j.id job_id && not (is_terminal_job j.status) in
    let next = record s {
      jobs = update_where test (ended status error_code error_summary now) s.jobs;
    } in
    if not (is_terminal_job status)
    then (raises invalid_terminal_job_status, s)
    else (row_or_missing (get_delivery_job job_id next), next)

unfoldable pub recover_interrupted_jobs : ℕ → ResourceBotStore → ℕ × ResourceBotStore
recover_interrupted_jobs now s = (
  count (λ j. is_active_job j.status) s.jobs,
  record s {
    jobs =
        update_where (λ j. is_active_job j.status)
          (ended failed (some "restart_interrupted")
            (some "Resource delivery was interrupted by restart") now)
          s.jobs;
  },
)

-- The UPDATE of the job that was found by its public id.
unfoldable pub cancel_row :
    DeliveryJob → ℕ → ResourceBotStore → Reply DeliveryJob × ResourceBotStore
unfolding get_delivery_job
cancel_row row now s =
    let next = record s {
      jobs =
          update_where (λ j. nat_beq j.id row.id && is_queued j.status)
            (ended cancelled (some "cancelled_by_admin")
              (some "Resource delivery was cancelled before start") now)
            s.jobs;
    } in
    if not (is_queued row.status)
    then (raises delivery_job_not_queued, s)
    else (row_or_missing (get_delivery_job row.id next), next)

unfoldable pub cancel_queued_delivery_job :
    String → ℕ → ResourceBotStore → Reply DeliveryJob × ResourceBotStore
unfolding cancel_row
cancel_queued_delivery_job public_id now s =
    elim (select_one (λ j. j.public_id == public_id) s.jobs) [
      | none ↦ (raises job_missing, s)
      | some row ↦ cancel_row row now s
    ]

-- The DELETE of the job that was found, whose row count is the answer.
unfoldable pub clear_row : DeliveryJob → String → ResourceBotStore → Reply Bool × ResourceBotStore
clear_row row public_id s =
    if not (is_terminal_job row.status) then (raises delivery_job_not_terminal, s) else (
      returns (nat_beq (count (λ j. j.public_id == public_id) s.jobs) 1),
      record s { jobs = delete_where (λ j. j.public_id == public_id) s.jobs },
    )

unfoldable pub clear_terminal_delivery_job :
    String → ResourceBotStore → Reply Bool × ResourceBotStore
unfolding clear_row
clear_terminal_delivery_job public_id s = elim (select_one (λ j. j.public_id == public_id) s.jobs) [
  | none ↦ (raises job_missing, s)
  | some row ↦ clear_row row public_id s
]

unfoldable pub clear_terminal_delivery_jobs : ResourceBotStore → ℕ × ResourceBotStore
clear_terminal_delivery_jobs s = (
  count (λ j. is_terminal_job j.status) s.jobs,
  record s { jobs = delete_where (λ j. is_terminal_job j.status) s.jobs },
)

-- `delivery_job_summary`: the counts of the statuses and the sums of the speeds.
pub record Summary : Type 0 where
  pub queued_count : ℕ
  pub active_count : ℕ
  pub completed_count : ℕ
  pub failed_count : ℕ
  pub cancelled_count : ℕ
  pub download_speed : ℕ
  pub upload_speed : ℕ

abbrev pub is_completed_job : JobStatus → Bool
is_completed_job JobStatus.completed = true
is_completed_job _ = false

abbrev pub is_failed_job : JobStatus → Bool
is_failed_job JobStatus.failed = true
is_failed_job _ = false

abbrev pub is_cancelled_job : JobStatus → Bool
is_cancelled_job JobStatus.cancelled = true
is_cancelled_job _ = false

abbrev pub total_of : (DeliveryJob → ℕ) → List DeliveryJob → ℕ
total_of speed [] = 0
total_of speed (j ∷ js) = speed j + total_of speed js

unfoldable pub delivery_job_summary : ResourceBotStore → Summary
delivery_job_summary s =
    let working = select (λ (j : DeliveryJob). is_active_job j.status) s.jobs in
    record {
      queued_count = count (λ j. is_queued j.status) s.jobs;
      active_count = count (λ j. is_active_job j.status) s.jobs;
      completed_count = count (λ j. is_completed_job j.status) s.jobs;
      failed_count = count (λ j. is_failed_job j.status) s.jobs;
      cancelled_count = count (λ j. is_cancelled_job j.status) s.jobs;
      download_speed = total_of (λ j. j.download_speed) working;
      upload_speed = total_of (λ j. j.upload_speed) working;
    }
