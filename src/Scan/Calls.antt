-- ===== src/Scan/Calls.antt =====
-- The calls that change the state of the scan jobs, in the order in which SQLite admits them.
use telegram_media_downloade.Prelude.{ℕ, Option, some, String, List, [], ◌∷◌}
use telegram_media_downloade.Prelude.Int.{ℤ}
use telegram_media_downloade.Scan.{
  ScanKind, ScanStatus, Control, Library, ScanFailure, RepairTarget, ScanStore,
}
use telegram_media_downloade.Scan.Controls.{
  create_scan_job, request_job_control, record_job_retry, consume_job_control, claim_next_job,
}
use telegram_media_downloade.Scan.Jobs.{transition_job, recover_interrupted_jobs}

pub data Call : Type 0 where
  creates : ℕ → Option ScanKind → ℤ → ℤ → Call
  requests : ℕ → Option Control → Call
  consumes : ℕ → Call
  retries : ℕ → String → Call
  claims : Call
  transitions : ℕ → Option ScanStatus → Option ℕ → Option String → Option String → Call
  recovers : Call
  -- other methods write the other tables
  rewrites : List Library → List ScanFailure → List RepairTarget → Call

unfoldable pub after : ℕ → Call → ScanStore → ScanStore
after now (creates library kind start snapshot) s =
    (create_scan_job library kind start snapshot now s).1
after now (requests job action) s = (request_job_control job action now s).1
after now (consumes job) s = (consume_job_control job now s).1
after now (retries job error) s = (record_job_retry job error now s).1
after now claims s = (claim_next_job now s).1
after now (transitions job status until reason error) s =
    (transition_job job status now until reason error s).1
after now recovers s = (recover_interrupted_jobs now s).1
after now (rewrites libraries failures targets) s = record s {
  libraries = libraries;
  failures = failures;
  targets = targets;
}

unfoldable pub run : List (ℕ × Call) → ScanStore → ScanStore
run [] s = s
run ((now, c) ∷ calls) s = run calls (after now c s)

abbrev pub no_jobs : ScanStore
no_jobs = record { libraries = []; jobs = []; failures = []; targets = []; next_job_id = 1 }

-- `request_job_control` once for every action.
unfoldable pub request_all : ℕ → List (ℕ × Control) → ScanStore → ScanStore
request_all job_id [] s = s
request_all job_id ((now, action) ∷ actions) s =
    request_all job_id actions (request_job_control job_id (some action) now s).1
