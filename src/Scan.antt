-- ===== src/Scan.antt =====
-- module/channel_library_store.py: the scan jobs of the channel library, with the columns and the other
-- tables that their methods read and change. A method is one transaction, so one function; the clock is an
-- argument. `channel_scan_failures` and `channel_scan_repair_targets` are only read here: of their rows
-- remain the columns that are tested.
pub mod Controls
pub mod Jobs
pub mod Invariant
pub mod Laws
pub mod Transitions
pub mod Calls
pub mod Runs
pub mod Rows
pub mod Follows
mod Tests
use telegram_media_downloade.Prelude.{
  ℕ, Bool, true, false, ◌||◌, Option, none, some, String, List, [],
}

pub data ScanKind : Type 0 where
  full incremental repair : ScanKind

pub data ScanStatus : Type 0 where
  queued running paused_user auto_paused_download waiting_rate_limit : ScanStatus
  stopped completed partial failed : ScanStatus

pub data LibraryStatus : Type 0 where
  new indexing ready partial paused stopped failed : LibraryStatus

pub data Control : Type 0 where
  pause stop : Control

pub record Library : Type 0 where
  pub id : ℕ
  pub status : LibraryStatus
  pub fetched_through_message_id : ℕ
  pub indexed_through_message_id : ℕ
  pub index_revision : ℕ
  pub last_full_scan_at : Option ℕ
  pub last_incremental_scan_at : Option ℕ
  pub updated_at : ℕ

pub record ScanJob : Type 0 where
  pub id : ℕ
  pub library_id : ℕ
  pub kind : ScanKind
  pub status : ScanStatus
  pub snapshot_max_message_id : ℕ
  pub start_message_id : ℕ
  pub next_message_id : ℕ
  pub fetched_through_message_id : ℕ
  pub indexed_through_message_id : ℕ
  pub index_revision : ℕ
  pub retry_count : ℕ
  pub wait_until : Option ℕ
  pub wait_reason : Option String
  pub last_error : Option String
  pub control_requested : Option Control
  pub created_at : ℕ
  pub started_at : Option ℕ
  pub updated_at : ℕ
  pub completed_at : Option ℕ

-- A row of channel_scan_failures.
pub record ScanFailure : Type 0 where
  pub library_id : ℕ
  pub is_resolved : Bool

-- A row of channel_scan_repair_targets.
pub record RepairTarget : Type 0 where
  pub job_id : ℕ
  pub is_completed : Bool

pub record ScanStore : Type 0 where
  pub libraries : List Library
  pub jobs : List ScanJob
  pub failures : List ScanFailure
  pub targets : List RepairTarget
  pub next_job_id : ℕ

-- The `ValueError`s and `KeyError`s.
pub data ScanError : Type 0 where
  unsupported_kind invalid_range library_missing recoverable_job unfinished_full : ScanError
  unsupported_action job_missing not_running unsupported_status illegal_transition : ScanError
  other_runner before_deadline no_deadline below_snapshot open_targets open_failures : ScanError

pub data Reply {ℓ} (A : Type ℓ) : Type ℓ where
  returns : A → Reply A
  raises : ScanError → Reply A

abbrev pub is_running : ScanStatus → Bool
is_running running = true
is_running _ = false

abbrev pub is_queued : ScanStatus → Bool
is_queued queued = true
is_queued _ = false

abbrev pub is_paused : ScanStatus → Bool
is_paused paused_user = true
is_paused _ = false

abbrev pub is_stopped : ScanStatus → Bool
is_stopped ScanStatus.stopped = true
is_stopped _ = false

abbrev pub is_waiting : ScanStatus → Bool
is_waiting waiting_rate_limit = true
is_waiting _ = false

-- `status in ('completed', 'partial')`
abbrev pub is_finished : ScanStatus → Bool
is_finished completed = true
is_finished ScanStatus.partial = true
is_finished _ = false

abbrev pub is_completed : ScanStatus → Bool
is_completed completed = true
is_completed _ = false

-- `status in ('queued', 'running', 'paused_user', 'auto_paused_download', 'waiting_rate_limit', 'stopped')`
abbrev pub is_recoverable : ScanStatus → Bool
is_recoverable completed = false
is_recoverable ScanStatus.partial = false
is_recoverable ScanStatus.failed = false
is_recoverable _ = true

abbrev pub is_full : ScanKind → Bool
is_full full = true
is_full _ = false

abbrev pub is_incremental : ScanKind → Bool
is_incremental incremental = true
is_incremental _ = false

abbrev pub is_repair : ScanKind → Bool
is_repair repair = true
is_repair _ = false

-- `ALLOWED_SCAN_TRANSITIONS`
abbrev pub is_allowed : ScanStatus → ScanStatus → Bool
is_allowed queued t = elim t [
  | running ↦ true
  | paused_user ↦ true
  | ScanStatus.stopped ↦ true
  | ScanStatus.failed ↦ true
  | _ ↦ false
]
is_allowed running t = elim t [ running ↦ false | _ ↦ true ]
is_allowed auto_paused_download t = elim t [
  | queued ↦ true
  | paused_user ↦ true
  | ScanStatus.stopped ↦ true
  | ScanStatus.failed ↦ true
  | _ ↦ false
]
is_allowed waiting_rate_limit t = elim t [
  | queued ↦ true
  | paused_user ↦ true
  | ScanStatus.stopped ↦ true
  | ScanStatus.failed ↦ true
  | _ ↦ false
]
is_allowed paused_user t = elim t [ queued ↦ true | ScanStatus.stopped ↦ true | _ ↦ false ]
is_allowed ScanStatus.stopped t = is_queued t
is_allowed completed t = false
is_allowed ScanStatus.partial t = false
is_allowed ScanStatus.failed t = false
