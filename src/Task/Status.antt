-- ===== src/Task/Status.antt =====
-- The status values of tasks and files, and the transition table. The code compares strings; here
-- each constant is a constructor, and `other` holds any other string.
use telegram_media_downloade.Prelude.{Bool, true, false, String}

pub data TaskStatus : Type 0 where
  created scanning waiting_confirmation queued downloading uploading : TaskStatus
  completed completed_with_errors cancelled failed : TaskStatus
  other : String → TaskStatus

-- `status in TERMINAL_TASK_STATUSES`
unfoldable pub is_terminal : TaskStatus → Bool
is_terminal completed = true
is_terminal completed_with_errors = true
is_terminal cancelled = true
is_terminal failed = true
is_terminal _ = false

-- `status in TASK_STATUSES`
unfoldable pub is_known : TaskStatus → Bool
is_known (other s) = false
is_known _ = true

-- `requested in ALLOWED_TASK_TRANSITIONS.get(current, set())`
unfoldable pub is_allowed : TaskStatus → TaskStatus → Bool
unfolding is_known
is_allowed created requested = is_known requested
is_allowed scanning requested = elim requested [
  | scanning ↦ true
  | waiting_confirmation ↦ true
  | queued ↦ true
  | cancelled ↦ true
  | failed ↦ true
  | _ ↦ false
]
is_allowed waiting_confirmation requested = elim requested [
  | waiting_confirmation ↦ true
  | queued ↦ true
  | cancelled ↦ true
  | failed ↦ true
  | _ ↦ false
]
is_allowed queued requested = elim requested [
  | created ↦ false
  | scanning ↦ false
  | waiting_confirmation ↦ false
  | other s ↦ false
  | _ ↦ true
]
is_allowed downloading requested = elim requested [
  | created ↦ false
  | scanning ↦ false
  | waiting_confirmation ↦ false
  | other s ↦ false
  | _ ↦ true
]
is_allowed uploading requested = elim requested [
  | created ↦ false
  | scanning ↦ false
  | waiting_confirmation ↦ false
  | other s ↦ false
  | _ ↦ true
]
is_allowed completed requested = elim requested [ completed ↦ true | _ ↦ false ]
is_allowed completed_with_errors requested = elim requested [
  | completed_with_errors ↦ true
  | _ ↦ false
]
is_allowed cancelled requested = elim requested [ cancelled ↦ true | _ ↦ false ]
is_allowed failed requested = elim requested [ failed ↦ true | _ ↦ false ]
is_allowed (other s) requested = false

-- `status in RETRYABLE_TASK_STATUSES`
unfoldable pub is_retryable : TaskStatus → Bool
is_retryable completed_with_errors = true
is_retryable failed = true
is_retryable _ = false

pub data FileStatus : Type 0 where
  queued downloading downloaded uploading uploaded upload_failed skipped failed : FileStatus
  other : String → FileStatus

-- `status in SUCCESS_FILE_STATUSES`, and so on.
unfoldable pub is_success : FileStatus → Bool
is_success FileStatus.downloaded = true
is_success FileStatus.uploaded = true
is_success _ = false

unfoldable pub is_failure : FileStatus → Bool
is_failure FileStatus.failed = true
is_failure FileStatus.upload_failed = true
is_failure _ = false

unfoldable pub is_skip : FileStatus → Bool
is_skip FileStatus.skipped = true
is_skip _ = false

unfoldable pub is_uploaded : FileStatus → Bool
is_uploaded FileStatus.uploaded = true
is_uploaded _ = false
