-- ===== src/Resource.antt =====
-- module/resource_bot_store.py: `ResourceBotStore`, the activation keys, users, channel bindings and
-- delivery jobs of the resource bot. A method is one transaction, so one function; the clock and the
-- tokens that it draws are arguments. Texts come stripped; Telegram's ids are integers.
pub mod Access
pub mod Deliveries
pub mod Jobs
pub mod Calls
pub mod Invariant
pub mod RequestLaws
pub mod JobLaws
pub mod KeyLaws
pub mod AccessLaws
pub mod BindingLaws
pub mod Runs
pub mod Queue
pub mod Idempotence
pub mod Keys
pub mod KeyEffects
pub mod KeyRuns
pub mod Life
mod Tests
use telegram_media_downloade.Prelude.{ℕ, Bool, true, false, Option, none, some, String, List, []}
use telegram_media_downloade.Prelude.Int.{ℤ}

pub data KeyStatus : Type 0 where
  available redeemed revoked : KeyStatus

pub data UserStatus : Type 0 where
  active revoked : UserStatus

pub data BindingStatus : Type 0 where
  active permission_lost unbound : BindingStatus

pub data JobStatus : Type 0 where
  queued downloading uploading completed failed cancelled : JobStatus

pub record ActivationKey : Type 0 where
  pub id : ℕ
  pub key_hash : String
  pub key_prefix : String
  pub status : KeyStatus
  pub created_by : ℤ
  pub redeemed_by : Option ℤ
  pub created_at : ℕ
  pub redeemed_at : Option ℕ

pub record ResourceUser : Type 0 where
  pub telegram_user_id : ℤ
  pub status : UserStatus
  pub activation_key_id : ℕ
  pub activated_at : ℕ
  pub updated_at : ℕ
  pub revoked_at : Option ℕ

pub record ChannelBinding : Type 0 where
  pub telegram_user_id : ℤ
  pub chat_id : ℤ
  pub title : String
  pub username : Option String
  pub status : BindingStatus
  pub bound_at : ℕ
  pub updated_at : ℕ
  pub last_verified_at : ℕ

pub record DeliveryJob : Type 0 where
  pub id : ℕ
  pub public_id : String
  pub idempotency_key : String
  pub telegram_user_id : ℤ
  pub package_id : ℤ
  pub package_revision : ℤ
  pub target_chat_id : ℤ
  pub status : JobStatus
  pub total_items : ℕ
  pub downloaded_items : ℕ
  pub uploaded_items : ℕ
  pub download_speed : ℕ
  pub upload_speed : ℕ
  pub staging_manifest : Option String
  pub error_code : Option String
  pub error_summary : Option String
  pub created_at : ℕ
  pub started_at : Option ℕ
  pub updated_at : ℕ
  pub finished_at : Option ℕ

-- The four tables, and the next values of the two AUTOINCREMENT columns.
pub record ResourceBotStore : Type 0 where
  pub activation_keys : List ActivationKey
  pub users : List ResourceUser
  pub bindings : List ChannelBinding
  pub jobs : List DeliveryJob
  pub next_key_id : ℕ
  pub next_job_id : ℕ

abbrev pub empty_tables : ResourceBotStore
empty_tables = record {
  activation_keys = [];
  users = [];
  bindings = [];
  jobs = [];
  next_key_id = 1;
  next_job_id = 1;
}

-- The `ValueError`s and `KeyError`s, and sqlite3.IntegrityError.
pub data ResourceError : Type 0 where
  activation_required channel_already_bound channel_not_bound : ResourceError
  idempotency_key_required invalid_active_job_status delivery_job_not_active : ResourceError
  invalid_terminal_job_status job_missing delivery_job_not_queued : ResourceError
  delivery_job_not_terminal integrity_error : ResourceError

pub data Reply {ℓ} (A : Type ℓ) : Type ℓ where
  returns : A → Reply A
  raises : ResourceError → Reply A

abbrev pub is_available : KeyStatus → Bool
is_available available = true
is_available _ = false

abbrev pub is_active_status : UserStatus → Bool
is_active_status UserStatus.active = true
is_active_status _ = false

abbrev pub is_bound : BindingStatus → Bool
is_bound BindingStatus.active = true
is_bound _ = false

abbrev pub is_unbound : BindingStatus → Bool
is_unbound unbound = true
is_unbound _ = false

abbrev pub is_queued : JobStatus → Bool
is_queued queued = true
is_queued _ = false

-- `status in ACTIVE_JOB_STATUSES`
abbrev pub is_active_job : JobStatus → Bool
is_active_job downloading = true
is_active_job uploading = true
is_active_job _ = false

-- `status in TERMINAL_JOB_STATUSES`
abbrev pub is_terminal_job : JobStatus → Bool
is_terminal_job completed = true
is_terminal_job failed = true
is_terminal_job cancelled = true
is_terminal_job _ = false
