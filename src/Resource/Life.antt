-- ===== src/Resource/Life.antt =====
-- The life of a delivery job as an automaton.
pub mod Changes
pub mod Starts
pub mod Moves
pub mod Runs
use telegram_media_downloade.Prelude.{
  ℕ, ◌≡◌, refl, ◌∙◌, Bool, true, false, String, Option, none, some, ltb, ◌⊎◌, inl, inr, arith,
}
use telegram_media_downloade.Prelude.Int.{ℤ}
use telegram_media_downloade.Resource.{
  JobStatus, queued, downloading, DeliveryJob, ResourceBotStore, is_queued, is_active_job,
  is_terminal_job,
}
use telegram_media_downloade.Resource.Deliveries.{get_delivery_job}

-- How a status may change.
infix 40 ◌⟶◌
pub data ◌⟶◌ : JobStatus → JobStatus → Type 0 where
  rests : {s : JobStatus} → s ⟶ s
  starts : queued ⟶ downloading
  works : {s t : JobStatus} → is_active_job s ≡ true → is_active_job t ≡ true → s ⟶ t
  ends : {s t : JobStatus} → is_terminal_job s ≡ false → is_terminal_job t ≡ true → s ⟶ t

-- What a job keeps for life.
pub record Constants : Type 0 where
  pub public_id : String
  pub idempotency_key : String
  pub telegram_user_id : ℤ
  pub package_id : ℤ
  pub package_revision : ℤ
  pub target_chat_id : ℤ
  pub total_items : ℕ
  pub created_at : ℕ

abbrev pub constants_of : DeliveryJob → Constants
constants_of j = record {
  public_id = j.public_id;
  idempotency_key = j.idempotency_key;
  telegram_user_id = j.telegram_user_id;
  package_id = j.package_id;
  package_revision = j.package_revision;
  target_chat_id = j.target_chat_id;
  total_items = j.total_items;
  created_at = j.created_at;
}

abbrev pub IsSameJob : DeliveryJob → DeliveryJob → Type 0
IsSameJob j k = constants_of j ≡ constants_of k

-- What an id stands for: nothing yet, a job, or a job that was cleared.
pub data Life : Type 0 where
  unborn : Life
  alive : DeliveryJob → Life
  cleared : Life

abbrev pub life_of : Option DeliveryJob → Bool → Life
life_of (some j) used = alive j
life_of none true = cleared
life_of none false = unborn

unfoldable pub life : ℕ → ResourceBotStore → Life
life job_id s = life_of (get_delivery_job job_id s) (ltb job_id s.next_job_id)

infix 40 ◌⇒◌ ◌⇒*◌
pub data ◌⇒◌ : Life → Life → Type 0 where
  stays : {v : Life} → v ⇒ v
  is_created : {j : DeliveryJob} → is_queued j.status ≡ true → unborn ⇒ alive j
  moves : {j k : DeliveryJob} → IsSameJob j k → j.status ⟶ k.status → alive j ⇒ alive k
  is_cleared : {j : DeliveryJob} → is_terminal_job j.status ≡ true → alive j ⇒ cleared

pub data ◌⇒*◌ : Life → Life → Type 0 where
  here : {v : Life} → v ⇒* v
  then : {u v w : Life} → u ⇒ v → v ⇒* w → u ⇒* w

-- A job that is cleared, or has the status and the constants of a job.
abbrev pub IsFinal : DeliveryJob → Life → Type 0
IsFinal j unborn = false ≡ true
IsFinal j (alive k) = IsSameJob j k × (k.status ≡ j.status)
IsFinal j cleared = Unit
