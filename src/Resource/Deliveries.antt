-- ===== src/Resource/Deliveries.antt =====
-- The methods of `ResourceBotStore` that request and claim a delivery job.
use telegram_media_downloade.Prelude.{
  ℕ, suc, Bool, true, false, not, ◌&&◌, ◌||◌, Option, none, some, String, List, [], ◌∷◌, ◌++◌,
  count, ltb, nat_beq, if◌then◌else◌, ◌==◌, string_key, is_some, or_else,
}
use telegram_media_downloade.Prelude.Int.{ℤ, clamp, int_key}
use telegram_media_downloade.Rows.{select_one, select, update_where, least}
use telegram_media_downloade.Resource.{
  ChannelBinding, DeliveryJob, ResourceBotStore, Reply, returns, raises, queued, downloading,
  activation_required, channel_not_bound, idempotency_key_required, integrity_error, is_bound,
  is_queued,
}
use telegram_media_downloade.Resource.Access.{is_user_active, get_binding}

-- The columns that the INSERT names.
pub record NewJob : Type 0 where
  pub idempotency_key : String
  pub user_id : ℤ
  pub package_id : ℤ
  pub package_revision : ℤ
  pub target_chat_id : ℤ
  pub total_items : ℤ

unfoldable pub queued_job : NewJob → ℕ → String → ℕ → DeliveryJob
queued_job n id public_id now = record {
  id = id;
  public_id = public_id;
  idempotency_key = n.idempotency_key;
  telegram_user_id = n.user_id;
  package_id = n.package_id;
  package_revision = n.package_revision;
  target_chat_id = n.target_chat_id;
  status = queued;
  total_items = clamp n.total_items;
  downloaded_items = 0;
  uploaded_items = 0;
  download_speed = 0;
  upload_speed = 0;
  staging_manifest = none;
  error_code = none;
  error_summary = none;
  created_at = now;
  started_at = none;
  updated_at = now;
  finished_at = none;
}

-- `binding["status"] == "active" and binding["chat_id"] == target_chat_id`
abbrev pub is_target : ℤ → Option ChannelBinding → Bool
is_target chat_id none = false
is_target chat_id (some b) = is_bound b.status && (b.chat_id == chat_id)

-- `public_id` is the token that is drawn; one that is there already breaks UNIQUE(public_id).
unfoldable pub insert_job :
    NewJob → String → ℕ → ResourceBotStore → Reply (DeliveryJob × Bool) × ResourceBotStore
unfolding queued_job
insert_job n public_id now s =
    let job = queued_job n s.next_job_id public_id now in
    if is_some (select_one (λ j. j.public_id == public_id) s.jobs)
    then (raises integrity_error, s)
    else (
      returns (job, true),
      record s { jobs = s.jobs ++ job ∷ []; next_job_id = suc s.next_job_id },
    )

unfoldable pub create_delivery_job :
    NewJob → String → ℕ → ResourceBotStore → Reply (DeliveryJob × Bool) × ResourceBotStore
unfolding insert_job
create_delivery_job n public_id now s =
    if n.idempotency_key == ""
    then (raises idempotency_key_required, s)
    else if not (is_user_active n.user_id s.users)
    then (raises activation_required, s)
    else if not (is_target n.target_chat_id (get_binding n.user_id s))
    then (raises channel_not_bound, s)
    else elim (select_one (λ j. j.idempotency_key == n.idempotency_key) s.jobs) [
      | some existing ↦ (returns (existing, false), s)
      | none ↦ insert_job n public_id now s
    ]

unfoldable pub get_delivery_job : ℕ → ResourceBotStore → Option DeliveryJob
get_delivery_job job_id s = select_one (λ j. nat_beq j.id job_id) s.jobs

-- `ORDER BY created_at, id`
abbrev pub is_before : DeliveryJob → DeliveryJob → Bool
is_before i j =
    ltb i.created_at j.created_at || (nat_beq i.created_at j.created_at && ltb i.id j.id)

-- `FROM resource_delivery_jobs WHERE status = 'queued'`, in no order yet.
unfoldable pub queued_jobs : ResourceBotStore → List DeliveryJob
queued_jobs s = select (λ j. is_queued j.status) s.jobs

abbrev pub claimed : ℕ → DeliveryJob → DeliveryJob
claimed now j = record j {
  status = downloading;
  started_at = or_else j.started_at (some now);
  updated_at = now;
  error_code = none;
  error_summary = none;
  download_speed = 0;
  upload_speed = 0;
}

-- The UPDATE of the row that was found, and the row that is read again.
unfoldable pub claim_row :
    DeliveryJob → ℕ → ResourceBotStore → Option DeliveryJob × ResourceBotStore
unfolding get_delivery_job
claim_row row now s =
    let test = λ (j : DeliveryJob). nat_beq j.id row.id && is_queued j.status in
    let next = record s { jobs = update_where test (claimed now) s.jobs } in
    if nat_beq (count test s.jobs) 1 then (get_delivery_job row.id next, next) else (none, next)

unfoldable pub claim_next_delivery_job :
    ℕ → ResourceBotStore → Option DeliveryJob × ResourceBotStore
unfolding queued_jobs claim_row
claim_next_delivery_job now s = elim (least is_before (queued_jobs s)) [
  | none ↦ (none, s)
  | some row ↦ claim_row row now s
]
