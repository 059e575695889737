-- ===== src/Resource/KeyEffects.antt =====
-- The activation keys after methods on the other tables.
use telegram_media_downloade.Prelude.{
  ℕ, ◌≡◌, refl, not, Option, String, nat_beq, ◌==◌, string_key, inl, inr, Bool-cases, Option-cases,
  if-cases, count,
}
use telegram_media_downloade.Prelude.Int.{ℤ, int_key}
use telegram_media_downloade.Rows.{select_one, least}
use telegram_media_downloade.Resource.{
  JobStatus, ResourceUser, DeliveryJob, ResourceBotStore, is_queued, is_terminal_job,
}
use telegram_media_downloade.Resource.Access.{
  revoke_user, is_user_active, bind_channel, get_binding,
}
use telegram_media_downloade.Resource.Deliveries.{
  NewJob, insert_job, create_delivery_job, claim_next_delivery_job, claim_row, is_target, is_before,
  queued_jobs,
}
use telegram_media_downloade.Resource.Jobs.{
  Progress, update_job_progress, is_invalid_active, finish_delivery_job, cancel_row,
  cancel_queued_delivery_job, clear_row, clear_terminal_delivery_job,
}
use telegram_media_downloade.Resource.Invariant.{IsSound}
use telegram_media_downloade.Resource.BindingLaws.{bind_channel-upserted}

-- The keys of the store that a call leaves.
abbrev KeepsKeys {ℓ} : {A : Type ℓ} → ResourceBotStore → A × ResourceBotStore → Type 0
KeepsKeys s r = r.1.activation_keys ≡ s.activation_keys

insert_job-keys :
    (n : NewJob) (public_id : String) (now : ℕ) (s : ResourceBotStore)
    → KeepsKeys s (insert_job n public_id now s)
unfolding insert_job
insert_job-keys n public_id now s = if-cases (KeepsKeys s) _ _ _ (λ e. refl) (λ e. refl)

pub create_delivery_job-keys :
    (n : NewJob) (public_id : String) (now : ℕ) (s : ResourceBotStore)
    → KeepsKeys s (create_delivery_job n public_id now s)
unfolding create_delivery_job
create_delivery_job-keys n public_id now s = elim (Bool-cases (n.idempotency_key == "")) [
  | inl blank ↦ rw blank refl
  | inr given ↦ elim (Bool-cases (is_user_active n.user_id s.users)) [
    | inr out ↦ rw (given, out) refl
    | inl u ↦ elim (Bool-cases (is_target n.target_chat_id (get_binding n.user_id s))) [
      | inr elsewhere ↦ rw (given, u, elsewhere) refl
      | inl there ↦
          elim (Option-cases
            (select_one (λ (j : DeliveryJob). j.idempotency_key == n.idempotency_key) s.jobs)) [
              | inl f ↦
                  rw (given, u, there, f, create_delivery_job) (insert_job-keys n public_id now s)
              | inr (j, f) ↦ rw (given, u, there, f, create_delivery_job) refl
            ]
    ]
  ]
]

pub claim_next_delivery_job-keys :
    (now : ℕ) (s : ResourceBotStore) → KeepsKeys s (claim_next_delivery_job now s)
unfolding claim_next_delivery_job claim_row
claim_next_delivery_job-keys now s = elim (Option-cases (least is_before (queued_jobs s))) [
  | inl e ↦ rw (e, claim_next_delivery_job) refl
  | inr (row, e) ↦
      rw (e, claim_next_delivery_job, claim_row)
        (if-cases (KeepsKeys s) _ _ _ (λ e. refl) (λ e. refl))
]

pub update_job_progress-keys :
    (job_id : ℕ) (p : Progress) (now : ℕ) (s : ResourceBotStore)
    → KeepsKeys s (update_job_progress job_id p now s)
unfolding update_job_progress
update_job_progress-keys job_id p now s =
    if-cases (KeepsKeys s) (is_invalid_active p.status) _ _ (λ e. refl)
      (λ fine. if-cases (KeepsKeys s) _ _ _ (λ e. refl) (λ e. refl))

pub finish_delivery_job-keys :
    (job_id : ℕ) (status : JobStatus) (code summary : Option String) (now : ℕ)
    (s : ResourceBotStore)
    → KeepsKeys s (finish_delivery_job job_id status code summary now s)
unfolding finish_delivery_job
finish_delivery_job-keys job_id status code summary now s =
    if-cases (KeepsKeys s) (not (is_terminal_job status)) _ _ (λ e. refl) (λ e. refl)

pub cancel_queued_delivery_job-keys :
    (public_id : String) (now : ℕ) (s : ResourceBotStore)
    → KeepsKeys s (cancel_queued_delivery_job public_id now s)
unfolding cancel_queued_delivery_job cancel_row
cancel_queued_delivery_job-keys public_id now s =
    elim (Option-cases (select_one (λ (j : DeliveryJob). j.public_id == public_id) s.jobs)) [
      | inl e ↦ rw (e, cancel_queued_delivery_job) refl
      | inr (row, e) ↦
          rw (e, cancel_queued_delivery_job, cancel_row)
            (if-cases (KeepsKeys s) (not (is_queued row.status)) _ _ (λ e. refl) (λ e. refl))
    ]

pub clear_terminal_delivery_job-keys :
    (public_id : String) (s : ResourceBotStore)
    → KeepsKeys s (clear_terminal_delivery_job public_id s)
unfolding clear_terminal_delivery_job clear_row
clear_terminal_delivery_job-keys public_id s =
    elim (Option-cases (select_one (λ (j : DeliveryJob). j.public_id == public_id) s.jobs)) [
      | inl e ↦ rw (e, clear_terminal_delivery_job) refl
      | inr (row, e) ↦
          rw (e, clear_terminal_delivery_job, clear_row)
            (if-cases (KeepsKeys s) (not (is_terminal_job row.status)) _ _ (λ e. refl) (λ e. refl))
    ]

pub revoke_user-keys :
    (user_id : ℤ) (now : ℕ) (s : ResourceBotStore) → KeepsKeys s (revoke_user user_id now s)
unfolding revoke_user
revoke_user-keys user_id now s =
    if-cases (KeepsKeys s)
      (nat_beq (count (λ (u : ResourceUser). u.telegram_user_id == user_id) s.users) 0) _ _
      (λ e. refl) (λ e. refl)

pub bind_channel-keys :
    (user_id chat_id : ℤ) (title : String) (username : Option String) (now : ℕ)
    (s : ResourceBotStore)
    → IsSound s
    → KeepsKeys s (bind_channel user_id chat_id title username now s)
bind_channel-keys user_id chat_id title username now s x =
    rw (bind_channel-upserted user_id chat_id title username now s x) (
      if-cases (KeepsKeys s) (not (is_user_active user_id s.users)) _ _ (λ e. refl)
        (λ e. if-cases (KeepsKeys s) _ _ _ (λ e. refl) (λ e. refl)))
