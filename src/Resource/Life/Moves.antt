-- ===== src/Resource/Life/Moves.antt =====
-- The methods as steps of the automaton.
use telegram_media_downloade.Prelude.{
  ℕ, ◌≡◌, refl, Bool, true, false, not, ◌&&◌, Option, none, some, String, List, [], ◌∷◌, nat_beq,
  is_some, ◌==◌, string_key, inl, inr, Option-cases, if-cases, arith, count,
}
use telegram_media_downloade.Prelude.Int.{ℤ, int_key}
use telegram_media_downloade.Rows.{select_one}
use telegram_media_downloade.Resource.{
  JobStatus, BindingStatus, ActivationKey, ResourceUser, DeliveryJob, ResourceBotStore, is_queued,
  is_active_job, is_terminal_job, is_available,
}
use telegram_media_downloade.Resource.Access.{
  create_activation_key, redeem_row, redeem_activation_key, revoke_user, is_user_active,
  bind_channel, mark_binding, unbind_channel,
}
use telegram_media_downloade.Resource.Deliveries.{get_delivery_job}
use telegram_media_downloade.Resource.Jobs.{
  Progress, progressed, is_invalid_active, update_job_progress, set_staging_manifest,
  clear_staging_manifest, ended, finish_delivery_job, recover_interrupted_jobs, cancel_row,
  cancel_queued_delivery_job, clear_row, clear_terminal_delivery_job, clear_terminal_delivery_jobs,
}
use telegram_media_downloade.Resource.Invariant.{IsSound}
use telegram_media_downloade.Resource.BindingLaws.{bind_channel-upserted}
use telegram_media_downloade.Resource.Life.{◌⟶◌, rests, works, ends, life, stays}
use telegram_media_downloade.Resource.Life.Changes.{
  Moves, IsMove, update_where-Moves, OnlyEnded, delete_where-Moves, OnlyEnded-public,
}
use telegram_media_downloade.Resource.Life.Starts.{MovesTo}

-- A job that is worked on is given a status of work.
progressed-⟶ :
    (job_id : ℕ) (p : Progress) (now : ℕ)
    → is_invalid_active p.status ≡ false
    → (j : DeliveryJob) → (nat_beq j.id job_id && is_active_job j.status) ≡ true
    → j.status ⟶ (progressed p now j).status
progressed-⟶ job_id p now fine j e = works (ground (arith, e)) (ground (arith, e, fine))

pub update_job_progress-Moves :
    (job_id : ℕ) (p : Progress) (now : ℕ) (s : ResourceBotStore)
    → MovesTo s (update_job_progress job_id p now s)
unfolding update_job_progress
update_job_progress-Moves job_id p now s =
    if-cases (MovesTo s) (is_invalid_active p.status) _ _ (λ e job_id. stays)
      (λ fine.
        if-cases (MovesTo s) _ _ _
          (λ e.
            update_where-Moves (λ j. nat_beq j.id job_id && is_active_job j.status)
              (progressed p now)
              (record {
                same_id = λ j. refl;
                same_job = λ j. refl;
                status = progressed-⟶ job_id p now fine;
              })
              s)
          (λ e job_id. stays))

pub set_staging_manifest-Moves :
    (job_id : ℕ) (payload : String) (now : ℕ) (s : ResourceBotStore)
    → Moves s (set_staging_manifest job_id payload now s)
unfolding set_staging_manifest
set_staging_manifest-Moves job_id payload now s =
    update_where-Moves (λ j. nat_beq j.id job_id)
      (λ j. record j { staging_manifest = some payload; updated_at = now })
      (record { same_id = λ j. refl; same_job = λ j. refl; status = λ j e. rests }) s

pub clear_staging_manifest-Moves :
    (job_id : ℕ) (s : ResourceBotStore) → Moves s (clear_staging_manifest job_id s)
unfolding clear_staging_manifest
clear_staging_manifest-Moves job_id s =
    update_where-Moves (λ j. nat_beq j.id job_id) (λ j. record j { staging_manifest = none })
      (record { same_id = λ j. refl; same_job = λ j. refl; status = λ j e. rests }) s

-- A job that has not ended ends.
ended-IsMove :
    (test : DeliveryJob → Bool) (status : JobStatus) (code summary : Option String) (now : ℕ)
    → is_terminal_job status ≡ true
    → ((j : DeliveryJob) → test j ≡ true → is_terminal_job j.status ≡ false)
    → IsMove test (ended status code summary now)
ended-IsMove test status code summary now over begun = record {
  same_id = λ j. refl;
  same_job = λ j. refl;
  status = λ j e. ends (begun j e) over;
}

pub finish_delivery_job-Moves :
    (job_id : ℕ) (status : JobStatus) (code summary : Option String) (now : ℕ)
    (s : ResourceBotStore)
    → MovesTo s (finish_delivery_job job_id status code summary now s)
unfolding finish_delivery_job
finish_delivery_job-Moves job_id status code summary now s =
    if-cases (MovesTo s) (not (is_terminal_job status)) _ _ (λ e job_id. stays)
      (λ over.
        update_where-Moves (λ j. nat_beq j.id job_id && not (is_terminal_job j.status)) _
          (ended-IsMove _ status code summary now (ground (arith, over)) (λ j e. ground (arith, e)))
          s)

pub recover_interrupted_jobs-Moves :
    (now : ℕ) (s : ResourceBotStore) → MovesTo s (recover_interrupted_jobs now s)
unfolding recover_interrupted_jobs
recover_interrupted_jobs-Moves now s =
    update_where-Moves (λ j. is_active_job j.status) _
      (ended-IsMove _ _ _ _ now refl (λ j e. ground (arith, e))) s

cancel_row-Moves :
    (row : DeliveryJob) (now : ℕ) (s : ResourceBotStore) → MovesTo s (cancel_row row now s)
unfolding cancel_row
cancel_row-Moves row now s =
    if-cases (MovesTo s) (not (is_queued row.status)) _ _ (λ e job_id. stays)
      (λ e.
        update_where-Moves (λ j. nat_beq j.id row.id && is_queued j.status) _
          (ended-IsMove _ _ _ _ now refl (λ j e. ground (arith, e))) s)

pub cancel_queued_delivery_job-Moves :
    (public_id : String) (now : ℕ) (s : ResourceBotStore)
    → MovesTo s (cancel_queued_delivery_job public_id now s)
unfolding cancel_queued_delivery_job
cancel_queued_delivery_job-Moves public_id now s =
    elim (Option-cases (select_one (λ (j : DeliveryJob). j.public_id == public_id) s.jobs)) [
      | inl e ↦ rw (e, cancel_queued_delivery_job) (λ job_id. stays)
      | inr (row, e) ↦ rw (e, cancel_queued_delivery_job) (cancel_row-Moves row now s)
    ]

clear_row-Moves :
    (row : DeliveryJob) (public_id : String) (s : ResourceBotStore)
    → IsSound s
    → select_one (λ (j : DeliveryJob). j.public_id == public_id) s.jobs ≡ some row
    → MovesTo s (clear_row row public_id s)
unfolding clear_row
clear_row-Moves row public_id s x found =
    if-cases (MovesTo s) (not (is_terminal_job row.status)) _ _ (λ e job_id. stays)
      (λ over.
        delete_where-Moves (λ j. j.public_id == public_id) s x
          (OnlyEnded-public public_id s row x found (ground (arith, over))))

pub clear_terminal_delivery_job-Moves :
    (public_id : String) (s : ResourceBotStore)
    → IsSound s
    → MovesTo s (clear_terminal_delivery_job public_id s)
unfolding clear_terminal_delivery_job
clear_terminal_delivery_job-Moves public_id s x =
    elim (Option-cases (select_one (λ (j : DeliveryJob). j.public_id == public_id) s.jobs)) [
      | inl e ↦ rw (e, clear_terminal_delivery_job) (λ job_id. stays)
      | inr (row, e) ↦ rw (e, clear_terminal_delivery_job) (clear_row-Moves row public_id s x e)
    ]

ended_only : (js : List DeliveryJob) → OnlyEnded (λ j. is_terminal_job j.status) js
ended_only [] = tt
ended_only (j ∷ js) = (λ e. e, ended_only js)

pub clear_terminal_delivery_jobs-Moves :
    (s : ResourceBotStore) → IsSound s → MovesTo s (clear_terminal_delivery_jobs s)
unfolding clear_terminal_delivery_jobs
clear_terminal_delivery_jobs-Moves s x =
    delete_where-Moves (λ j. is_terminal_job j.status) s x (ended_only s.jobs)

-- A revocation cancels the queued jobs of its user.
pub revoke_user-Moves :
    (user_id : ℤ) (now : ℕ) (s : ResourceBotStore) → MovesTo s (revoke_user user_id now s)
unfolding revoke_user life get_delivery_job
revoke_user-Moves user_id now s =
    if-cases (MovesTo s)
      (nat_beq (count (λ (u : ResourceUser). u.telegram_user_id == user_id) s.users) 0) _ _
      (λ e job_id. stays)
      (λ e.
        update_where-Moves (λ j. (j.telegram_user_id == user_id) && is_queued j.status) _
          (record {
            same_id = λ j. refl;
            same_job = λ j. refl;
            status = λ j e. ends (ground (arith, e)) refl;
          })
          s)

-- The other methods leave the jobs alone.
redeem_row-Moves :
    (row : ActivationKey) (user_id : ℤ) (now : ℕ) (s : ResourceBotStore)
    → MovesTo s (redeem_row row user_id now s)
unfolding redeem_row life get_delivery_job
redeem_row-Moves row user_id now s =
    if-cases (MovesTo s) _ _ _ (λ e job_id. stays) (λ e job_id. stays)

pub redeem_activation_key-Moves :
    (key_hash : String → String) (key : String) (user_id : ℤ) (now : ℕ) (s : ResourceBotStore)
    → MovesTo s (redeem_activation_key key_hash key user_id now s)
unfolding redeem_activation_key
redeem_activation_key-Moves key_hash key user_id now s =
    if-cases (MovesTo s) (key == "") _ _ (λ e job_id. stays)
      (λ e.
        elim (Option-cases (
          select_one (λ (k : ActivationKey). (k.key_hash == key_hash key) && is_available k.status)
            s.activation_keys)) [
              | inl f ↦ rw f (λ job_id. stays)
              | inr (row, f) ↦ rw f (redeem_row-Moves row user_id now s)
            ])

pub bind_channel-Moves :
    (user_id chat_id : ℤ) (title : String) (username : Option String) (now : ℕ)
    (s : ResourceBotStore)
    → IsSound s
    → MovesTo s (bind_channel user_id chat_id title username now s)
unfolding life get_delivery_job
bind_channel-Moves user_id chat_id title username now s x =
    rw (bind_channel-upserted user_id chat_id title username now s x) (
      if-cases (MovesTo s) (not (is_user_active user_id s.users)) _ _ (λ e job_id. stays)
        (λ e. if-cases (MovesTo s) _ _ _ (λ e job_id. stays) (λ e job_id. stays)))

pub mark_binding-Moves :
    (status : BindingStatus) (chat_id : ℤ) (now : ℕ) (s : ResourceBotStore)
    → MovesTo s (mark_binding status chat_id now s)
unfolding mark_binding life get_delivery_job
mark_binding-Moves status chat_id now s job_id = stays

pub unbind_channel-Moves :
    (user_id : ℤ) (now : ℕ) (s : ResourceBotStore) → MovesTo s (unbind_channel user_id now s)
unfolding unbind_channel life get_delivery_job
unbind_channel-Moves user_id now s job_id = stays

module _ (key_hash key_prefix : String → String) where
  pub create_activation_key-Moves :
      (draws : List String) (by : ℤ) (now : ℕ) (s : ResourceBotStore)
      → MovesTo s (create_activation_key key_hash key_prefix draws by now s)
  unfolding create_activation_key life get_delivery_job
  create_activation_key-Moves [] by now s = λ job_id. stays
  create_activation_key-Moves (key ∷ draws) by now s =
      if-cases (MovesTo s)
        (is_some (select_one (λ (k : ActivationKey). k.key_hash == key_hash key) s.activation_keys))
        _ _ (λ e. create_activation_key-Moves draws by now s) (λ e job_id. stays)
