-- ===== src/Resource/JobLaws.antt =====
-- The invariant and the methods that move, end and clear delivery jobs.
use telegram_media_downloade.Prelude.{
  ℕ, ◌≡◌, inl, inr, refl, Bool, true, false, not, ◌&&◌, Option, none, some, String, List, arith,
  string_key, nat_key, Option-cases, ◌==◌, nat_beq, if-cases,
}
use telegram_media_downloade.Prelude.Int.{int_key}
use telegram_media_downloade.Rows.{select_one, least}
use telegram_media_downloade.Resource.{
  JobStatus, ResourceUser, DeliveryJob, ResourceBotStore, is_queued, is_active_job, is_terminal_job,
}
use telegram_media_downloade.Resource.Deliveries.{
  claimed, claim_row, claim_next_delivery_job, queued_jobs, is_before,
}
use telegram_media_downloade.Resource.Jobs.{
  Progress, progressed, is_invalid_active, update_job_progress, set_staging_manifest,
  clear_staging_manifest, ended, finish_delivery_job, recover_interrupted_jobs, cancel_row,
  cancel_queued_delivery_job, clear_row, clear_terminal_delivery_job, clear_terminal_delivery_jobs,
}
use telegram_media_downloade.Resource.Invariant.{IsJobSound, IsSound, IsJobChange}
use telegram_media_downloade.Resource.RequestLaws.{changed-IsSound, deleted-IsSound}

-- The pair of an answer and a sound store.
abbrev HasSound {ℓ} : {A : Type ℓ} → A × ResourceBotStore → Type 0
HasSound r = IsSound r.1

claim_row-IsSound :
    (row : DeliveryJob) (now : ℕ) (s : ResourceBotStore)
    → IsSound s
    → IsSound (claim_row row now s).1
unfolding claim_row
claim_row-IsSound row now s x =
    let next =
      changed-IsSound s (λ j. nat_beq j.id row.id && is_queued j.status) (claimed now) x
        (record {
          same_id = λ j. refl;
          same_key = λ j. refl;
          same_public = λ j. refl;
          keeps = λ j e h. ground (arith, h);
        }) in
    if-cases HasSound _ _ _ (λ e. next) (λ e. next)

pub claim_next_delivery_job-IsSound :
    (now : ℕ) (s : ResourceBotStore) → IsSound s → IsSound (claim_next_delivery_job now s).1
unfolding claim_next_delivery_job claim_row
claim_next_delivery_job-IsSound now s x = elim (Option-cases (least is_before (queued_jobs s))) [
  | inl e ↦ rw (e, claim_next_delivery_job) x
  | inr (row, e) ↦ rw (e, claim_next_delivery_job) (claim_row-IsSound row now s x)
]

progressed-IsJobSound :
    (job_id : ℕ) (p : Progress) (now : ℕ) (users : List ResourceUser) (next : ℕ)
    → is_invalid_active p.status ≡ false
    → (j : DeliveryJob) → (nat_beq j.id job_id && is_active_job j.status) ≡ true
    → IsJobSound users next j
    → IsJobSound users next (progressed p now j)
progressed-IsJobSound job_id p now users next fine j e h = ground (arith, h)

pub update_job_progress-IsSound :
    (job_id : ℕ) (p : Progress) (now : ℕ) (s : ResourceBotStore)
    → IsSound s
    → IsSound (update_job_progress job_id p now s).1
unfolding update_job_progress
update_job_progress-IsSound job_id p now s x =
    if-cases HasSound (is_invalid_active p.status) _ _ (λ e. x)
      (λ fine.
        if-cases HasSound _ _ _
          (λ e.
            changed-IsSound s (λ j. nat_beq j.id job_id && is_active_job j.status)
              (progressed p now) x
              (record {
                same_id = λ j. refl;
                same_key = λ j. refl;
                same_public = λ j. refl;
                keeps = progressed-IsJobSound job_id p now s.users s.next_job_id fine;
              }))
          (λ e. x))

pub set_staging_manifest-IsSound :
    (job_id : ℕ) (payload : String) (now : ℕ) (s : ResourceBotStore)
    → IsSound s
    → IsSound (set_staging_manifest job_id payload now s)
unfolding set_staging_manifest
set_staging_manifest-IsSound job_id payload now s x =
    changed-IsSound s (λ j. nat_beq j.id job_id)
      (λ j. record j { staging_manifest = some payload; updated_at = now }) x
      (record {
        same_id = λ j. refl;
        same_key = λ j. refl;
        same_public = λ j. refl;
        keeps = λ j e h. h;
      })

pub clear_staging_manifest-IsSound :
    (job_id : ℕ) (s : ResourceBotStore) → IsSound s → IsSound (clear_staging_manifest job_id s)
unfolding clear_staging_manifest
clear_staging_manifest-IsSound job_id s x =
    changed-IsSound s (λ j. nat_beq j.id job_id) (λ j. record j { staging_manifest = none }) x
      (record {
        same_id = λ j. refl;
        same_key = λ j. refl;
        same_public = λ j. refl;
        keeps = λ j e h. h;
      })

-- A job that ends is neither queued nor worked on, and has no speed.
ended-IsJobChange :
    (users : List ResourceUser) (next : ℕ) (test : DeliveryJob → Bool) (status : JobStatus)
    (code summary : Option String) (now : ℕ)
    → is_terminal_job status ≡ true
    → IsJobChange users next test (ended status code summary now)
ended-IsJobChange users next test status code summary now over = record {
  same_id = λ j. refl;
  same_key = λ j. refl;
  same_public = λ j. refl;
  keeps = λ j e h. (inl (ground (arith, over)), inr (refl, refl), h.2);
}

pub finish_delivery_job-IsSound :
    (job_id : ℕ) (status : JobStatus) (code summary : Option String) (now : ℕ)
    (s : ResourceBotStore)
    → IsSound s
    → IsSound (finish_delivery_job job_id status code summary now s).1
unfolding finish_delivery_job
finish_delivery_job-IsSound job_id status code summary now s x =
    if-cases HasSound (not (is_terminal_job status)) _ _ (λ e. x)
      (λ over.
        changed-IsSound s (λ j. nat_beq j.id job_id && not (is_terminal_job j.status))
          (ended status code summary now) x
          (ended-IsJobChange s.users s.next_job_id _ status code summary now
            (ground (arith, over))))

pub recover_interrupted_jobs-IsSound :
    (now : ℕ) (s : ResourceBotStore) → IsSound s → IsSound (recover_interrupted_jobs now s).1
unfolding recover_interrupted_jobs
recover_interrupted_jobs-IsSound now s x =
    changed-IsSound s (λ j. is_active_job j.status) _ x
      (ended-IsJobChange s.users s.next_job_id _ _ _ _ now refl)

cancel_row-IsSound :
    (row : DeliveryJob) (now : ℕ) (s : ResourceBotStore)
    → IsSound s
    → IsSound (cancel_row row now s).1
unfolding cancel_row
cancel_row-IsSound row now s x =
    if-cases HasSound (not (is_queued row.status)) _ _ (λ e. x)
      (λ e.
        changed-IsSound s (λ j. nat_beq j.id row.id && is_queued j.status) _ x
          (ended-IsJobChange s.users s.next_job_id _ _ _ _ now refl))

pub cancel_queued_delivery_job-IsSound :
    (public_id : String) (now : ℕ) (s : ResourceBotStore)
    → IsSound s
    → IsSound (cancel_queued_delivery_job public_id now s).1
unfolding cancel_queued_delivery_job
cancel_queued_delivery_job-IsSound public_id now s x =
    elim (Option-cases (select_one (λ (j : DeliveryJob). j.public_id == public_id) s.jobs)) [
      | inl e ↦ rw (e, cancel_queued_delivery_job) x
      | inr (row, e) ↦ rw (e, cancel_queued_delivery_job) (cancel_row-IsSound row now s x)
    ]

clear_row-IsSound :
    (row : DeliveryJob) (public_id : String) (s : ResourceBotStore)
    → IsSound s
    → IsSound (clear_row row public_id s).1
unfolding clear_row
clear_row-IsSound row public_id s x =
    if-cases HasSound (not (is_terminal_job row.status)) _ _ (λ e. x)
      (λ e. deleted-IsSound s (λ j. j.public_id == public_id) x)

pub clear_terminal_delivery_job-IsSound :
    (public_id : String) (s : ResourceBotStore)
    → IsSound s
    → IsSound (clear_terminal_delivery_job public_id s).1
unfolding clear_terminal_delivery_job clear_row
clear_terminal_delivery_job-IsSound public_id s x =
    elim (Option-cases (select_one (λ (j : DeliveryJob). j.public_id == public_id) s.jobs)) [
      | inl e ↦ rw (e, clear_terminal_delivery_job) x
      | inr (row, e) ↦ rw (e, clear_terminal_delivery_job) (clear_row-IsSound row public_id s x)
    ]

pub clear_terminal_delivery_jobs-IsSound :
    (s : ResourceBotStore) → IsSound s → IsSound (clear_terminal_delivery_jobs s).1
unfolding clear_terminal_delivery_jobs
clear_terminal_delivery_jobs-IsSound s x = deleted-IsSound s (λ j. is_terminal_job j.status) x
