-- ===== src/Resource/Life/Starts.antt =====
-- Requests and claims of deliveries as steps of the automaton.
use telegram_media_downloade.Prelude.{
  ℕ, ◌≡◌, refl, true, ◌&&◌, String, nat_beq, ◌==◌, string_key, inl, inr, Bool-cases, Option-cases,
  if-cases, arith,
}
use telegram_media_downloade.Prelude.Int.{int_key}
use telegram_media_downloade.Rows.{select_one, least}
use telegram_media_downloade.Resource.{JobStatus, DeliveryJob, ResourceBotStore, is_queued}
use telegram_media_downloade.Resource.Access.{is_user_active, get_binding}
use telegram_media_downloade.Resource.Deliveries.{
  NewJob, queued_job, insert_job, create_delivery_job, is_target, get_delivery_job, claimed,
  claim_row, claim_next_delivery_job, queued_jobs, is_before,
}
use telegram_media_downloade.Resource.Life.{◌⟶◌, starts, life, stays}
use telegram_media_downloade.Resource.Life.Changes.{Moves, update_where-Moves, append-found}

-- An answer with a store that a store moves to.
abbrev pub MovesTo {ℓ} : {A : Type ℓ} → ResourceBotStore → A × ResourceBotStore → Type 0
MovesTo s r = Moves s r.1

-- A queued job starts.
starts_queued : (s : JobStatus) → is_queued s ≡ true → s ⟶ JobStatus.downloading
starts_queued JobStatus.queued h = starts
starts_queued _ h = absurd (ground arith)

insert_job-Moves :
    (n : NewJob) (public_id : String) (now : ℕ) (s : ResourceBotStore)
    → MovesTo s (insert_job n public_id now s)
unfolding insert_job queued_job life get_delivery_job
insert_job-Moves n public_id now s =
    if-cases (MovesTo s) _ _ _ (λ e job_id. stays)
      (λ e job_id.
        append-found s.next_job_id (queued_job n s.next_job_id public_id now) refl refl job_id
          s.jobs)

pub create_delivery_job-Moves :
    (n : NewJob) (public_id : String) (now : ℕ) (s : ResourceBotStore)
    → MovesTo s (create_delivery_job n public_id now s)
unfolding create_delivery_job
create_delivery_job-Moves n public_id now s = elim (Bool-cases (n.idempotency_key == "")) [
  | inl blank ↦ rw blank (λ job_id. stays)
  | inr given ↦ elim (Bool-cases (is_user_active n.user_id s.users)) [
    | inr out ↦ rw (given, out) (λ job_id. stays)
    | inl u ↦ elim (Bool-cases (is_target n.target_chat_id (get_binding n.user_id s))) [
      | inr elsewhere ↦ rw (given, u, elsewhere) (λ job_id. stays)
      | inl there ↦
          elim (Option-cases
            (select_one (λ (j : DeliveryJob). j.idempotency_key == n.idempotency_key) s.jobs)) [
              | inl f ↦
                  rw (given, u, there, f, create_delivery_job) (insert_job-Moves n public_id now s)
              | inr (j, f) ↦ rw (given, u, there, f, create_delivery_job) (λ job_id. stays)
            ]
    ]
  ]
]

claim_row-Moves :
    (row : DeliveryJob) (now : ℕ) (s : ResourceBotStore) → MovesTo s (claim_row row now s)
unfolding claim_row
claim_row-Moves row now s =
    let next =
      update_where-Moves (λ j. nat_beq j.id row.id && is_queued j.status) (claimed now)
        (record {
          same_id = λ j. refl;
          same_job = λ j. refl;
          status = λ j e. starts_queued j.status (ground (arith, e));
        })
        s in
    if-cases (MovesTo s) _ _ _ (λ e. next) (λ e. next)

pub claim_next_delivery_job-Moves :
    (now : ℕ) (s : ResourceBotStore) → MovesTo s (claim_next_delivery_job now s)
unfolding claim_next_delivery_job
claim_next_delivery_job-Moves now s = elim (Option-cases (least is_before (queued_jobs s))) [
  | inl e ↦ rw (e, claim_next_delivery_job) (λ job_id. stays)
  | inr (row, e) ↦ rw (e, claim_next_delivery_job) (claim_row-Moves row now s)
]
