-- ===== src/Resource/Idempotence.antt =====
-- A delivery is requested again with the same idempotency key.
use telegram_media_downloade.Prelude.{
  ℕ, ◌≡◌, refl, Bool, true, false, none, some, String, List, [], ◌∷◌, ◌++◌, is_some, ◌==◌, ==_refl,
  string_key, inl, inr, Bool-cases, Option-cases, arith,
}
use telegram_media_downloade.Prelude.Int.{int_key}
use telegram_media_downloade.Rows.{select_one}
use telegram_media_downloade.Resource.{DeliveryJob, ResourceBotStore, Reply, returns, raises}
use telegram_media_downloade.Resource.Access.{is_user_active, get_binding}
use telegram_media_downloade.Resource.Deliveries.{
  NewJob, queued_job, insert_job, create_delivery_job, is_target,
}

-- The row that an INSERT appends is found by a test that no row passed before.
select_one-append :
    (test : DeliveryJob → Bool) (js : List DeliveryJob) (job : DeliveryJob)
    → select_one test js ≡ none
    → test job ≡ true
    → select_one test (js ++ job ∷ []) ≡ some job
unfolding select_one
select_one-append test [] job e t = rw t refl
select_one-append test (j ∷ js) job e t = ground (arith, select_one-append test js job, e, t)

module _ (n : NewJob) (public_id later_id : String) (now later : ℕ) (s : ResourceBotStore) where
  -- The answer to the repeated request.
  abbrev pub Repeats : Reply (DeliveryJob × Bool) × ResourceBotStore → Type 0
  Repeats (returns (job, _), t) = create_delivery_job n later_id later t ≡ (returns (job, false), t)
  Repeats (raises _, t) = t ≡ s

  insert_job-Repeats :
      (n.idempotency_key == "") ≡ false
      → is_user_active n.user_id s.users ≡ true
      → is_target n.target_chat_id (get_binding n.user_id s) ≡ true
      → select_one (λ (j : DeliveryJob). j.idempotency_key == n.idempotency_key) s.jobs ≡ none
      → Repeats (insert_job n public_id now s)
  unfolding insert_job queued_job create_delivery_job get_binding
  insert_job-Repeats given u there f =
      elim (Bool-cases
        (is_some (select_one (λ (j : DeliveryJob). j.public_id == public_id) s.jobs))) [
          | inl taken ↦ rw taken refl
          | inr free ↦
              rw
                (
                  free,
                  given,
                  u,
                  there,
                  select_one-append (λ (j : DeliveryJob). j.idempotency_key == n.idempotency_key)
                      s.jobs (queued_job n s.next_job_id public_id now) f
                      (==_refl n.idempotency_key),
                )
                refl
        ]

  -- A request for a delivery that is answered, by a new job or by the one of its key, is answered with the same job
  -- when it is repeated at once, whatever public id is drawn then, and the repetition changes nothing; a
  -- request that is refused changes nothing.
  pub create_delivery_job-Repeats : Repeats (create_delivery_job n public_id now s)
  unfolding create_delivery_job
  create_delivery_job-Repeats = elim (Bool-cases (n.idempotency_key == "")) [
    | inl blank ↦ rw blank refl
    | inr given ↦ elim (Bool-cases (is_user_active n.user_id s.users)) [
      | inr out ↦ rw (given, out) refl
      | inl u ↦ elim (Bool-cases (is_target n.target_chat_id (get_binding n.user_id s))) [
        | inr elsewhere ↦ rw (given, u, elsewhere) refl
        | inl there ↦
            elim (Option-cases
              (select_one (λ (j : DeliveryJob). j.idempotency_key == n.idempotency_key) s.jobs)) [
                | inl f ↦
                    rw (given, u, there, f, create_delivery_job)
                      (insert_job-Repeats given u there f)
                | inr (j, f) ↦
                    rw (given, u, there, f, create_delivery_job) (rw (given, u, there, f) refl)
              ]
      ]
    ]
  ]
