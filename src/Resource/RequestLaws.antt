-- ===== src/Resource/RequestLaws.antt =====
-- The invariant and the request of a delivery.
use telegram_media_downloade.Prelude.{
  ℕ, suc, ◌≡◌, inl, inr, refl, Bool, true, false, none, String, List, [], ◌∷◌, map, arith,
  string_key, nat_key, elem, All, append-Distinct, Bool-cases, Option-cases, is_some, ◌==◌,
}
use telegram_media_downloade.Prelude.Int.{int_key}
use telegram_media_downloade.Rows.{select_one, update_where, delete_where}
use telegram_media_downloade.Rows.Laws.{map-append_one, elem-select_one, append-All, map-All}
use telegram_media_downloade.Resource.{ResourceUser, DeliveryJob, ResourceBotStore}
use telegram_media_downloade.Resource.Access.{is_user_active, get_binding}
use telegram_media_downloade.Resource.Deliveries.{
  NewJob, queued_job, insert_job, create_delivery_job, is_target,
}
use telegram_media_downloade.Resource.Invariant.{
  IsJobSound, AreJobsSound, IsSound, IsJobChange, update_jobs-AreJobsSound,
  delete_jobs-AreJobsSound, id_of, idempotency_of, public_of,
}

-- Sound jobs in a store that is otherwise the same.
jobs-IsSound :
    (s : ResourceBotStore) (jobs : List DeliveryJob)
    → IsSound s
    → AreJobsSound s.users s.next_job_id jobs
    → IsSound (record s { jobs = jobs })
jobs-IsSound s jobs x y = record { keys = x.keys; bindings = x.bindings; jobs = y }

-- An update of the jobs by a sound change.
pub changed-IsSound :
    (s : ResourceBotStore) (test : DeliveryJob → Bool) (change : DeliveryJob → DeliveryJob)
    → IsSound s
    → IsJobChange s.users s.next_job_id test change
    → IsSound (record s { jobs = update_where test change s.jobs })
changed-IsSound s test change x c =
    jobs-IsSound s (update_where test change s.jobs) x (update_jobs-AreJobsSound s.jobs c x.jobs)

pub deleted-IsSound :
    (s : ResourceBotStore) (test : DeliveryJob → Bool)
    → IsSound s
    → IsSound (record s { jobs = delete_where test s.jobs })
deleted-IsSound s test x =
    jobs-IsSound s (delete_where test s.jobs) x (delete_jobs-AreJobsSound test s.jobs x.jobs)

-- The ids of the jobs lie below the counter, so its value is no job's id.
fresh_id :
    (users : List ResourceUser) (next : ℕ) (jobs : List DeliveryJob)
    → All (IsJobSound users next) jobs
    → elem next (map id_of jobs) ≡ false
fresh_id users next [] h = refl
fresh_id users next (j ∷ js) h = ground (arith, fresh_id users next js h.1, h.0)

IsJobSound-suc :
    (users : List ResourceUser) (next : ℕ) (j : DeliveryJob)
    → IsJobSound users next j
    → IsJobSound users (suc next) j
IsJobSound-suc users next j h = (h.0, h.1, omega (arith, h.2))

insert_job-IsSound :
    (n : NewJob) (public_id : String) (now : ℕ) (s : ResourceBotStore)
    → is_user_active n.user_id s.users ≡ true
    → select_one (λ (j : DeliveryJob). j.idempotency_key == n.idempotency_key) s.jobs ≡ none
    → IsSound s
    → IsSound (insert_job n public_id now s).1
unfolding insert_job queued_job
insert_job-IsSound n public_id now s u f x =
    elim (Bool-cases
      (is_some (select_one (λ (j : DeliveryJob). j.public_id == public_id) s.jobs))) [
        | inl taken ↦ rw taken x
        | inr free ↦
            let job = queued_job n s.next_job_id public_id now in
            rw free (record {
              keys = x.keys;
              bindings = x.bindings;
              jobs = record {
                ids = rw (map-append_one id_of s.jobs job) (
                    append-Distinct s.next_job_id (map id_of s.jobs)
                      (fresh_id s.users s.next_job_id s.jobs x.jobs.sound) x.jobs.ids);
                idempotent = rw (map-append_one idempotency_of s.jobs job) (
                    append-Distinct n.idempotency_key (map idempotency_of s.jobs)
                      (elem-select_one idempotency_of n.idempotency_key s.jobs f)
                      x.jobs.idempotent);
                public_ids = rw (map-append_one public_of s.jobs job) (
                    append-Distinct public_id (map public_of s.jobs)
                      (elem-select_one public_of public_id s.jobs (ground (arith, free)))
                      x.jobs.public_ids);
                sound =
                    append-All (IsJobSound s.users (suc s.next_job_id)) s.jobs job
                      (map-All (IsJobSound s.users s.next_job_id)
                        (IsJobSound s.users (suc s.next_job_id)) s.jobs
                        (IsJobSound-suc s.users s.next_job_id) x.jobs.sound)
                      (inr u, inr (refl, refl), omega arith);
              };
            })
      ]

pub create_delivery_job-IsSound :
    (n : NewJob) (public_id : String) (now : ℕ) (s : ResourceBotStore)
    → IsSound s
    → IsSound (create_delivery_job n public_id now s).1
unfolding create_delivery_job
create_delivery_job-IsSound n public_id now s x = elim (Bool-cases (n.idempotency_key == "")) [
  | inl blank ↦ rw blank x
  | inr given ↦ elim (Bool-cases (is_user_active n.user_id s.users)) [
    | inr out ↦ rw (given, out) x
    | inl u ↦ elim (Bool-cases (is_target n.target_chat_id (get_binding n.user_id s))) [
      | inr elsewhere ↦ rw (given, u, elsewhere) x
      | inl there ↦
          elim (Option-cases
            (select_one (λ (j : DeliveryJob). j.idempotency_key == n.idempotency_key) s.jobs)) [
              | inl f ↦
                  rw (given, u, there, f, create_delivery_job)
                    (insert_job-IsSound n public_id now s u f x)
              | inr (j, e) ↦ rw (given, u, there, e, create_delivery_job) x
            ]
    ]
  ]
]
