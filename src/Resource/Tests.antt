-- ===== src/Resource/Tests.antt =====
-- Calls of the resource bot's store at concrete values; a key is its own digest.
use telegram_media_downloade.Prelude.{
  ℕ, nat_beq, ◌≡◌, refl, true, false, none, some, String, List, [], ◌∷◌, ◌⊎◌,
}
use telegram_media_downloade.Prelude.Int.{ℤ, pos, negsuc}
use telegram_media_downloade.Rows.{select_one, select, update_where, least_from, least}
use telegram_media_downloade.Resource.{JobStatus, DeliveryJob, empty_tables, is_queued}
use telegram_media_downloade.Resource.Access.{
  create_activation_key, redeem_row, redeem_activation_key, upsert_user, bind_channel,
  is_user_active, get_user, free_channel, upsert_binding, get_binding,
}
use telegram_media_downloade.Resource.Deliveries.{
  NewJob, queued_job, insert_job, create_delivery_job, claim_row, claimed, claim_next_delivery_job,
  get_delivery_job, queued_jobs,
}
use telegram_media_downloade.Resource.Jobs.{finish_delivery_job}
use telegram_media_downloade.Resource.Calls.{
  Call, creates_key, redeems, revokes, binds, creates_job, claims, finishes, clears_job, after, run,
}
use telegram_media_downloade.Resource.Invariant.{IsSound}
use telegram_media_downloade.Resource.Runs.{run-empty_tables-IsSound}
use telegram_media_downloade.Resource.Queue.{IsFirst, claim_next_delivery_job-IsFirst}
use telegram_media_downloade.Resource.KeyRuns.{redeem_activation_key-once}
use telegram_media_downloade.Resource.Idempotence.{Repeats, create_delivery_job-Repeats}
use telegram_media_downloade.Resource.Life.{life, ◌⇒◌, IsFinal}
use telegram_media_downloade.Resource.Life.Runs.{after-⇒, run-IsFinal}

abbrev same : String → String
same key = key

abbrev user : ℤ
user = pos 7

abbrev channel : ℤ
channel = negsuc 99

abbrev request : String → NewJob
request key = record {
  idempotency_key = key;
  user_id = user;
  package_id = pos 1;
  package_revision = pos 1;
  target_chat_id = channel;
  total_items = pos 2;
}

-- A user with a channel, two requests, and a third that comes after the user is revoked.
abbrev opened : List (ℕ × Call)
opened =
    (1, creates_key ("k" ∷ []) (pos 1))
    ∷ (2, redeems "k" user)
    ∷ (3, binds user channel "mine" none)
    ∷ (5, creates_job (request "b") "p1")
    ∷ (4, creates_job (request "a") "p2")
    ∷ []

abbrev delivered : List (ℕ × Call)
delivered =
    (1, creates_key ("k" ∷ []) (pos 1))
    ∷ (2, redeems "k" user)
    ∷ (3, binds user channel "mine" none)
    ∷ (5, creates_job (request "b") "p1")
    ∷ (6, claims)
    ∷ (7, finishes 1 JobStatus.completed none none)
    ∷ []

run-empty_tables-IsSound_example : IsSound (run same same opened empty_tables)
run-empty_tables-IsSound_example = run-empty_tables-IsSound same same opened

after-⇒_example :
    life 2 (run same same opened empty_tables)
    ⇒ life 2 (after same same 6 claims (run same same opened empty_tables))
after-⇒_example = after-⇒ same same opened 6 claims 2

claim_next_delivery_job-IsFirst_example :
    ((queued_jobs (run same same opened empty_tables) ≡ [])
      × (claim_next_delivery_job 6 (run same same opened empty_tables)
          ≡ (none, run same same opened empty_tables)))
    ⊎ ((row : DeliveryJob) × (get_delivery_job row.id (run same same opened empty_tables)
          ≡ some row)
        × (is_queued row.status ≡ true)
        × IsFirst (queued_jobs (run same same opened empty_tables)) row
        × (claim_next_delivery_job 6 (run same same opened empty_tables) ≡ (
          some (claimed 6 row),
          record (run same same opened empty_tables) {
            jobs =
                update_where
                  (λ j. nat_beq j.id row.id)
                  (claimed 6)
                  (run same same opened empty_tables).jobs;
          },
        )))
claim_next_delivery_job-IsFirst_example =
    claim_next_delivery_job-IsFirst 6 (run same same opened empty_tables)
      (run-empty_tables-IsSound same same opened)

-- The job that was delivered, in all its columns.
abbrev done : DeliveryJob
done = record (queued_job (request "b") 1 "p1" 5) {
  status = JobStatus.completed;
  started_at = some 6;
  updated_at = 7;
  finished_at = some 7;
}

run-IsFinal_example : IsFinal done (
    life 1 (
      run same same
        ((8, revokes user) ∷ (9, clears_job "p1") ∷ [])
        (run same same delivered empty_tables)))
unfolding queued_job run after life get_delivery_job create_activation_key redeem_activation_key
    redeem_row upsert_user bind_channel is_user_active get_user free_channel upsert_binding
    create_delivery_job insert_job get_binding claim_next_delivery_job claim_row queued_jobs
    finish_delivery_job select_one select update_where least least_from
run-IsFinal_example =
    run-IsFinal same same delivered ((8, revokes user) ∷ (9, clears_job "p1") ∷ []) 1 done refl refl

redeem_activation_key-once_example :
    redeem_activation_key same "k" (pos 8) 9 (
      run same same
        ((5, revokes user) ∷ [])
        (redeem_activation_key same "k" user 2
          (run same same ((1, creates_key ("k" ∷ []) (pos 1)) ∷ []) empty_tables)).1)
    ≡ (
      false,
      run same same
          ((5, revokes user) ∷ [])
          (redeem_activation_key same "k" user 2
            (run same same ((1, creates_key ("k" ∷ []) (pos 1)) ∷ []) empty_tables)).1,
    )
unfolding run after create_activation_key redeem_activation_key redeem_row select_one
redeem_activation_key-once_example =
    redeem_activation_key-once same same ((1, creates_key ("k" ∷ []) (pos 1)) ∷ [])
      ((5, revokes user) ∷ []) "k" "k" user (pos 8) 2 9 refl refl

create_delivery_job-Repeats_example :
    Repeats
      (request "c")
      "p3"
      "p4"
      6
      7
      (run same same opened empty_tables)
      (create_delivery_job (request "c") "p3" 6 (run same same opened empty_tables))
create_delivery_job-Repeats_example =
    create_delivery_job-Repeats (request "c") "p3" "p4" 6 7 (run same same opened empty_tables)
