-- ===== src/Resource/Invariant.antt =====
-- What holds between the tables of the resource bot.
use telegram_media_downloade.Prelude.{
  ℕ, ◌<◌, ◌≡◌, ◌⊎◌, Bool, true, false, String, List, map, string_key, nat_key, Distinct, All,
}
use telegram_media_downloade.Prelude.Int.{ℤ, int_key}
use telegram_media_downloade.Rows.{update_where, delete_where}
use telegram_media_downloade.Rows.Laws.{
  map-update_where, delete_where-Distinct, update_where-All, delete_where-All,
}
use telegram_media_downloade.Resource.{
  ActivationKey, ResourceUser, ChannelBinding, DeliveryJob, ResourceBotStore, is_unbound, is_queued,
  is_active_job,
}
use telegram_media_downloade.Resource.Access.{is_user_active}

abbrev pub user_of : ChannelBinding → ℤ
user_of b = b.telegram_user_id

abbrev pub chat_of : ChannelBinding → ℤ
chat_of b = b.chat_id

abbrev pub id_of : DeliveryJob → ℕ
id_of j = j.id

abbrev pub idempotency_of : DeliveryJob → String
idempotency_of j = j.idempotency_key

abbrev pub public_of : DeliveryJob → String
public_of j = j.public_id

abbrev pub key_id_of : ActivationKey → ℕ
key_id_of k = k.id

abbrev pub hash_of : ActivationKey → String
hash_of k = k.key_hash

-- A binding that is not unbound is one of an active user.
abbrev pub IsInForce : List ResourceUser → ChannelBinding → Type 0
IsInForce users b = (is_unbound b.status ≡ true) ⊎ (is_user_active b.telegram_user_id users ≡ true)

-- A job that is queued is one of an active user; one that is not worked on has no speed; ids come from the
-- counter.
abbrev pub IsJobSound : List ResourceUser → ℕ → DeliveryJob → Type 0
IsJobSound users next j =
    ((is_queued j.status ≡ false) ⊎ (is_user_active j.telegram_user_id users ≡ true))
    × ((is_active_job j.status ≡ true) ⊎ ((j.download_speed ≡ 0) × (j.upload_speed ≡ 0)))
    × (j.id < next)

pub record AreBindingsSound (users : List ResourceUser) (bindings : List ChannelBinding)
    : Type 0 where
  pub one_for_user : Distinct (map user_of bindings)
  pub one_for_chat : Distinct (map chat_of bindings)
  pub in_force : All (IsInForce users) bindings

pub record AreJobsSound (users : List ResourceUser) (next : ℕ) (jobs : List DeliveryJob)
    : Type 0 where
  pub ids : Distinct (map id_of jobs)
  pub idempotent : Distinct (map idempotency_of jobs)
  pub public_ids : Distinct (map public_of jobs)
  pub sound : All (IsJobSound users next) jobs

pub record AreKeysSound (next : ℕ) (keys : List ActivationKey) : Type 0 where
  pub ids : Distinct (map key_id_of keys)
  pub hashes : Distinct (map hash_of keys)
  pub below : All (λ (k : ActivationKey). k.id < next) keys

-- The tables agree.
pub record IsSound (s : ResourceBotStore) : Type 0 where
  pub keys : AreKeysSound s.next_key_id s.activation_keys
  pub bindings : AreBindingsSound s.users s.bindings
  pub jobs : AreJobsSound s.users s.next_job_id s.jobs

-- A change of job rows.
pub record IsJobChange (users : List ResourceUser) (next : ℕ) (test : DeliveryJob → Bool)
    (change : DeliveryJob → DeliveryJob) : Type 0 where
  pub same_id : (j : DeliveryJob) → (change j).id ≡ j.id
  pub same_key : (j : DeliveryJob) → (change j).idempotency_key ≡ j.idempotency_key
  pub same_public : (j : DeliveryJob) → (change j).public_id ≡ j.public_id
  pub keeps :
      (j : DeliveryJob) → test j ≡ true → IsJobSound users next j → IsJobSound users next (change j)

pub update_jobs-AreJobsSound :
    {users : List ResourceUser} {next : ℕ} {test : DeliveryJob → Bool}
    {change : DeliveryJob → DeliveryJob} (jobs : List DeliveryJob)
    → IsJobChange users next test change
    → AreJobsSound users next jobs
    → AreJobsSound users next (update_where test change jobs)
update_jobs-AreJobsSound {users} {next} {test} {change} jobs c x = record {
  ids = rw (map-update_where id_of test change jobs (λ j e. c.same_id j)) x.ids;
  idempotent =
      rw (map-update_where idempotency_of test change jobs (λ j e. c.same_key j)) x.idempotent;
  public_ids =
      rw (map-update_where public_of test change jobs (λ j e. c.same_public j)) x.public_ids;
  sound =
      update_where-All (IsJobSound users next) (IsJobSound users next) test change jobs c.keeps
        (λ j e h. h) x.sound;
}

pub delete_jobs-AreJobsSound :
    {users : List ResourceUser} {next : ℕ} (test : DeliveryJob → Bool) (jobs : List DeliveryJob)
    → AreJobsSound users next jobs
    → AreJobsSound users next (delete_where test jobs)
delete_jobs-AreJobsSound {users} {next} test jobs x = record {
  ids = delete_where-Distinct id_of test jobs x.ids;
  idempotent = delete_where-Distinct idempotency_of test jobs x.idempotent;
  public_ids = delete_where-Distinct public_of test jobs x.public_ids;
  sound = delete_where-All (IsJobSound users next) test jobs x.sound;
}
