-- ===== src/Resource/AccessLaws.antt =====
-- The invariant and the revocation of a user.
use telegram_media_downloade.Prelude.{
  ℕ, ◌≡◌, inl, inr, refl, true, false, ◌&&◌, some, List, [], ◌∷◌, arith, string_key, nat_key,
  Bool-cases, ◌==◌, ==_iff, nat_beq, count,
}
use telegram_media_downloade.Prelude.Int.{ℤ, int_key}
use telegram_media_downloade.Rows.{select_one, update_where}
use telegram_media_downloade.Rows.Laws.{map-update_where, update_where-All}
use telegram_media_downloade.Resource.{
  UserStatus, ResourceUser, ChannelBinding, DeliveryJob, ResourceBotStore, unbound, is_queued,
  cancelled,
}
use telegram_media_downloade.Resource.Access.{get_user, is_user_active, revoke_user}
use telegram_media_downloade.Resource.Invariant.{
  IsInForce, IsJobSound, IsSound, user_of, chat_of, id_of, idempotency_of, public_of,
}

abbrev revoked_users : ℤ → ℕ → List ResourceUser → List ResourceUser
revoked_users user_id now users =
    update_where (λ u. u.telegram_user_id == user_id)
      (λ u. record u { status = UserStatus.revoked; updated_at = now; revoked_at = some now }) users

abbrev revoked_job : ℕ → DeliveryJob → DeliveryJob
revoked_job now j = record j {
  status = cancelled;
  error_code = some "activation_revoked";
  error_summary = some "Resource Bot activation was revoked";
  updated_at = now;
  finished_at = some now;
}

-- A revocation switches one user off, and no other.
active-revoke :
    (user_id v : ℤ) (now : ℕ) (users : List ResourceUser)
    → (user_id == v) ≡ false
    → is_user_active v (
        update_where
          (λ u. u.telegram_user_id == user_id)
          (λ u. record u { status = UserStatus.revoked; updated_at = now; revoked_at = some now })
          users)
      ≡ is_user_active v users
unfolding is_user_active get_user select_one update_where
active-revoke user_id v now [] h = refl
active-revoke user_id v now (u ∷ users) h = ground (
  arith,
  active-revoke user_id v now users h,
  ==_iff u.telegram_user_id user_id,
  ==_iff u.telegram_user_id v,
  ==_iff user_id v,
  h,
)

revoke-IsInForce :
    (user_id : ℤ) (now : ℕ) (users : List ResourceUser) (b : ChannelBinding)
    → (b.telegram_user_id == user_id) ≡ false
    → IsInForce users b
    → IsInForce (revoked_users user_id now users) b
revoke-IsInForce user_id now users b e h = ground (
  arith,
  h,
  active-revoke user_id b.telegram_user_id now users,
  ==_iff b.telegram_user_id user_id,
  ==_iff user_id b.telegram_user_id,
  e,
)

revoke-IsJobSound :
    (user_id : ℤ) (now next : ℕ) (users : List ResourceUser) (j : DeliveryJob)
    → ((j.telegram_user_id == user_id) && is_queued j.status) ≡ false
    → IsJobSound users next j
    → IsJobSound (revoked_users user_id now users) next j
revoke-IsJobSound user_id now next users j e h = ground (
  arith,
  h,
  active-revoke user_id j.telegram_user_id now users,
  ==_iff j.telegram_user_id user_id,
  ==_iff user_id j.telegram_user_id,
  e,
)

revoked-IsJobSound :
    (user_id : ℤ) (now next : ℕ) (users : List ResourceUser) (j : DeliveryJob)
    → ((j.telegram_user_id == user_id) && is_queued j.status) ≡ true
    → IsJobSound users next j
    → IsJobSound (revoked_users user_id now users) next (revoked_job now j)
revoked-IsJobSound user_id now next users j e h = ground (arith, h)

pub revoke_user-IsSound :
    (user_id : ℤ) (now : ℕ) (s : ResourceBotStore)
    → IsSound s
    → IsSound (revoke_user user_id now s).1
unfolding revoke_user
revoke_user-IsSound user_id now s x =
    elim (Bool-cases
      (nat_beq (count (λ (u : ResourceUser). u.telegram_user_id == user_id) s.users) 0)) [
        | inl e ↦ rw e x
        | inr e ↦ rw e (record {
          keys = x.keys;
          bindings = record {
            one_for_user =
                rw
                  (map-update_where user_of (λ b. b.telegram_user_id == user_id)
                    (λ b. record b { status = unbound; updated_at = now; last_verified_at = now })
                    s.bindings (λ b h. refl))
                  x.bindings.one_for_user;
            one_for_chat =
                rw
                  (map-update_where chat_of (λ b. b.telegram_user_id == user_id)
                    (λ b. record b { status = unbound; updated_at = now; last_verified_at = now })
                    s.bindings (λ b h. refl))
                  x.bindings.one_for_chat;
            in_force =
                update_where-All (IsInForce s.users) (IsInForce (revoked_users user_id now s.users))
                  _ _ s.bindings (λ b e h. inl refl) (revoke-IsInForce user_id now s.users)
                  x.bindings.in_force;
          };
          jobs = record {
            ids =
                rw
                  (map-update_where id_of
                    (λ j. (j.telegram_user_id == user_id) && is_queued j.status) (revoked_job now)
                    s.jobs (λ j h. refl))
                  x.jobs.ids;
            idempotent =
                rw
                  (map-update_where idempotency_of
                    (λ j. (j.telegram_user_id == user_id) && is_queued j.status) (revoked_job now)
                    s.jobs (λ j h. refl))
                  x.jobs.idempotent;
            public_ids =
                rw
                  (map-update_where public_of
                    (λ j. (j.telegram_user_id == user_id) && is_queued j.status) (revoked_job now)
                    s.jobs (λ j h. refl))
                  x.jobs.public_ids;
            sound =
                update_where-All (IsJobSound s.users s.next_job_id)
                  (IsJobSound (revoked_users user_id now s.users) s.next_job_id) _ _ s.jobs
                  (revoked-IsJobSound user_id now s.next_job_id s.users)
                  (revoke-IsJobSound user_id now s.next_job_id s.users) x.jobs.sound;
          };
        })
      ]
