-- ===== src/Resource/KeyLaws.antt =====
-- The invariant and the methods on activation keys.
use telegram_media_downloade.Prelude.{
  ℕ, suc, ◌<◌, ◌≡◌, inl, inr, refl, Bool, true, false, ◌&&◌, none, some, String, List, [], ◌∷◌,
  ◌++◌, map, arith, string_key, nat_key, elem, All, append-Distinct, Bool-cases, Option-cases,
  is_some, ◌==◌, ==_iff, nat_beq, count, if-cases,
}
use telegram_media_downloade.Prelude.Int.{ℤ, int_key}
use telegram_media_downloade.Rows.{select_one, update_where}
use telegram_media_downloade.Rows.Laws.{
  map-update_where, map-append_one, elem-select_one, update_where-All, map-All, append-All,
}
use telegram_media_downloade.Resource.{
  UserStatus, ResourceUser, ResourceBotStore, is_active_status, redeemed, ActivationKey,
  is_available,
}
use telegram_media_downloade.Resource.Access.{
  is_spendable, create_activation_key, upsert_user, redeem_row, redeem_activation_key, get_user,
  is_user_active,
}
use telegram_media_downloade.Resource.Invariant.{
  IsInForce, IsJobSound, IsSound, AreKeysSound, key_id_of, hash_of,
}

-- Another list of users, in which every active user still is active.
abbrev IsWider : List ResourceUser → List ResourceUser → Type 0
IsWider users more = (v : ℤ) → is_user_active v users ≡ true → is_user_active v more ≡ true

wider-IsSound :
    (s : ResourceBotStore) (more : List ResourceUser)
    → IsWider s.users more
    → IsSound s
    → IsSound (record s { users = more })
wider-IsSound s more w x = record {
  keys = x.keys;
  bindings = record {
    one_for_user = x.bindings.one_for_user;
    one_for_chat = x.bindings.one_for_chat;
    in_force =
        map-All (IsInForce s.users) (IsInForce more) s.bindings
          (λ b h. ground (arith, h, w b.telegram_user_id)) x.bindings.in_force;
  };
  jobs = record {
    ids = x.jobs.ids;
    idempotent = x.jobs.idempotent;
    public_ids = x.jobs.public_ids;
    sound =
        map-All (IsJobSound s.users s.next_job_id) (IsJobSound more s.next_job_id) s.jobs
          (λ j h. ground (arith, h, w j.telegram_user_id)) x.jobs.sound;
  };
}

module _ (row : ResourceUser) (is_on : is_active_status row.status ≡ true) where
  active-update_where :
      (v : ℤ) (users : List ResourceUser)
      → is_user_active v users ≡ true
      → is_user_active v
          (update_where (λ u. u.telegram_user_id == row.telegram_user_id) (λ u. row) users)
        ≡ true
  unfolding is_user_active get_user select_one update_where
  active-update_where v [] h = ground arith
  active-update_where v (u ∷ users) h = ground (
    arith,
    active-update_where v users,
    is_on,
    ==_iff u.telegram_user_id row.telegram_user_id,
    ==_iff u.telegram_user_id v,
    ==_iff row.telegram_user_id v,
  )

  active-append :
      (v : ℤ) (users : List ResourceUser)
      → is_user_active v users ≡ true
      → is_user_active v (users ++ row ∷ []) ≡ true
  unfolding is_user_active get_user select_one
  active-append v [] h = ground arith
  active-append v (u ∷ users) h = ground (arith, active-append v users)

-- The row that a redemption writes.
abbrev active_row : ℤ → ℕ → ℕ → ResourceUser
active_row user_id key_id now = record {
  telegram_user_id = user_id;
  status = UserStatus.active;
  activation_key_id = key_id;
  activated_at = now;
  updated_at = now;
  revoked_at = none;
}

upsert_user-IsWider :
    (user_id : ℤ) (key_id now : ℕ) (users : List ResourceUser)
    → IsWider users (upsert_user user_id key_id now users)
unfolding upsert_user
upsert_user-IsWider user_id key_id now users v h =
    let row = active_row user_id key_id now in
    elim (Bool-cases
      (is_some (select_one (λ (u : ResourceUser). u.telegram_user_id == user_id) users))) [
        | inl e ↦ rw e (active-update_where row refl v users h)
        | inr e ↦ rw e (active-append row refl v users h)
      ]

abbrev HasSound {ℓ} : {A : Type ℓ} → A × ResourceBotStore → Type 0
HasSound r = IsSound r.1

-- Sound keys in a store that is otherwise the same.
keys-IsSound :
    (s : ResourceBotStore) (keys : List ActivationKey) (next : ℕ)
    → AreKeysSound next keys
    → IsSound s
    → IsSound (record s { activation_keys = keys; next_key_id = next })
keys-IsSound s keys next k x = record { keys = k; bindings = x.bindings; jobs = x.jobs }

fresh_key_id :
    (next : ℕ) (keys : List ActivationKey)
    → All (λ (k : ActivationKey). k.id < next) keys
    → elem next (map key_id_of keys) ≡ false
fresh_key_id next [] h = refl
fresh_key_id next (k ∷ ks) h = ground (arith, fresh_key_id next ks h.1, h.0)

new_key-AreKeysSound :
    (key : ActivationKey) (next : ℕ) (keys : List ActivationKey)
    → key.id ≡ next
    → select_one (λ (k : ActivationKey). k.key_hash == key.key_hash) keys ≡ none
    → AreKeysSound next keys
    → AreKeysSound (suc next) (keys ++ key ∷ [])
new_key-AreKeysSound key next keys i f x = record {
  ids =
      rw (map-append_one key_id_of keys key)
        (append-Distinct key.id (map key_id_of keys) (rw i (fresh_key_id next keys x.below)) x.ids);
  hashes = rw (map-append_one hash_of keys key) (
      append-Distinct key.key_hash (map hash_of keys) (elem-select_one hash_of key.key_hash keys f)
        x.hashes);
  below =
      append-All (λ (k : ActivationKey). k.id < suc next) keys key
        (map-All (λ (k : ActivationKey). k.id < next) (λ (k : ActivationKey). k.id < suc next) keys
          (λ k h. omega (arith, h)) x.below)
        (omega (arith, i));
}

abbrev pub spent : ℤ → ℕ → ActivationKey → ActivationKey
spent user_id now k = record k {
  status = redeemed;
  redeemed_by = some user_id;
  redeemed_at = some now;
}

spent-AreKeysSound :
    (test : ActivationKey → Bool) (user_id : ℤ) (now next : ℕ) (keys : List ActivationKey)
    → AreKeysSound next keys
    → AreKeysSound next (update_where test (spent user_id now) keys)
spent-AreKeysSound test user_id now next keys x = record {
  ids = rw (map-update_where key_id_of test (spent user_id now) keys (λ k e. refl)) x.ids;
  hashes = rw (map-update_where hash_of test (spent user_id now) keys (λ k e. refl)) x.hashes;
  below =
      update_where-All (λ (k : ActivationKey). k.id < next) (λ (k : ActivationKey). k.id < next)
        test (spent user_id now) keys (λ k e h. h) (λ k e h. h) x.below;
}

pub create_activation_key-IsSound :
    (key_hash key_prefix : String → String) (draws : List String) (by : ℤ) (now : ℕ)
    (s : ResourceBotStore)
    → IsSound s
    → IsSound (create_activation_key key_hash key_prefix draws by now s).1
unfolding create_activation_key
create_activation_key-IsSound key_hash key_prefix [] by now s x = x
create_activation_key-IsSound key_hash key_prefix (key ∷ draws) by now s x =
    elim (Bool-cases (
      is_some (select_one (λ (k : ActivationKey). k.key_hash == key_hash key) s.activation_keys))) [
        | inl e ↦ rw e (create_activation_key-IsSound key_hash key_prefix draws by now s x)
        | inr e ↦ rw e (
            keys-IsSound s _ _
              (new_key-AreKeysSound _ s.next_key_id s.activation_keys refl (ground (arith, e))
                x.keys)
              x)
      ]

redeem_row-IsSound :
    (row : ActivationKey) (user_id : ℤ) (now : ℕ) (s : ResourceBotStore)
    → IsSound s
    → IsSound (redeem_row row user_id now s).1
unfolding redeem_row
redeem_row-IsSound row user_id now s x =
    elim (Bool-cases (nat_beq (count (is_spendable row) s.activation_keys) 1)) [
      | inl e ↦ rw e (
          keys-IsSound (record s { users = upsert_user user_id row.id now s.users }) _ _
            (spent-AreKeysSound (is_spendable row) user_id now s.next_key_id s.activation_keys
              x.keys)
            (wider-IsSound s _ (upsert_user-IsWider user_id row.id now s.users) x))
      | inr e ↦ rw e (
          keys-IsSound s _ _
            (spent-AreKeysSound (is_spendable row) user_id now s.next_key_id s.activation_keys
              x.keys)
            x)
    ]

pub redeem_activation_key-IsSound :
    (key_hash : String → String) (key : String) (user_id : ℤ) (now : ℕ) (s : ResourceBotStore)
    → IsSound s
    → IsSound (redeem_activation_key key_hash key user_id now s).1
unfolding redeem_activation_key
redeem_activation_key-IsSound key_hash key user_id now s x =
    if-cases HasSound (key == "") _ _ (λ e. x)
      (λ e.
        elim (Option-cases (
          select_one (λ (k : ActivationKey). (k.key_hash == key_hash key) && is_available k.status)
            s.activation_keys)) [
              | inl f ↦ rw f x
              | inr (row, f) ↦ rw f (redeem_row-IsSound row user_id now s x)
            ])
