-- ===== src/Resource/Access.antt =====
-- The methods of `ResourceBotStore` on keys, users and bindings. The digest of a key and its first eight
-- characters are functions of hashlib and of Python's texts, given as parameters.
use telegram_media_downloade.Prelude.{
  ℕ, suc, Bool, true, false, not, ◌&&◌, Option, none, some, String, List, [], ◌∷◌, ◌++◌, count, ltb,
  nat_beq, if◌then◌else◌, ◌==◌, string_key, is_some,
}
use telegram_media_downloade.Prelude.Int.{ℤ, int_key}
use telegram_media_downloade.Rows.{select_one, update_where, delete_where}
use telegram_media_downloade.Resource.{
  UserStatus, BindingStatus, ActivationKey, ResourceUser, ChannelBinding, ResourceBotStore, Reply,
  returns, raises, available, redeemed, unbound, cancelled, activation_required,
  channel_already_bound, integrity_error, is_available, is_active_status, is_unbound, is_queued,
}

module _ (key_hash key_prefix : String → String) where
  -- `while True`: a drawn key whose digest is there already is drawn again; here the draws are a list.
  unfoldable pub create_activation_key :
      List String → ℤ → ℕ → ResourceBotStore → Option String × ResourceBotStore
  create_activation_key [] created_by now s = (none, s)
  create_activation_key (key ∷ draws) created_by now s =
      let again = create_activation_key draws created_by now s in
      if is_some (select_one (λ k. k.key_hash == key_hash key) s.activation_keys) then again else (
        some key,
        record s {
          activation_keys =
              s.activation_keys
              ++ record {
                id = s.next_key_id;
                key_hash = key_hash key;
                key_prefix = key_prefix key;
                status = available;
                created_by = created_by;
                redeemed_by = none;
                created_at = now;
                redeemed_at = none;
              }
                ∷ [];
          next_key_id = suc s.next_key_id;
        },
      )

-- `INSERT INTO resource_users … ON CONFLICT(telegram_user_id) DO UPDATE`
unfoldable pub upsert_user : ℤ → ℕ → ℕ → List ResourceUser → List ResourceUser
upsert_user user_id key_id now users =
    let row : ResourceUser = record {
      telegram_user_id = user_id;
      status = UserStatus.active;
      activation_key_id = key_id;
      activated_at = now;
      updated_at = now;
      revoked_at = none;
    } in
    if is_some (select_one (λ u. u.telegram_user_id == user_id) users)
    then update_where (λ u. u.telegram_user_id == user_id) (λ u. row) users
    else users ++ row ∷ []

-- `id = ? AND status = 'available'`
abbrev pub is_spendable : ActivationKey → ActivationKey → Bool
is_spendable row k = nat_beq k.id row.id && is_available k.status

-- The two statements on the key that was found; a `return` inside commits.
unfoldable pub redeem_row : ActivationKey → ℤ → ℕ → ResourceBotStore → Bool × ResourceBotStore
unfolding upsert_user
redeem_row row user_id now s =
    let spent = record s {
      activation_keys =
          update_where (is_spendable row)
            (λ k. record k {
              status = redeemed;
              redeemed_by = some user_id;
              redeemed_at = some now;
            })
            s.activation_keys;
    } in
    if nat_beq (count (is_spendable row) s.activation_keys) 1
    then (true, record spent { users = upsert_user user_id row.id now s.users })
    else (false, spent)

unfoldable pub redeem_activation_key :
    (String → String) → String → ℤ → ℕ → ResourceBotStore → Bool × ResourceBotStore
unfolding redeem_row
redeem_activation_key key_hash key user_id now s =
    if key == ""
    then (false, s)
    else elim (select_one (λ k. (k.key_hash == key_hash key) && is_available k.status)
        s.activation_keys) [ none ↦ (false, s) | some row ↦ redeem_row row user_id now s ]

unfoldable pub get_user : ℤ → List ResourceUser → Option ResourceUser
get_user user_id users = select_one (λ u. u.telegram_user_id == user_id) users

-- `is_user_active`, and the tests `user is None or user["status"] != "active"`
unfoldable pub is_user_active : ℤ → List ResourceUser → Bool
unfolding get_user
is_user_active user_id users = elim (get_user user_id users) [
  | none ↦ false
  | some u ↦ is_active_status u.status
]

unfoldable pub revoke_user : ℤ → ℕ → ResourceBotStore → Bool × ResourceBotStore
revoke_user user_id now s =
    if nat_beq (count (λ u. u.telegram_user_id == user_id) s.users) 0 then (false, s) else (
      true,
      record s {
        users =
            update_where (λ u. u.telegram_user_id == user_id)
              (λ u. record u {
                status = UserStatus.revoked;
                updated_at = now;
                revoked_at = some now;
              })
              s.users;
        bindings =
            update_where (λ b. b.telegram_user_id == user_id)
              (λ b. record b { status = unbound; updated_at = now; last_verified_at = now })
              s.bindings;
        jobs =
            update_where (λ j. (j.telegram_user_id == user_id) && is_queued j.status)
              (λ j. record j {
                status = cancelled;
                error_code = some "activation_revoked";
                error_summary = some "Resource Bot activation was revoked";
                updated_at = now;
                finished_at = some now;
              })
              s.jobs;
      },
    )

-- `INSERT INTO resource_channel_bindings … ON CONFLICT(telegram_user_id) DO UPDATE`; another row with the
-- same chat breaks UNIQUE(chat_id).
unfoldable pub upsert_binding : ChannelBinding → List ChannelBinding → Option (List ChannelBinding)
upsert_binding row bindings =
    if is_some (
      select_one
        (λ b. (b.chat_id == row.chat_id) && not (b.telegram_user_id == row.telegram_user_id))
        bindings)
    then none
    else some (
        if is_some (select_one (λ b. b.telegram_user_id == row.telegram_user_id) bindings)
        then update_where (λ b. b.telegram_user_id == row.telegram_user_id) (λ b. row) bindings
        else bindings ++ row ∷ [])

-- Another user's unbound binding of the chat is deleted.
unfoldable pub free_channel : ℤ → Option ChannelBinding → List ChannelBinding → List ChannelBinding
free_channel user_id none bindings = bindings
free_channel user_id (some existing) bindings =
    if existing.telegram_user_id == user_id
    then bindings
    else delete_where (λ b. b.telegram_user_id == existing.telegram_user_id) bindings

abbrev pub is_taken : ℤ → Option ChannelBinding → Bool
is_taken user_id none = false
is_taken user_id (some existing) =
    not (existing.telegram_user_id == user_id) && not (is_unbound existing.status)

-- The title is already `title.strip() or str(chat_id)`.
unfoldable pub bind_channel :
    ℤ → ℤ → String → Option String → ℕ → ResourceBotStore → Reply ChannelBinding × ResourceBotStore
unfolding is_user_active free_channel upsert_binding
bind_channel user_id chat_id title username now s =
    let existing = select_one (λ (b : ChannelBinding). b.chat_id == chat_id) s.bindings in
    let row : ChannelBinding = record {
      telegram_user_id = user_id;
      chat_id = chat_id;
      title = title;
      username = username;
      status = BindingStatus.active;
      bound_at = now;
      updated_at = now;
      last_verified_at = now;
    } in
    if not (is_user_active user_id s.users)
    then (raises activation_required, s)
    else if is_taken user_id existing
    then (raises channel_already_bound, s)
    else elim (upsert_binding row (free_channel user_id existing s.bindings)) [
      | none ↦ (raises integrity_error, s)
      | some bindings ↦ (returns row, record s { bindings = bindings })
    ]

unfoldable pub get_binding : ℤ → ResourceBotStore → Option ChannelBinding
get_binding user_id s = select_one (λ b. b.telegram_user_id == user_id) s.bindings

-- `mark_binding_permission_lost` and `mark_binding_verified`
unfoldable pub mark_binding : BindingStatus → ℤ → ℕ → ResourceBotStore → Bool × ResourceBotStore
mark_binding status chat_id now s =
    let test = λ (b : ChannelBinding). (b.chat_id == chat_id) && not (is_unbound b.status) in
    (
      ltb 0 (count test s.bindings),
      record s {
        bindings =
            update_where test
              (λ b. record b { status = status; updated_at = now; last_verified_at = now })
              s.bindings;
      },
    )

unfoldable pub mark_binding_permission_lost : ℤ → ℕ → ResourceBotStore → Bool × ResourceBotStore
unfolding mark_binding
mark_binding_permission_lost chat_id now s =
    mark_binding BindingStatus.permission_lost chat_id now s

unfoldable pub mark_binding_verified : ℤ → ℕ → ResourceBotStore → Bool × ResourceBotStore
unfolding mark_binding
mark_binding_verified chat_id now s = mark_binding BindingStatus.active chat_id now s

unfoldable pub unbind_channel : ℤ → ℕ → ResourceBotStore → Bool × ResourceBotStore
unbind_channel user_id now s =
    let test =
      λ (b : ChannelBinding). (b.telegram_user_id == user_id) && not (is_unbound b.status) in
    (
      ltb 0 (count test s.bindings),
      record s {
        bindings =
            update_where test
              (λ b. record b { status = unbound; updated_at = now; last_verified_at = now })
              s.bindings;
      },
    )
