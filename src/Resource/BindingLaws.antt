-- ===== src/Resource/BindingLaws.antt =====
-- The invariant and the methods on channel bindings, with UNIQUE(chat_id).
use telegram_media_downloade.Prelude.{
  ℕ, ◌≡◌, inl, inr, refl, sym, subst, Bool, true, false, not, ◌&&◌, Option, none, some, String,
  List, [], ◌∷◌, ◌++◌, map, if◌then◌else◌, arith, elem, Distinct, append-Distinct, Bool-cases,
  Option-cases, is_some, ◌==◌, ==_iff, ==_refl, if-cases,
}
use telegram_media_downloade.Prelude.Int.{ℤ, int_key}
use telegram_media_downloade.Rows.{select_one, update_where, delete_where}
use telegram_media_downloade.Rows.Laws.{
  map-update_where, map-append_one, delete_where-Distinct, elem-select_one, update_where-All,
  delete_where-All, append-All, elem-delete_where,
}
use telegram_media_downloade.Resource.{
  BindingStatus, ResourceUser, ChannelBinding, ResourceBotStore, returns, raises,
  activation_required, channel_already_bound, unbound, is_unbound,
}
use telegram_media_downloade.Resource.Access.{
  is_user_active, upsert_binding, free_channel, is_taken, bind_channel, mark_binding,
  unbind_channel,
}
use telegram_media_downloade.Resource.Invariant.{
  IsInForce, AreBindingsSound, IsSound, user_of, chat_of,
}

abbrev HasSound {ℓ} : {A : Type ℓ} → A × ResourceBotStore → Type 0
HasSound r = IsSound r.1

bindings-IsSound :
    (s : ResourceBotStore) (bindings : List ChannelBinding)
    → IsSound s
    → AreBindingsSound s.users bindings
    → IsSound (record s { bindings = bindings })
bindings-IsSound s bindings x y = record { keys = x.keys; bindings = y; jobs = x.jobs }

-- A status is written where the binding is not unbound.
module _ (status : BindingStatus) (now : ℕ) where
  abbrev restated : ChannelBinding → ChannelBinding
  restated b = record b { status = status; updated_at = now; last_verified_at = now }

  restated-IsSound :
      (test : ChannelBinding → Bool) (s : ResourceBotStore)
      → ((b : ChannelBinding) → test b ≡ true → is_unbound b.status ≡ false)
      → IsSound s
      → IsSound (record s { bindings = update_where test restated s.bindings })
  restated-IsSound test s on x = bindings-IsSound s _ x (record {
    one_for_user =
        rw (map-update_where user_of test restated s.bindings (λ b e. refl))
          x.bindings.one_for_user;
    one_for_chat =
        rw (map-update_where chat_of test restated s.bindings (λ b e. refl))
          x.bindings.one_for_chat;
    in_force =
        update_where-All (IsInForce s.users) (IsInForce s.users) test restated s.bindings
          (λ b e h. ground (arith, h, on b e)) (λ b e h. h) x.bindings.in_force;
  })

pub mark_binding-IsSound :
    (status : BindingStatus) (chat_id : ℤ) (now : ℕ) (s : ResourceBotStore)
    → IsSound s
    → IsSound (mark_binding status chat_id now s).1
unfolding mark_binding
mark_binding-IsSound status chat_id now s x =
    restated-IsSound status now (λ b. (b.chat_id == chat_id) && not (is_unbound b.status)) s
      (λ b e. ground (arith, e)) x

pub unbind_channel-IsSound :
    (user_id : ℤ) (now : ℕ) (s : ResourceBotStore)
    → IsSound s
    → IsSound (unbind_channel user_id now s).1
unfolding unbind_channel
unbind_channel-IsSound user_id now s x =
    restated-IsSound unbound now (λ b. (b.telegram_user_id == user_id) && not (is_unbound b.status))
      s (λ b e. ground (arith, e)) x

-- Another binding has the chat of a row.
module _ (row : ChannelBinding) where
  abbrev is_rival : ChannelBinding → Bool
  is_rival b = (b.chat_id == row.chat_id) && not (b.telegram_user_id == row.telegram_user_id)

  abbrev is_own : ChannelBinding → Bool
  is_own b = b.telegram_user_id == row.telegram_user_id

  update_absent :
      (bs : List ChannelBinding)
      → elem row.telegram_user_id (map user_of bs) ≡ false
      → update_where is_own (λ b. row) bs ≡ bs
  unfolding update_where
  update_absent [] h = refl
  update_absent (b ∷ bs) h = ground (arith, update_absent bs)

  chat_absent :
      (bs : List ChannelBinding)
      → elem row.telegram_user_id (map user_of bs) ≡ false
      → select_one is_rival bs ≡ none
      → elem row.chat_id (map chat_of bs) ≡ false
  unfolding select_one
  chat_absent [] h n = refl
  chat_absent (b ∷ bs) h n = ground (arith, chat_absent bs)

  elem-update_own :
      (k : ℤ) (bs : List ChannelBinding)
      → (row.chat_id == k) ≡ false
      → elem k (map chat_of bs) ≡ false
      → elem k (map chat_of (update_where is_own (λ b. row) bs)) ≡ false
  unfolding update_where
  elem-update_own k [] e h = refl
  elem-update_own k (b ∷ bs) e h = ground (arith, elem-update_own k bs)

  update_own-Distinct :
      (bs : List ChannelBinding)
      → Distinct (map user_of bs)
      → Distinct (map chat_of bs)
      → select_one is_rival bs ≡ none
      → Distinct (map chat_of (update_where is_own (λ b. row) bs))
  unfolding update_where select_one
  update_own-Distinct [] u c n = tt
  update_own-Distinct (b ∷ bs) u c n =
      elim (Bool-cases (b.telegram_user_id == row.telegram_user_id)) [
        | inl own ↦
            let gone : elem row.telegram_user_id (map user_of bs) ≡ false =
              subst (λ k. elem k (map user_of bs) ≡ false)
                ((==_iff b.telegram_user_id row.telegram_user_id).0 own) u.0 in
            let rest : select_one is_rival bs ≡ none = ground (arith, n, own) in
            rw own (rw (update_absent bs gone) (chat_absent bs gone rest, c.1))
        | inr other_user ↦
            let apart : (b.chat_id == row.chat_id) ≡ false = ground (arith, n, other_user) in
            let rest : select_one is_rival bs ≡ none = ground (arith, n, apart) in
            rw other_user (
              elem-update_own b.chat_id bs
                  (ground
                    (arith, apart, ==_iff b.chat_id row.chat_id, ==_iff row.chat_id b.chat_id))
                  c.0,
              update_own-Distinct bs u.1 c.1 rest,
            )
      ]

  -- What the INSERT leaves where it has no rival.
  abbrev upserted : List ChannelBinding → List ChannelBinding
  upserted bs =
      if is_some (select_one is_own bs) then update_where is_own (λ b. row) bs else bs ++ row ∷ []

  upsert_binding-upserted :
      (bs : List ChannelBinding)
      → select_one is_rival bs ≡ none
      → upsert_binding row bs ≡ some (upserted bs)
  unfolding upsert_binding
  upsert_binding-upserted bs n = rw n refl

  upserted-AreBindingsSound :
      (users : List ResourceUser) (bs : List ChannelBinding)
      → is_user_active row.telegram_user_id users ≡ true
      → select_one is_rival bs ≡ none
      → AreBindingsSound users bs
      → AreBindingsSound users (upserted bs)
  upserted-AreBindingsSound users bs on n x = elim (Option-cases (select_one is_own bs)) [
    | inr (b, own) ↦ rw own (record {
      one_for_user =
          rw
            (map-update_where user_of is_own (λ b. row) bs
              (λ b e. sym ((==_iff b.telegram_user_id row.telegram_user_id).0 e)))
            x.one_for_user;
      one_for_chat = update_own-Distinct bs x.one_for_user x.one_for_chat n;
      in_force =
          update_where-All (IsInForce users) (IsInForce users) is_own (λ b. row) bs
            (λ b e h. inr on) (λ b e h. h) x.in_force;
    })
    | inl absent ↦
        let gone = elem-select_one user_of row.telegram_user_id bs absent in
        rw absent (record {
          one_for_user =
              rw (map-append_one user_of bs row)
                (append-Distinct row.telegram_user_id (map user_of bs) gone x.one_for_user);
          one_for_chat =
              rw (map-append_one chat_of bs row) (
                append-Distinct row.chat_id (map chat_of bs) (chat_absent bs gone n)
                  x.one_for_chat);
          in_force = append-All (IsInForce users) bs row x.in_force (inr on);
        })
  ]

  no_chat-no_rival :
      (bs : List ChannelBinding)
      → elem row.chat_id (map chat_of bs) ≡ false
      → select_one is_rival bs ≡ none
  unfolding select_one
  no_chat-no_rival [] h = refl
  no_chat-no_rival (b ∷ bs) h = ground (arith, no_chat-no_rival bs)

  abbrev has_chat : ChannelBinding → Bool
  has_chat b = b.chat_id == row.chat_id

  absent-no_rival :
      (bs : List ChannelBinding) → select_one has_chat bs ≡ none → select_one is_rival bs ≡ none
  absent-no_rival bs h = no_chat-no_rival bs (elem-select_one chat_of row.chat_id bs h)

  -- The first binding with the chat is the only one.
  first_with_chat :
      (c : ChannelBinding) (bs : List ChannelBinding) (b : ChannelBinding)
      → has_chat c ≡ true
      → Distinct (map chat_of (c ∷ bs))
      → select_one has_chat (c ∷ bs) ≡ some b
      → (c ≡ b) × (elem row.chat_id (map chat_of bs) ≡ false)
  unfolding select_one
  first_with_chat c bs b here d s =
      let found : some c ≡ some b = rw here at s in
      (
        ground (arith, found),
        subst (λ k. elem k (map chat_of bs) ≡ false) ((==_iff c.chat_id row.chat_id).0 here) d.0,
      )

  own-no_rival :
      (bs : List ChannelBinding) (b : ChannelBinding)
      → Distinct (map chat_of bs)
      → select_one has_chat bs ≡ some b
      → (b.telegram_user_id == row.telegram_user_id) ≡ true
      → select_one is_rival bs ≡ none
  unfolding select_one
  own-no_rival [] b d s own = refl
  own-no_rival (c ∷ bs) b d s own = elim (Bool-cases (has_chat c)) [
    | inr other_chat ↦ ground (arith, own-no_rival bs b d.1, s, own, other_chat)
    | inl here ↦
        let (same, gone) = first_with_chat c bs b here d s in
        let mine : (c.telegram_user_id == row.telegram_user_id) ≡ true =
          subst (λ z. (z.telegram_user_id == row.telegram_user_id) ≡ true) (sym same) own in
        ground (arith, mine, no_chat-no_rival bs gone)
  ]

  freed-no_rival :
      (bs : List ChannelBinding) (b : ChannelBinding)
      → Distinct (map chat_of bs)
      → select_one has_chat bs ≡ some b
      → select_one is_rival (delete_where (λ c. c.telegram_user_id == b.telegram_user_id) bs) ≡ none
  unfolding select_one delete_where
  freed-no_rival [] b d s = refl
  freed-no_rival (c ∷ bs) b d s = elim (Bool-cases (has_chat c)) [
    | inr other_chat ↦ ground (arith, freed-no_rival bs b d.1, s, other_chat)
    | inl here ↦
        let (same, gone) = first_with_chat c bs b here d s in
        let taken : (c.telegram_user_id == b.telegram_user_id) ≡ true =
          subst (λ z. (c.telegram_user_id == z.telegram_user_id) ≡ true) same
            (==_refl c.telegram_user_id) in
        rw taken (
          no_chat-no_rival _ (
            elem-delete_where chat_of row.chat_id (λ z. z.telegram_user_id == b.telegram_user_id) bs
              gone))
  ]

-- Once the channel is free, no other binding has its chat.
free_channel-no_rival :
    (row : ChannelBinding) (bs : List ChannelBinding)
    → Distinct (map chat_of bs)
    → select_one
        (is_rival row)
        (free_channel row.telegram_user_id (select_one (has_chat row) bs) bs)
      ≡ none
unfolding free_channel
free_channel-no_rival row bs d = elim (Option-cases (select_one (has_chat row) bs)) [
  | inl e ↦ rw (e, free_channel) (absent-no_rival row bs e)
  | inr (b, e) ↦ elim (Bool-cases (b.telegram_user_id == row.telegram_user_id)) [
    | inl own ↦ rw (e, free_channel) (rw own (own-no_rival row bs b d e own))
    | inr other_user ↦ rw (e, free_channel) (rw other_user (freed-no_rival row bs b d e))
  ]
]

free_channel-AreBindingsSound :
    (users : List ResourceUser) (user_id : ℤ) (o : Option ChannelBinding) (bs : List ChannelBinding)
    → AreBindingsSound users bs
    → AreBindingsSound users (free_channel user_id o bs)
unfolding free_channel
free_channel-AreBindingsSound users user_id none bs x = x
free_channel-AreBindingsSound users user_id (some b) bs x =
    if-cases (AreBindingsSound users) (b.telegram_user_id == user_id) bs
      (delete_where (λ c. c.telegram_user_id == b.telegram_user_id) bs) (λ e. x)
      (λ e. record {
        one_for_user = delete_where-Distinct user_of _ bs x.one_for_user;
        one_for_chat = delete_where-Distinct chat_of _ bs x.one_for_chat;
        in_force = delete_where-All (IsInForce users) _ bs x.in_force;
      })

-- A binding that gets past its two tests is written.
abbrev new_binding : ℤ → ℤ → String → Option String → ℕ → ChannelBinding
new_binding user_id chat_id title username now = record {
  telegram_user_id = user_id;
  chat_id = chat_id;
  title = title;
  username = username;
  status = BindingStatus.active;
  bound_at = now;
  updated_at = now;
  last_verified_at = now;
}

module _ (user_id chat_id : ℤ) (title : String) (username : Option String) (now : ℕ)
    (s : ResourceBotStore) (x : IsSound s) where
  abbrev bound_row : ChannelBinding
  bound_row = new_binding user_id chat_id title username now

  abbrev freed : List ChannelBinding
  freed = free_channel user_id (select_one (has_chat bound_row) s.bindings) s.bindings

  -- The INSERT of a binding meets no other row with its chat.
  pub bind_channel-upserted : bind_channel user_id chat_id title username now s ≡ (
      if not (is_user_active user_id s.users)
      then (raises activation_required, s)
      else if is_taken user_id (select_one (has_chat bound_row) s.bindings)
      then (raises channel_already_bound, s)
      else (returns bound_row, record s { bindings = upserted bound_row freed }))
  unfolding bind_channel
  bind_channel-upserted =
      rw
        (upsert_binding-upserted bound_row freed
          (free_channel-no_rival bound_row s.bindings x.bindings.one_for_chat))
        refl

  pub bind_channel-IsSound : IsSound (bind_channel user_id chat_id title username now s).1
  bind_channel-IsSound = rw bind_channel-upserted (
      if-cases HasSound (not (is_user_active user_id s.users)) _ _ (λ e. x)
        (λ on.
          if-cases HasSound (is_taken user_id (select_one (has_chat bound_row) s.bindings)) _ _
            (λ e. x)
            (λ e. bindings-IsSound s (upserted bound_row freed) x (
              upserted-AreBindingsSound bound_row s.users freed (ground (arith, on))
                (free_channel-no_rival bound_row s.bindings x.bindings.one_for_chat)
                (free_channel-AreBindingsSound s.users user_id
                  (select_one (has_chat bound_row) s.bindings) s.bindings x.bindings)))))
