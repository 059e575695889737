-- ===== src/Resource/KeyRuns.antt =====
-- Spent activation keys over runs of calls.
use telegram_media_downloade.Prelude.{
  ℕ, ◌≡◌, refl, sym, subst, Bool, true, false, ◌&&◌, String, List, [], ◌∷◌, nat_beq, is_some, ◌==◌,
  string_key, inl, inr, Bool-cases, Option-cases, if-cases, arith, count,
}
use telegram_media_downloade.Prelude.Int.{ℤ, int_key}
use telegram_media_downloade.Rows.{select_one}
use telegram_media_downloade.Resource.{ActivationKey, ResourceBotStore, empty_tables, is_available}
use telegram_media_downloade.Resource.Access.{
  create_activation_key, redeem_row, is_spendable, redeem_activation_key, mark_binding,
  mark_binding_permission_lost, mark_binding_verified, unbind_channel,
}
use telegram_media_downloade.Resource.Jobs.{
  set_staging_manifest, clear_staging_manifest, recover_interrupted_jobs,
  clear_terminal_delivery_jobs,
}
use telegram_media_downloade.Resource.Calls.{
  Call, creates_key, redeems, revokes, binds, loses_permission, verifies, unbinds, creates_job,
  claims, progresses, stages, unstages, finishes, recovers, cancels, clears_job, clears_jobs, after,
  run,
}
use telegram_media_downloade.Resource.Invariant.{IsSound}
use telegram_media_downloade.Resource.Runs.{after-IsSound, run-empty_tables-IsSound}
use telegram_media_downloade.Resource.KeyLaws.{redeem_activation_key-IsSound}
use telegram_media_downloade.Resource.Keys.{
  IsSpent, IsSpent-none, append-IsSpent, update_where-IsSpent, found-IsSpent,
}
use telegram_media_downloade.Resource.KeyEffects.{
  create_delivery_job-keys, claim_next_delivery_job-keys, update_job_progress-keys,
  finish_delivery_job-keys, cancel_queued_delivery_job-keys, clear_terminal_delivery_job-keys,
  revoke_user-keys, bind_channel-keys,
}

module _ (h : String) where
  redeem_row-IsSpent :
      (row : ActivationKey) (user_id : ℤ) (now : ℕ) (s : ResourceBotStore)
      → IsSpent h s.activation_keys
      → IsSpent h (redeem_row row user_id now s).1.activation_keys
  unfolding redeem_row
  redeem_row-IsSpent row user_id now s x =
      let next = update_where-IsSpent h row user_id now s.activation_keys x in
      elim (Bool-cases (nat_beq (count (is_spendable row) s.activation_keys) 1)) [
        | inl e ↦ rw e next
        | inr e ↦ rw e next
      ]

  redeem_activation_key-IsSpent :
      (key_hash : String → String) (key : String) (user_id : ℤ) (now : ℕ) (s : ResourceBotStore)
      → IsSpent h s.activation_keys
      → IsSpent h (redeem_activation_key key_hash key user_id now s).1.activation_keys
  unfolding redeem_activation_key
  redeem_activation_key-IsSpent key_hash key user_id now s x = elim (Bool-cases (key == "")) [
    | inl blank ↦ rw blank x
    | inr given ↦
        elim (Option-cases (
          select_one (λ (k : ActivationKey). (k.key_hash == key_hash key) && is_available k.status)
            s.activation_keys)) [
              | inl f ↦ rw (given, f, redeem_activation_key) x
              | inr (row, f) ↦
                  rw (given, f, redeem_activation_key) (redeem_row-IsSpent row user_id now s x)
            ]
  ]

  create_activation_key-IsSpent :
      (key_hash key_prefix : String → String) (draws : List String) (by : ℤ) (now : ℕ)
      (s : ResourceBotStore)
      → IsSpent h s.activation_keys
      → IsSpent h (create_activation_key key_hash key_prefix draws by now s).1.activation_keys
  unfolding create_activation_key
  create_activation_key-IsSpent key_hash key_prefix [] by now s x = x
  create_activation_key-IsSpent key_hash key_prefix (key ∷ draws) by now s x =
      elim (Bool-cases (
        is_some
          (select_one (λ (k : ActivationKey). k.key_hash == key_hash key) s.activation_keys))) [
            | inl e ↦ rw e (create_activation_key-IsSpent key_hash key_prefix draws by now s x)
            | inr e ↦ rw e (append-IsSpent h _ s.activation_keys x)
          ]

  -- The keys are the same.
  kept-IsSpent :
      {keys others : List ActivationKey} → others ≡ keys → IsSpent h keys → IsSpent h others
  kept-IsSpent e x = subst (IsSpent h) (sym e) x

-- A redemption that succeeds spends its key.
redeemed-IsSpent :
    (key_hash : String → String) (key : String) (user_id : ℤ) (now : ℕ) (s : ResourceBotStore)
    → IsSound s
    → (redeem_activation_key key_hash key user_id now s).0 ≡ true
    → IsSpent (key_hash key) (redeem_activation_key key_hash key user_id now s).1.activation_keys
unfolding redeem_activation_key redeem_row
redeemed-IsSpent key_hash key user_id now s x ok = elim (Bool-cases (key == "")) [
  | inl blank ↦ absurd (ground (arith, rw blank at ok))
  | inr given ↦
      elim (Option-cases (
        select_one (λ (k : ActivationKey). (k.key_hash == key_hash key) && is_available k.status)
          s.activation_keys)) [
            | inl f ↦ absurd (ground (arith, rw (given, f, redeem_activation_key) at ok))
            | inr (row, f) ↦
                let next =
                  found-IsSpent (key_hash key) user_id now s.activation_keys row f x.keys.hashes in
                rw (given, f, redeem_activation_key)
                  (if-cases
                    (λ (r : Bool × ResourceBotStore). IsSpent (key_hash key) r.1.activation_keys)
                    (nat_beq (count (is_spendable row) s.activation_keys) 1) _ _ (λ e. next)
                    (λ e. next))
          ]
]

-- A spent key is refused.
spent-refused :
    (key_hash : String → String) (key : String) (user_id : ℤ) (now : ℕ) (s : ResourceBotStore)
    → IsSound s
    → IsSpent (key_hash key) s.activation_keys
    → redeem_activation_key key_hash key user_id now s ≡ (false, s)
unfolding redeem_activation_key
spent-refused key_hash key user_id now s x out = elim (Bool-cases (key == "")) [
  | inl blank ↦ rw blank refl
  | inr given ↦ rw (given, IsSpent-none (key_hash key) s.activation_keys x.keys.hashes out) refl
]

module _ (key_hash key_prefix : String → String) (h : String) where
  after-IsSpent :
      (now : ℕ) (c : Call) (s : ResourceBotStore)
      → IsSound s
      → IsSpent h s.activation_keys
      → IsSpent h (after key_hash key_prefix now c s).activation_keys
  unfolding after mark_binding mark_binding_permission_lost mark_binding_verified unbind_channel
      set_staging_manifest clear_staging_manifest recover_interrupted_jobs
      clear_terminal_delivery_jobs
  after-IsSpent now (creates_key draws by) s x out =
      create_activation_key-IsSpent h key_hash key_prefix draws by now s out
  after-IsSpent now (redeems key user) s x out =
      redeem_activation_key-IsSpent h key_hash key user now s out
  after-IsSpent now (revokes user) s x out = kept-IsSpent h (revoke_user-keys user now s) out
  after-IsSpent now (binds user chat title username) s x out =
      kept-IsSpent h (bind_channel-keys user chat title username now s x) out
  after-IsSpent now (loses_permission chat) s x out = out
  after-IsSpent now (verifies chat) s x out = out
  after-IsSpent now (unbinds user) s x out = out
  after-IsSpent now (creates_job job public_id) s x out =
      kept-IsSpent h (create_delivery_job-keys job public_id now s) out
  after-IsSpent now claims s x out = kept-IsSpent h (claim_next_delivery_job-keys now s) out
  after-IsSpent now (progresses job p) s x out =
      kept-IsSpent h (update_job_progress-keys job p now s) out
  after-IsSpent now (stages job payload) s x out = out
  after-IsSpent now (unstages job) s x out = out
  after-IsSpent now (finishes job status code summary) s x out =
      kept-IsSpent h (finish_delivery_job-keys job status code summary now s) out
  after-IsSpent now recovers s x out = out
  after-IsSpent now (cancels public_id) s x out =
      kept-IsSpent h (cancel_queued_delivery_job-keys public_id now s) out
  after-IsSpent now (clears_job public_id) s x out =
      kept-IsSpent h (clear_terminal_delivery_job-keys public_id s) out
  after-IsSpent now clears_jobs s x out = out

  run-IsSpent :
      (calls : List (ℕ × Call)) (s : ResourceBotStore)
      → IsSound s
      → IsSpent h s.activation_keys
      → IsSound (run key_hash key_prefix calls s)
        × IsSpent h (run key_hash key_prefix calls s).activation_keys
  unfolding run
  run-IsSpent [] s x out = (x, out)
  run-IsSpent ((now, c) ∷ calls) s x out =
      run-IsSpent calls (after key_hash key_prefix now c s)
        (after-IsSound key_hash key_prefix now c s x) (after-IsSpent now c s x out)

module _ (key_hash key_prefix : String → String) where
  -- When a redemption of a key succeeds, after any calls on empty tables, then after any further calls a
  -- redemption of a key with the same digest, by any user, fails and changes nothing.
  pub redeem_activation_key-once :
      (calls more : List (ℕ × Call)) (key again : String) (user_id other : ℤ) (now later : ℕ)
      → (redeem_activation_key key_hash key user_id now
          (run key_hash key_prefix calls empty_tables)).0
        ≡ true
      → key_hash again ≡ key_hash key
      → redeem_activation_key key_hash again other later (
          run key_hash key_prefix more
            (redeem_activation_key key_hash key user_id now
              (run key_hash key_prefix calls empty_tables)).1)
        ≡ (
          false,
          run key_hash key_prefix more
              (redeem_activation_key key_hash key user_id now
                (run key_hash key_prefix calls empty_tables)).1,
        )
  redeem_activation_key-once calls more key again user_id other now later ok same =
      let s = run key_hash key_prefix calls empty_tables in
      let x = run-empty_tables-IsSound key_hash key_prefix calls in
      let t = (redeem_activation_key key_hash key user_id now s).1 in
      let (sound, out) =
        run-IsSpent key_hash key_prefix (key_hash again) more t
          (redeem_activation_key-IsSound key_hash key user_id now s x)
          (subst (λ h. IsSpent h t.activation_keys) (sym same)
            (redeemed-IsSpent key_hash key user_id now s x ok)) in
      spent-refused key_hash again other later (run key_hash key_prefix more t) sound out
