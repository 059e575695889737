-- ===== src/Resource/Runs.antt =====
-- The tables of the resource bot after any calls.
use telegram_media_downloade.Prelude.{ℕ, String, List, [], ◌∷◌}
use telegram_media_downloade.Resource.{ResourceBotStore, BindingStatus, empty_tables}
use telegram_media_downloade.Resource.Access.{mark_binding_permission_lost, mark_binding_verified}
use telegram_media_downloade.Resource.Calls.{
  Call, creates_key, redeems, revokes, binds, loses_permission, verifies, unbinds, creates_job,
  claims, progresses, stages, unstages, finishes, recovers, cancels, clears_job, clears_jobs, after,
  run,
}
use telegram_media_downloade.Resource.Invariant.{IsSound}
use telegram_media_downloade.Resource.KeyLaws.{
  create_activation_key-IsSound, redeem_activation_key-IsSound,
}
use telegram_media_downloade.Resource.AccessLaws.{revoke_user-IsSound}
use telegram_media_downloade.Resource.BindingLaws.{
  mark_binding-IsSound, unbind_channel-IsSound, bind_channel-IsSound,
}
use telegram_media_downloade.Resource.RequestLaws.{create_delivery_job-IsSound}
use telegram_media_downloade.Resource.JobLaws.{
  claim_next_delivery_job-IsSound, update_job_progress-IsSound, set_staging_manifest-IsSound,
  clear_staging_manifest-IsSound, finish_delivery_job-IsSound, recover_interrupted_jobs-IsSound,
  cancel_queued_delivery_job-IsSound, clear_terminal_delivery_job-IsSound,
  clear_terminal_delivery_jobs-IsSound,
}

module _ (key_hash key_prefix : String → String) where
  pub after-IsSound :
      (now : ℕ) (c : Call) (s : ResourceBotStore)
      → IsSound s
      → IsSound (after key_hash key_prefix now c s)
  unfolding after mark_binding_permission_lost mark_binding_verified
  after-IsSound now (creates_key draws by) s x =
      create_activation_key-IsSound key_hash key_prefix draws by now s x
  after-IsSound now (redeems key user) s x = redeem_activation_key-IsSound key_hash key user now s x
  after-IsSound now (revokes user) s x = revoke_user-IsSound user now s x
  after-IsSound now (binds user chat title username) s x =
      bind_channel-IsSound user chat title username now s x
  after-IsSound now (loses_permission chat) s x =
      mark_binding-IsSound BindingStatus.permission_lost chat now s x
  after-IsSound now (verifies chat) s x = mark_binding-IsSound BindingStatus.active chat now s x
  after-IsSound now (unbinds user) s x = unbind_channel-IsSound user now s x
  after-IsSound now (creates_job job public_id) s x =
      create_delivery_job-IsSound job public_id now s x
  after-IsSound now claims s x = claim_next_delivery_job-IsSound now s x
  after-IsSound now (progresses job p) s x = update_job_progress-IsSound job p now s x
  after-IsSound now (stages job payload) s x = set_staging_manifest-IsSound job payload now s x
  after-IsSound now (unstages job) s x = clear_staging_manifest-IsSound job s x
  after-IsSound now (finishes job status code summary) s x =
      finish_delivery_job-IsSound job status code summary now s x
  after-IsSound now recovers s x = recover_interrupted_jobs-IsSound now s x
  after-IsSound now (cancels public_id) s x = cancel_queued_delivery_job-IsSound public_id now s x
  after-IsSound now (clears_job public_id) s x = clear_terminal_delivery_job-IsSound public_id s x
  after-IsSound now clears_jobs s x = clear_terminal_delivery_jobs-IsSound s x

  run_from-IsSound :
      (calls : List (ℕ × Call)) (s : ResourceBotStore)
      → IsSound s
      → IsSound (run key_hash key_prefix calls s)
  unfolding run
  run_from-IsSound [] s x = x
  run_from-IsSound ((now, c) ∷ calls) s x =
      run_from-IsSound calls (after key_hash key_prefix now c s) (after-IsSound now c s x)

  -- After any calls on empty tables, whatever they raise, whatever the digest of a key: every binding that is
  -- not unbound, and every queued job, is one of an active user, so a revoked user has none; no user
  -- has two bindings and no chat two users; ids, digests, public ids and idempotency keys are
  -- unique; and only a job that is worked on has a speed.
  pub run-empty_tables-IsSound :
      (calls : List (ℕ × Call)) → IsSound (run key_hash key_prefix calls empty_tables)
  run-empty_tables-IsSound calls = run_from-IsSound calls empty_tables (record {
    keys = record { ids = tt; hashes = tt; below = tt };
    bindings = record { one_for_user = tt; one_for_chat = tt; in_force = tt };
    jobs = record { ids = tt; idempotent = tt; public_ids = tt; sound = tt };
  })
