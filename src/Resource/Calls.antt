-- ===== src/Resource/Calls.antt =====
-- The calls that change the store of the resource bot, in the order in which SQLite admits them.
use telegram_media_downloade.Prelude.{ℕ, Option, String, List, [], ◌∷◌}
use telegram_media_downloade.Prelude.Int.{ℤ}
use telegram_media_downloade.Resource.{JobStatus, ResourceBotStore}
use telegram_media_downloade.Resource.Access.{
  create_activation_key, redeem_activation_key, revoke_user, bind_channel,
  mark_binding_permission_lost, mark_binding_verified, unbind_channel,
}
use telegram_media_downloade.Resource.Deliveries.{
  NewJob, create_delivery_job, claim_next_delivery_job,
}
use telegram_media_downloade.Resource.Jobs.{
  Progress, update_job_progress, set_staging_manifest, clear_staging_manifest, finish_delivery_job,
  recover_interrupted_jobs, cancel_queued_delivery_job, clear_terminal_delivery_job,
  clear_terminal_delivery_jobs,
}

pub data Call : Type 0 where
  -- the keys that are drawn, and who asks
  creates_key : List String → ℤ → Call
  redeems : String → ℤ → Call
  revokes : ℤ → Call
  binds : ℤ → ℤ → String → Option String → Call
  loses_permission verifies : ℤ → Call
  unbinds : ℤ → Call
  -- the job, and the public id that is drawn
  creates_job : NewJob → String → Call
  claims : Call
  progresses : ℕ → Progress → Call
  stages : ℕ → String → Call
  unstages : ℕ → Call
  finishes : ℕ → JobStatus → Option String → Option String → Call
  recovers : Call
  cancels clears_job : String → Call
  clears_jobs : Call

module _ (key_hash key_prefix : String → String) where
  unfoldable pub after : ℕ → Call → ResourceBotStore → ResourceBotStore
  after now (creates_key draws by) s = (create_activation_key key_hash key_prefix draws by now s).1
  after now (redeems key user) s = (redeem_activation_key key_hash key user now s).1
  after now (revokes user) s = (revoke_user user now s).1
  after now (binds user chat title username) s = (bind_channel user chat title username now s).1
  after now (loses_permission chat) s = (mark_binding_permission_lost chat now s).1
  after now (verifies chat) s = (mark_binding_verified chat now s).1
  after now (unbinds user) s = (unbind_channel user now s).1
  after now (creates_job job public_id) s = (create_delivery_job job public_id now s).1
  after now claims s = (claim_next_delivery_job now s).1
  after now (progresses job p) s = (update_job_progress job p now s).1
  after now (stages job payload) s = set_staging_manifest job payload now s
  after now (unstages job) s = clear_staging_manifest job s
  after now (finishes job status code summary) s =
      (finish_delivery_job job status code summary now s).1
  after now recovers s = (recover_interrupted_jobs now s).1
  after now (cancels public_id) s = (cancel_queued_delivery_job public_id now s).1
  after now (clears_job public_id) s = (clear_terminal_delivery_job public_id s).1
  after now clears_jobs s = (clear_terminal_delivery_jobs s).1

  unfoldable pub run : List (ℕ × Call) → ResourceBotStore → ResourceBotStore
  run [] s = s
  run ((now, c) ∷ calls) s = run calls (after now c s)
