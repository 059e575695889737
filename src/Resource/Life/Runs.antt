-- ===== src/Resource/Life/Runs.antt =====
-- Runs of the store as runs of the automaton.
use telegram_media_downloade.Prelude.{
  ℕ, ◌≡◌, refl, sym, ◌∙◌, subst, true, String, List, [], ◌∷◌, arith,
}
use telegram_media_downloade.Resource.{
  JobStatus, BindingStatus, DeliveryJob, ResourceBotStore, empty_tables, is_terminal_job,
}
use telegram_media_downloade.Resource.Access.{mark_binding_permission_lost, mark_binding_verified}
use telegram_media_downloade.Resource.Calls.{
  Call, creates_key, redeems, revokes, binds, loses_permission, verifies, unbinds, creates_job,
  claims, progresses, stages, unstages, finishes, recovers, cancels, clears_job, clears_jobs, after,
  run,
}
use telegram_media_downloade.Resource.Invariant.{IsSound}
use telegram_media_downloade.Resource.Runs.{after-IsSound, run-empty_tables-IsSound}
use telegram_media_downloade.Resource.Life.{
  ◌⟶◌, rests, starts, works, ends, Life, alive, life, ◌⇒◌, stays, is_created, moves, is_cleared,
  ◌⇒*◌, here, then, IsFinal,
}
use telegram_media_downloade.Resource.Life.Changes.{Moves}
use telegram_media_downloade.Resource.Life.Starts.{
  create_delivery_job-Moves, claim_next_delivery_job-Moves,
}
use telegram_media_downloade.Resource.Life.Moves.{
  create_activation_key-Moves, redeem_activation_key-Moves, revoke_user-Moves, bind_channel-Moves,
  mark_binding-Moves, unbind_channel-Moves, update_job_progress-Moves, set_staging_manifest-Moves,
  clear_staging_manifest-Moves, finish_delivery_job-Moves, recover_interrupted_jobs-Moves,
  cancel_queued_delivery_job-Moves, clear_terminal_delivery_job-Moves,
  clear_terminal_delivery_jobs-Moves,
}

-- A status of an ended job does not change.
final-⟶ : (s t : JobStatus) → is_terminal_job s ≡ true → s ⟶ t → t ≡ s
final-⟶ s t h rests = refl
final-⟶ s t h starts = absurd (ground arith)
final-⟶ s t h (works a b) = ground (arith, h, a)
final-⟶ s t h (ends a b) = absurd (ground (arith, h, a))

IsFinal-⇒ :
    (j : DeliveryJob) (v w : Life)
    → is_terminal_job j.status ≡ true
    → IsFinal j v
    → v ⇒ w
    → IsFinal j w
IsFinal-⇒ j v w h f stays = f
IsFinal-⇒ j v w h f (is_created q) = absurd (ground (arith, f))
IsFinal-⇒ j (alive k) (alive l) h f (moves kept step) = (
  f.0 ∙ kept,
  final-⟶ k.status l.status (subst (λ s. is_terminal_job s ≡ true) (sym f.1) h) step ∙ f.1,
)
IsFinal-⇒ j v w h f (is_cleared over) = tt

IsFinal-⇒* :
    (j : DeliveryJob) (v w : Life)
    → is_terminal_job j.status ≡ true
    → IsFinal j v
    → v ⇒* w
    → IsFinal j w
IsFinal-⇒* j v w h f here = f
IsFinal-⇒* j v w h f (then {v = u} step steps) = IsFinal-⇒* j u w h (IsFinal-⇒ j v u h f step) steps

module _ (key_hash key_prefix : String → String) where
  after-Moves :
      (now : ℕ) (c : Call) (s : ResourceBotStore)
      → IsSound s
      → Moves s (after key_hash key_prefix now c s)
  unfolding after mark_binding_permission_lost mark_binding_verified
  after-Moves now (creates_key draws by) s x =
      create_activation_key-Moves key_hash key_prefix draws by now s
  after-Moves now (redeems key user) s x = redeem_activation_key-Moves key_hash key user now s
  after-Moves now (revokes user) s x = revoke_user-Moves user now s
  after-Moves now (binds user chat title username) s x =
      bind_channel-Moves user chat title username now s x
  after-Moves now (loses_permission chat) s x =
      mark_binding-Moves BindingStatus.permission_lost chat now s
  after-Moves now (verifies chat) s x = mark_binding-Moves BindingStatus.active chat now s
  after-Moves now (unbinds user) s x = unbind_channel-Moves user now s
  after-Moves now (creates_job job public_id) s x = create_delivery_job-Moves job public_id now s
  after-Moves now claims s x = claim_next_delivery_job-Moves now s
  after-Moves now (progresses job p) s x = update_job_progress-Moves job p now s
  after-Moves now (stages job payload) s x = set_staging_manifest-Moves job payload now s
  after-Moves now (unstages job) s x = clear_staging_manifest-Moves job s
  after-Moves now (finishes job status code summary) s x =
      finish_delivery_job-Moves job status code summary now s
  after-Moves now recovers s x = recover_interrupted_jobs-Moves now s
  after-Moves now (cancels public_id) s x = cancel_queued_delivery_job-Moves public_id now s
  after-Moves now (clears_job public_id) s x = clear_terminal_delivery_job-Moves public_id s x
  after-Moves now clears_jobs s x = clear_terminal_delivery_jobs-Moves s x

  run-⇒* :
      (calls : List (ℕ × Call)) (s : ResourceBotStore)
      → IsSound s
      → (job_id : ℕ) → life job_id s ⇒* life job_id (run key_hash key_prefix calls s)
  unfolding run
  run-⇒* [] s x job_id = here
  run-⇒* ((now, c) ∷ calls) s x job_id = then (after-Moves now c s x job_id) (
      run-⇒* calls (after key_hash key_prefix now c s) (after-IsSound key_hash key_prefix now c s x)
        job_id)

  -- Whatever calls were made on empty tables, one more call moves every job id by at most one step of the automaton: an
  -- id that was never used becomes a queued job; a queued job starts, a job that is worked on stays so, and a
  -- job that has not ended may end, with its constants kept; an ended job may be cleared; and a cleared
  -- id is not used again.
  pub after-⇒ :
      (calls : List (ℕ × Call)) (now : ℕ) (c : Call) (job_id : ℕ)
      → life job_id (run key_hash key_prefix calls empty_tables)
        ⇒ life job_id (after key_hash key_prefix now c (run key_hash key_prefix calls empty_tables))
  after-⇒ calls now c job_id =
      after-Moves now c (run key_hash key_prefix calls empty_tables)
        (run-empty_tables-IsSound key_hash key_prefix calls) job_id

  -- A delivery job that has ended, after any calls on empty tables, has after any further calls the same
  -- status and constants, or is cleared.
  pub run-IsFinal :
      (calls more : List (ℕ × Call)) (job_id : ℕ) (j : DeliveryJob)
      → life job_id (run key_hash key_prefix calls empty_tables) ≡ alive j
      → is_terminal_job j.status ≡ true
      → IsFinal j
          (life job_id (run key_hash key_prefix more (run key_hash key_prefix calls empty_tables)))
  run-IsFinal calls more job_id j e over =
      IsFinal-⇒* j _ _ over (refl, refl)
        (subst
          (λ v.
            v
            ⇒* life job_id
                (run key_hash key_prefix more (run key_hash key_prefix calls empty_tables)))
          e
          (run-⇒* more (run key_hash key_prefix calls empty_tables)
            (run-empty_tables-IsSound key_hash key_prefix calls) job_id))
