-- ===== src/Scan/Runs.antt =====
-- The scan jobs after any calls.
use telegram_media_downloade.Prelude.{
  ℕ, ◌≤◌, ◌≡◌, refl, sym, ap, ◌∙◌, subst, Bool, true, false, ◌&&◌, ◌||◌, Option, none, some, List,
  [], ◌∷◌, if◌then◌else◌, arith, nat_key, nat_beq, count,
}
use telegram_media_downloade.Rows.{select_one, select, update_where}
use telegram_media_downloade.Rows.Found.{update_where-same, select_one-update_where}
use telegram_media_downloade.Scan.{
  ScanStatus, Control, pause, stop, ScanJob, ScanStore, returns, is_running, paused_user,
}
use telegram_media_downloade.Scan.Controls.{
  get_job, requested, update_running, request_job_control, status_after, apply_control,
  consume_job_control,
}
use telegram_media_downloade.Scan.Invariant.{id_of, IsSound, IsSound-count}
use telegram_media_downloade.Scan.Laws.{
  request_job_control-IsSound, record_job_retry-IsSound, consume_job_control-IsSound,
  claim_next_job-IsSound, recover_interrupted_jobs-IsSound,
}
use telegram_media_downloade.Scan.Transitions.{
  transition_job-IsSound, create_scan_job-IsSound, found_id,
}
use telegram_media_downloade.Scan.Calls.{
  Call, creates, requests, consumes, retries, claims, transitions, recovers, rewrites, after, run,
  no_jobs, request_all,
}

pub after-IsSound : (now : ℕ) (c : Call) (s : ScanStore) → IsSound s → IsSound (after now c s)
unfolding after
after-IsSound now (creates library kind start snapshot) s x =
    create_scan_job-IsSound library kind start snapshot now s x
after-IsSound now (requests job action) s x = request_job_control-IsSound job action now s x
after-IsSound now (consumes job) s x = consume_job_control-IsSound job now s x
after-IsSound now (retries job error) s x = record_job_retry-IsSound job error now s x
after-IsSound now claims s x = claim_next_job-IsSound now s x
after-IsSound now (transitions job status until reason error) s x =
    transition_job-IsSound job status now until reason error s x
after-IsSound now recovers s x = recover_interrupted_jobs-IsSound now s x
after-IsSound now (rewrites libraries failures targets) s x = x

run_from-IsSound : (calls : List (ℕ × Call)) (s : ScanStore) → IsSound s → IsSound (run calls s)
unfolding run
run_from-IsSound [] s x = x
run_from-IsSound ((now, c) ∷ calls) s x =
    run_from-IsSound calls (after now c s) (after-IsSound now c s x)

-- After any calls of the modelled methods on a store without jobs, whatever they raise and whatever the other tables
-- hold: at most one job runs, and no library has two jobs that are recoverable; only a running job has a
-- control request; a job that is queued, running or paused by a download has no rate-limit deadline, and one that waits has one;
-- a completed or partial job has fetched and indexed up to its snapshot; and ids are unique.
pub run-no_jobs-IsSound :
    (calls : List (ℕ × Call))
    → IsSound (run calls no_jobs) × (count (λ j. is_running j.status) (run calls no_jobs).jobs ≤ 1)
unfolding select
run-no_jobs-IsSound calls =
    let x =
      run_from-IsSound calls no_jobs
        (record { ids = tt; one_for_library = tt; runner = 0; only_runner = tt; sound = tt }) in
    (x, IsSound-count (run calls no_jobs) x)

-- The UPDATE of a running job.
update_running-found :
    (change : ScanJob → ScanJob) (job_id : ℕ) (s : ScanStore) (job : ScanJob)
    → get_job job_id s ≡ some job
    → is_running job.status ≡ true
    → (update_running change job_id s).1 ≡ record s {
      jobs = update_where (λ j. nat_beq j.id job_id && is_running j.status) change s.jobs;
    }
unfolding update_running
update_running-found change job_id s job found r = rw (found, update_running, r) refl

-- The job that a boundary makes of a running job with a request.
abbrev pub consumed : Control → ℕ → ScanJob → ScanJob
consumed action now j = record j {
  status = status_after action;
  control_requested = none;
  updated_at = now;
}

module _ (job_id : ℕ) where
  -- The row of a request that is accepted.
  request-found :
      (action : Control) (now : ℕ) (s : ScanStore) (job : ScanJob)
      → IsSound s
      → get_job job_id s ≡ some job
      → is_running job.status ≡ true
      → get_job job_id (request_job_control job_id (some action) now s).1
        ≡ some (record job {
          control_requested = some (requested action job.control_requested);
          updated_at = now;
        })
  unfolding request_job_control get_job
  request-found action now s job x found r =
      let change = λ (j : ScanJob). record j {
        control_requested = some (requested action j.control_requested);
        updated_at = now;
      } in
      rw
        (
          update_running-found change job_id s job found r,
          update_where-same id_of job_id (λ j. is_running j.status) change s.jobs job x.ids found r,
          select_one-update_where id_of job_id change s.jobs job (λ j. refl) found,
        )
        refl

  -- What a list of requests leaves, after an earlier one.
  abbrev pub joint : Option Control → List (ℕ × Control) → Option Control
  joint old [] = old
  joint old ((now, action) ∷ actions) = joint (some (requested action old)) actions

  -- The job that a list of requests leaves.
  requests-found :
      (actions : List (ℕ × Control)) (s : ScanStore) (job : ScanJob)
      → IsSound s
      → get_job job_id s ≡ some job
      → is_running job.status ≡ true
      → (later : ScanJob) × (get_job job_id (request_all job_id actions s) ≡ some later)
        × (is_running later.status ≡ true)
        × (later.control_requested ≡ joint job.control_requested actions)
        × ((action : Control) (now : ℕ) → consumed action now later ≡ consumed action now job)
  unfolding request_all
  requests-found [] s job x found r = (job, found, r, refl, λ action now. refl)
  requests-found ((now, action) ∷ actions) s job x found r =
      requests-found actions (request_job_control job_id (some action) now s).1 _
        (request_job_control-IsSound job_id (some action) now s x)
        (request-found action now s job x found r) r

-- `stop` was requested.
abbrev pub asks_stop : Option Control → Bool
asks_stop (some stop) = true
asks_stop _ = false

abbrev pub any_stop : List (ℕ × Control) → Bool
any_stop [] = false
any_stop ((now, action) ∷ actions) = asks_stop (some action) || any_stop actions

-- A stop is not taken back by a later pause.
joint-any_stop :
    (job_id : ℕ) (old : Option Control) (now : ℕ) (action : Control) (actions : List (ℕ × Control))
    → joint job_id old ((now, action) ∷ actions)
      ≡ some (if asks_stop old || any_stop ((now, action) ∷ actions) then stop else pause)
joint-any_stop job_id old now action [] = ground arith
joint-any_stop job_id old now action ((later, next) ∷ actions) =
    joint-any_stop job_id (some (requested action old)) later next actions ∙ ground arith

apply_control-found :
    (action : Control) (job : ScanJob) (now : ℕ) (s : ScanStore)
    → IsSound s
    → get_job job.id s ≡ some job
    → is_running job.status ≡ true
    → ((apply_control action job now s).0 ≡ returns (some (consumed action now job)))
      × (get_job job.id (apply_control action job now s).1 ≡ some (consumed action now job))
unfolding apply_control get_job
apply_control-found action job now s x found r =
    rw
      (
        r,
        update_where-same id_of job.id (λ j. is_running j.status) (consumed action now) s.jobs job
            x.ids found r,
        select_one-update_where id_of job.id (consumed action now) s.jobs job (λ j. refl) found,
      )
      (refl, refl)

consume-found :
    (job_id now : ℕ) (s : ScanStore) (job : ScanJob) (action : Control)
    → IsSound s
    → get_job job_id s ≡ some job
    → is_running job.status ≡ true
    → job.control_requested ≡ some action
    → ((consume_job_control job_id now s).0 ≡ returns (some (consumed action now job)))
      × (get_job job_id (consume_job_control job_id now s).1 ≡ some (consumed action now job))
unfolding consume_job_control get_job
consume-found job_id now s job action x found r c =
    let own_id = found_id job_id s.jobs job found in
    let (reply, left) =
      apply_control-found action job now s x
        (subst (λ k. select_one (λ (j : ScanJob). nat_beq j.id k) s.jobs ≡ some job) (sym own_id)
          found)
        r in
    rw (found, c, consume_job_control)
      (
        reply,
        subst (λ k. get_job k (apply_control action job now s).1 ≡ some (consumed action now job))
            own_id left,
      )

request_all-IsSound :
    (job_id : ℕ) (actions : List (ℕ × Control)) (s : ScanStore)
    → IsSound s
    → IsSound (request_all job_id actions s)
unfolding request_all
request_all-IsSound job_id [] s x = x
request_all-IsSound job_id ((now, action) ∷ actions) s x =
    request_all-IsSound job_id actions (request_job_control job_id (some action) now s).1
      (request_job_control-IsSound job_id (some action) now s x)

status_after-if :
    (b : Bool)
    → status_after (if b then stop else pause) ≡ (if b then ScanStatus.stopped else paused_user)
status_after-if true = refl
status_after-if false = refl

-- After any calls of the modelled methods on a store without jobs: when a running job gets one or more
-- requests to pause or stop, the next batch boundary answers with that job as it was before the
-- requests, but for its status and the time of the update, and without a request; the store then has
-- this job under its id. It is stopped when a stop was among these requests or pending before, and
-- else paused.
pub requests-consume :
    (calls : List (ℕ × Call)) (job_id now later : ℕ) (job : ScanJob) (action : Control)
    (actions : List (ℕ × Control))
    → get_job job_id (run calls no_jobs) ≡ some job
    → is_running job.status ≡ true
    → (last : ScanJob) × (last ≡ record job {
      status =
          if asks_stop job.control_requested || any_stop ((now, action) ∷ actions)
          then ScanStatus.stopped
          else paused_user;
      control_requested = none;
      updated_at = later;
    })
      × ((consume_job_control job_id later
            (request_all job_id ((now, action) ∷ actions) (run calls no_jobs))).0
          ≡ returns (some last))
      × (get_job job_id
            (consume_job_control job_id later
              (request_all job_id ((now, action) ∷ actions) (run calls no_jobs))).1
          ≡ some last)
requests-consume calls job_id now later job action actions found r =
    let s = run calls no_jobs in
    let x = run-no_jobs-IsSound calls in
    let asked = (now, action) ∷ actions in
    let decision : Control =
      if asks_stop job.control_requested || any_stop asked then stop else pause in
    let (last, f, runs, c, same) = requests-found job_id asked s job x.0 found r in
    let (reply, left) =
      consume-found job_id later (request_all job_id asked s) last decision
        (request_all-IsSound job_id asked s x.0) f runs
        (c ∙ joint-any_stop job_id job.control_requested now action actions) in
    (
      consumed decision later last,
      same decision later
          ∙ ap
              (λ status. record job {
                status = status;
                control_requested = none;
                updated_at = later;
              })
              (status_after-if (asks_stop job.control_requested || any_stop asked)),
      reply,
      left,
    )
