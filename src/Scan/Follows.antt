-- ===== src/Scan/Follows.antt =====
-- The statuses of scan jobs across calls, against ALLOWED_SCAN_TRANSITIONS.
use telegram_media_downloade.Prelude.{
  ℕ, ◌≡◌, inl, inr, refl, sym, ◌∙◌, subst, true, not, ◌&&◌, Option, none, some, String, if-cases,
  arith, Bool-cases, Option-cases, nat_beq, any,
}
use telegram_media_downloade.Rows.{select_one, select, update_where, least}
use telegram_media_downloade.Scan.{
  ScanStatus, Control, ScanJob, ScanStore, is_running, is_queued, is_allowed,
}
use telegram_media_downloade.Scan.Controls.{
  get_job, status_after, apply_control, consume_job_control, is_before, start_job, claim_next_job,
}
use telegram_media_downloade.Scan.Jobs.{
  transition_error, transitioned, move_job, transition_job, is_interrupted, recovered,
  recover_interrupted_jobs,
}
use telegram_media_downloade.Scan.Transitions.{found_id}
use telegram_media_downloade.Scan.Calls.{
  Call, creates, requests, consumes, retries, claims, transitions, recovers, rewrites, after,
}
use telegram_media_downloade.Scan.Rows.{
  Follows, FollowsTo, same_rows, updated-Follows, create_scan_job-Follows,
  request_job_control-Follows, record_job_retry-Follows,
}

-- A running job may be paused or stopped.
controlled_allowed :
    (s : ScanStatus) (action : Control)
    → is_running s ≡ true
    → is_allowed s (status_after action) ≡ true
controlled_allowed s action r = ground (arith, r)

apply_control-Follows :
    (action : Control) (job : ScanJob) (now : ℕ) (s : ScanStore)
    → FollowsTo s (apply_control action job now s)
unfolding apply_control
apply_control-Follows action job now s =
    if-cases (FollowsTo s) (not (is_running job.status)) _ _ (λ e. same_rows s)
      (λ e.
        updated-Follows (λ j. nat_beq j.id job.id && is_running j.status) _ (λ j. refl) s
          s.libraries
          (λ i j found t.
            (refl, refl, refl, inr (controlled_allowed j.status action (ground (arith, t))))))

consume_job_control-Follows :
    (job_id now : ℕ) (s : ScanStore) → FollowsTo s (consume_job_control job_id now s)
unfolding consume_job_control
consume_job_control-Follows job_id now s = elim (Option-cases (get_job job_id s)) [
  | inl e ↦ rw (e, consume_job_control) (same_rows s)
  | inr (job, e) ↦ elim (Option-cases job.control_requested) [
    | inl n ↦ rw (e, n, consume_job_control) (same_rows s)
    | inr (action, n) ↦ rw (e, n, consume_job_control) (apply_control-Follows action job now s)
  ]
]

start_job-Follows : (row : ScanJob) (now : ℕ) (s : ScanStore) → FollowsTo s (start_job row now s)
unfolding start_job
start_job-Follows row now s =
    updated-Follows (λ j. nat_beq j.id row.id && is_queued j.status) _ (λ j. refl) s s.libraries
      (λ i j found t. (refl, refl, refl, inr (ground (arith, t))))

claim_next_job-Follows : (now : ℕ) (s : ScanStore) → FollowsTo s (claim_next_job now s)
unfolding claim_next_job
claim_next_job-Follows now s =
    elim (Bool-cases (any (λ (j : ScanJob). is_running j.status) s.jobs)) [
      | inl busy ↦ rw busy (same_rows s)
      | inr quiet ↦
          elim (Option-cases
            (least is_before (select (λ (j : ScanJob). is_queued j.status) s.jobs))) [
              | inl e ↦ rw (quiet, e, claim_next_job) (same_rows s)
              | inr (row, e) ↦ rw (quiet, e, claim_next_job) (start_job-Follows row now s)
            ]
    ]

-- An interrupted job may be queued, paused or stopped.
recovered_allowed :
    (now : ℕ) (j : ScanJob)
    → is_interrupted now j ≡ true
    → is_allowed j.status (recovered now j).status ≡ true
recovered_allowed now j t = ground (arith, t)

recover_interrupted_jobs-Follows :
    (now : ℕ) (s : ScanStore) → FollowsTo s (recover_interrupted_jobs now s)
unfolding recover_interrupted_jobs get_job update_where
recover_interrupted_jobs-Follows now s =
    updated-Follows (is_interrupted now) (recovered now) (λ j. refl) s s.libraries
      (λ i j found t. (refl, refl, refl, inr (recovered_allowed now j t)))

transition_error-allowed :
    (job : ScanJob) (new_status : ScanStatus) (now : ℕ) (wait_until : Option ℕ) (s : ScanStore)
    → transition_error job new_status now wait_until s ≡ none
    → is_allowed job.status new_status ≡ true
unfolding transition_error
transition_error-allowed job new_status now wait_until s e = ground (arith, e)

-- A row that two ids find is one row.
found_same :
    (s : ScanStore) (i : ℕ) (j job : ScanJob)
    → get_job i s ≡ some j
    → get_job job.id s ≡ some job
    → nat_beq j.id job.id ≡ true
    → j ≡ job
unfolding get_job
found_same s i j job found known t =
    let own : i ≡ job.id = sym (found_id i s.jobs j found) ∙ ground (arith, t) in
    let again : get_job job.id s ≡ some j = subst (λ k. get_job k s ≡ some j) own found in
    let same : some j ≡ some job = sym again ∙ known in ground (arith, same)

move_job-Follows :
    (job : ScanJob) (new_status : ScanStatus) (now : ℕ) (wait_until : Option ℕ)
    (wait_reason last_error : Option String) (s : ScanStore)
    → get_job job.id s ≡ some job
    → FollowsTo s (move_job job new_status now wait_until wait_reason last_error s)
unfolding move_job
move_job-Follows job new_status now wait_until wait_reason last_error s known =
    elim (Option-cases (transition_error job new_status now wait_until s)) [
      | inr (e, h) ↦ rw (h, move_job) (same_rows s)
      | inl h ↦
          rw (h, move_job)
            (updated-Follows (λ j. nat_beq j.id job.id)
              (transitioned new_status now wait_until wait_reason last_error) (λ j. refl) s
              s.libraries
              (λ i j found t. (
                refl,
                refl,
                refl,
                inr (
                    rw (found_same s i j job found known t)
                      (transition_error-allowed job new_status now wait_until s h)),
              )))
    ]

transition_job-Follows :
    (job_id : ℕ) (new_status : Option ScanStatus) (now : ℕ) (wait_until : Option ℕ)
    (wait_reason last_error : Option String) (s : ScanStore)
    → FollowsTo s (transition_job job_id new_status now wait_until wait_reason last_error s)
unfolding transition_job get_job
transition_job-Follows job_id none now wait_until wait_reason last_error s = same_rows s
transition_job-Follows job_id (some new_status) now wait_until wait_reason last_error s =
    elim (Option-cases (get_job job_id s)) [
      | inl e ↦ rw (e, transition_job) (same_rows s)
      | inr (job, e) ↦
          rw (e, transition_job)
            (move_job-Follows job new_status now wait_until wait_reason last_error s (
              subst (λ k. select_one (λ (j : ScanJob). nat_beq j.id k) s.jobs ≡ some job)
                (sym (found_id job_id s.jobs job e)) e))
    ]

-- One call of any of the modelled methods, on any store, keeps every job under its id, with its library and
-- its snapshot, and leaves its status as it is or changes it along ALLOWED_SCAN_TRANSITIONS.
pub after-Follows : (now : ℕ) (c : Call) (s : ScanStore) → Follows s (after now c s)
unfolding after get_job
after-Follows now (creates library kind start snapshot) s =
    create_scan_job-Follows library kind start snapshot now s
after-Follows now (requests job action) s = request_job_control-Follows job action now s
after-Follows now (consumes job) s = consume_job_control-Follows job now s
after-Follows now (retries job error) s = record_job_retry-Follows job error now s
after-Follows now claims s = claim_next_job-Follows now s
after-Follows now (transitions job status until reason error) s =
    transition_job-Follows job status now until reason error s
after-Follows now recovers s = recover_interrupted_jobs-Follows now s
after-Follows now (rewrites libraries failures targets) s = same_rows s
