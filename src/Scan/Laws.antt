-- ===== src/Scan/Laws.antt =====
-- The invariant and the methods that control, claim and recover scan jobs.
use telegram_media_downloade.Prelude.{
  ℕ, ◌≡◌, inl, inr, refl, Bool, true, false, not, ◌&&◌, Option, none, some, String, List, [], ◌∷◌,
  if-cases, arith, nat_key, All, Bool-cases, Option-cases, nat_beq, any,
}
use telegram_media_downloade.Rows.{select, least}
use telegram_media_downloade.Rows.Laws.{update_where-All}
use telegram_media_downloade.Scan.{
  Control, pause, stop, ScanJob, ScanStore, is_running, is_queued, is_waiting, is_finished,
}
use telegram_media_downloade.Scan.Controls.{
  get_job, update_running, request_job_control, record_job_retry, status_after, apply_control,
  consume_job_control, is_before, start_job, claim_next_job,
}
use telegram_media_downloade.Scan.Jobs.{
  is_interrupted, recovered_status, recovered, recover_interrupted_jobs,
}
use telegram_media_downloade.Scan.Invariant.{
  IsJobSound, IsSound, IsJobChange, changed-AreJobsSound, kept-AreJobsSound,
}

-- The answer's store is sound.
abbrev pub HasSound {ℓ} : {A : Type ℓ} → A × ScanStore → Type 0
HasSound r = IsSound r.1

pub any_none :
    (test : ScanJob → Bool) (js : List ScanJob) → any test js ≡ false → All (λ j. test j ≡ false) js
any_none test [] h = tt
any_none test (j ∷ js) h = (ground (arith, h), any_none test js (ground (arith, h)))

update_running-IsSound :
    (change : ScanJob → ScanJob) (job_id : ℕ) (s : ScanStore)
    → IsSound s
    → IsJobChange s.next_job_id (λ j. nat_beq j.id job_id && is_running j.status) change
    → HasSound (update_running change job_id s)
unfolding update_running
update_running-IsSound change job_id s x c = elim (Option-cases (get_job job_id s)) [
  | inl e ↦ rw (e, update_running) x
  | inr (job, e) ↦
      rw (e, update_running)
        (if-cases HasSound (not (is_running job.status)) _ _ (λ e. x)
          (λ e. kept-AreJobsSound s.jobs c (λ j t r. ground (arith, t)) x))
]

pub request_job_control-IsSound :
    (job_id : ℕ) (action : Option Control) (now : ℕ) (s : ScanStore)
    → IsSound s
    → HasSound (request_job_control job_id action now s)
unfolding request_job_control
request_job_control-IsSound job_id none now s x = x
request_job_control-IsSound job_id (some action) now s x =
    update_running-IsSound _ job_id s x (record {
      same_id = λ j. refl;
      same_library = λ j. refl;
      closes = λ j t o. o;
      keeps = λ j t h. (inr (ground (arith, t)), h.1, h.2, h.3, h.4);
    })

pub record_job_retry-IsSound :
    (job_id : ℕ) (last_error : String) (now : ℕ) (s : ScanStore)
    → IsSound s
    → HasSound (record_job_retry job_id last_error now s)
unfolding record_job_retry
record_job_retry-IsSound job_id last_error now s x = update_running-IsSound _ job_id s x (record {
  same_id = λ j. refl;
  same_library = λ j. refl;
  closes = λ j t o. o;
  keeps = λ j t h. h;
})

-- A control request is applied.
controlled-IsJobSound :
    (action : Control) (now next : ℕ) (j : ScanJob)
    → IsJobSound next j
    → IsJobSound next
        (record j { status = status_after action; control_requested = none; updated_at = now })
controlled-IsJobSound pause now next j h = (inl refl, inl refl, inl refl, inl refl, h.4)
controlled-IsJobSound stop now next j h = (inl refl, inl refl, inl refl, inl refl, h.4)

runs_not_after : (action : Control) → is_running (status_after action) ≡ false
runs_not_after pause = refl
runs_not_after stop = refl

apply_control-IsSound :
    (action : Control) (job : ScanJob) (now : ℕ) (s : ScanStore)
    → IsSound s
    → HasSound (apply_control action job now s)
unfolding apply_control
apply_control-IsSound action job now s x =
    if-cases HasSound (not (is_running job.status)) _ _ (λ e. x)
      (λ e.
        kept-AreJobsSound s.jobs
          (record {
            same_id = λ j. refl;
            same_library = λ j. refl;
            closes = λ j t o. ground (arith, t);
            keeps = λ j t h. controlled-IsJobSound action now s.next_job_id j h;
          })
          (λ j t r. absurd (ground (arith, runs_not_after action, r))) x)

pub consume_job_control-IsSound :
    (job_id now : ℕ) (s : ScanStore) → IsSound s → HasSound (consume_job_control job_id now s)
unfolding consume_job_control
consume_job_control-IsSound job_id now s x = elim (Option-cases (get_job job_id s)) [
  | inl e ↦ rw (e, consume_job_control) x
  | inr (job, e) ↦ elim (Option-cases job.control_requested) [
    | inl n ↦ rw (e, n, consume_job_control) x
    | inr (action, n) ↦ rw (e, n, consume_job_control) (apply_control-IsSound action job now s x)
  ]
]

start_job-IsSound :
    (row : ScanJob) (now : ℕ) (s : ScanStore)
    → any (λ (j : ScanJob). is_running j.status) s.jobs ≡ false
    → IsSound s
    → HasSound (start_job row now s)
unfolding start_job
start_job-IsSound row now s quiet x =
    changed-AreJobsSound row.id s.jobs
      (record {
        same_id = λ j. refl;
        same_library = λ j. refl;
        closes = λ j t o. ground (arith, t);
        keeps = λ j t h. (inr refl, inr (ground (arith, t, h.1)), inl refl, inl refl, h.4);
      })
      x
      (update_where-All (λ (j : ScanJob). is_running j.status ≡ false)
        (λ j. is_running j.status ≡ true → j.id ≡ row.id) _ _ s.jobs (λ j t h r. ground (arith, t))
        (λ j t h r. absurd (ground (arith, h, r)))
        (any_none (λ j. is_running j.status) s.jobs quiet))

pub claim_next_job-IsSound : (now : ℕ) (s : ScanStore) → IsSound s → HasSound (claim_next_job now s)
unfolding claim_next_job
claim_next_job-IsSound now s x =
    elim (Bool-cases (any (λ (j : ScanJob). is_running j.status) s.jobs)) [
      | inl busy ↦ rw busy x
      | inr quiet ↦
          elim (Option-cases
            (least is_before (select (λ (j : ScanJob). is_queued j.status) s.jobs))) [
              | inl e ↦ rw (quiet, e, claim_next_job) x
              | inr (row, e) ↦ rw (quiet, e, claim_next_job) (start_job-IsSound row now s quiet x)
            ]
    ]

recovered_rests :
    (c : Option Control)
    → (is_running (recovered_status c) ≡ false)
      × (is_waiting (recovered_status c) ≡ false)
      × (is_finished (recovered_status c) ≡ false)
recovered_rests none = (refl, refl, refl)
recovered_rests (some pause) = (refl, refl, refl)
recovered_rests (some stop) = (refl, refl, refl)

recovered-IsJobSound :
    (now next : ℕ) (j : ScanJob)
    → is_interrupted now j ≡ true
    → IsJobSound next j
    → IsJobSound next (recovered now j)
recovered-IsJobSound now next j t h =
    let (runs, waits, finishes) = recovered_rests j.control_requested in
    (inl refl, inr (ground (arith, t, h.1)), inl waits, inl finishes, h.4)

pub recover_interrupted_jobs-IsSound :
    (now : ℕ) (s : ScanStore) → IsSound s → HasSound (recover_interrupted_jobs now s)
unfolding recover_interrupted_jobs
recover_interrupted_jobs-IsSound now s x =
    kept-AreJobsSound s.jobs
      (record {
        same_id = λ j. refl;
        same_library = λ j. refl;
        closes = λ j t o. ground (arith, t);
        keeps = λ j t h. recovered-IsJobSound now s.next_job_id j t h;
      })
      (λ j t r. absurd (ground (arith, (recovered_rests j.control_requested).0, r))) x
