-- ===== src/Scan/Transitions.antt =====
-- The invariant, `transition_job` and `create_scan_job`.
use telegram_media_downloade.Prelude.{
  ℕ, suc, ◌<◌, ◌≤◌, ◌≡◌, inl, inr, refl, sym, ap, subst, Bool, true, false, not, ◌&&◌, Option, none,
  some, is_some, String, List, [], ◌∷◌, ◌++◌, map, if-cases, arith, nat_key, elem, All,
  append-Distinct, Bool-cases, Option-cases, nat_beq, any,
}
use telegram_media_downloade.Prelude.Int.{ℤ}
use telegram_media_downloade.Rows.{select_one, select, update_where}
use telegram_media_downloade.Rows.Laws.{map-append_one, update_where-All, map-All, append-All}
use telegram_media_downloade.Rows.Found.{update_where-same}
use telegram_media_downloade.Scan.{
  ScanKind, ScanStatus, Library, ScanJob, ScanStore, is_running, is_queued, is_waiting, is_finished,
  is_recoverable, is_incremental, is_allowed,
}
use telegram_media_downloade.Scan.Controls.{
  get_job, new_job, insert_scan_job, valid_range, has_recoverable, has_finished_full,
  create_scan_job,
}
use telegram_media_downloade.Scan.Jobs.{transition_error, transitioned, move_job, transition_job}
use telegram_media_downloade.Scan.Invariant.{
  id_of, is_open, is_ready, IsJobSound, AreJobsSound, IsSound, open_libraries, IsJobChange,
  changed-AreJobsSound, kept-AreJobsSound,
}
use telegram_media_downloade.Scan.Laws.{HasSound, any_none}

-- What a transition that passes its checks has shown.
record IsFree (job : ScanJob) (new_status : ScanStatus) (now : ℕ) (wait_until : Option ℕ)
    (s : ScanStore) : Type 0 where
  allowed : is_allowed job.status new_status ≡ true
  alone :
      is_running new_status ≡ true
      → any (λ (j : ScanJob). is_running j.status && not (nat_beq j.id job.id)) s.jobs ≡ false
  deadline : is_waiting new_status ≡ true → is_some wait_until ≡ true
  reached :
      is_finished new_status ≡ true
      → (job.snapshot_max_message_id ≤ job.fetched_through_message_id)
        × (job.snapshot_max_message_id ≤ job.indexed_through_message_id)

transition_error-IsFree :
    (job : ScanJob) (new_status : ScanStatus) (now : ℕ) (wait_until : Option ℕ) (s : ScanStore)
    → transition_error job new_status now wait_until s ≡ none
    → IsFree job new_status now wait_until s
unfolding transition_error
transition_error-IsFree job new_status now wait_until s e = record {
  allowed = ground (arith, e);
  alone = λ r. ground (arith, e, r);
  deadline = λ w. ground (arith, e, w);
  reached = λ f. ground (arith, e, f);
}

-- The rows that a transition may change.
abbrev passes : ScanStatus → ℕ → Option ℕ → ScanStore → ScanJob → Bool
passes new_status now wait_until s j =
    not (is_some (transition_error j new_status now wait_until s))

ready_before :
    (s t : ScanStatus)
    → is_allowed s t ≡ true
    → is_ready t ≡ true
    → is_queued t ≡ false
    → is_ready s ≡ true
ready_before s t a r q = ground (arith, a, r, q)

recoverable_before : (s t : ScanStatus) → is_allowed s t ≡ true → is_recoverable s ≡ true
recoverable_before s t a = ground (arith, a)

transitioned-IsJobSound :
    (new_status : ScanStatus) (now : ℕ) (wait_until : Option ℕ)
    (wait_reason last_error : Option String) (s : ScanStore) (j : ScanJob)
    → IsFree j new_status now wait_until s
    → IsJobSound s.next_job_id j
    → IsJobSound s.next_job_id (transitioned new_status now wait_until wait_reason last_error j)
transitioned-IsJobSound new_status now wait_until wait_reason last_error s j f h = (
  elim (Bool-cases (is_running new_status)) [ inl e ↦ inr e | inr e ↦ inl (rw e refl) ],
  ground (arith, ready_before j.status new_status f.allowed, h.1),
  ground (arith, f.deadline),
  elim (Bool-cases (is_finished new_status)) [ inl e ↦ inr (f.reached e) | inr e ↦ inl e ],
  h.4,
)

move_job-IsSound :
    (job : ScanJob) (new_status : ScanStatus) (now : ℕ) (wait_until : Option ℕ)
    (wait_reason last_error : Option String) (s : ScanStore)
    → get_job job.id s ≡ some job
    → IsSound s
    → HasSound (move_job job new_status now wait_until wait_reason last_error s)
unfolding move_job get_job
move_job-IsSound job new_status now wait_until wait_reason last_error s found x =
    elim (Option-cases (transition_error job new_status now wait_until s)) [
      | inr (e, h) ↦ rw (h, move_job) x
      | inl h ↦
          let change = transitioned new_status now wait_until wait_reason last_error in
          let also = passes new_status now wait_until s in
          let test = λ (j : ScanJob). nat_beq j.id job.id && also j in
          let free = λ (j : ScanJob) (t : test j ≡ true).
            transition_error-IsFree j new_status now wait_until s (ground (arith, t)) in
          let c : IsJobChange s.next_job_id test change = record {
            same_id = λ j. refl;
            same_library = λ j. refl;
            closes = λ j t o. recoverable_before j.status new_status (free j t).allowed;
            keeps = λ j t k.
                transitioned-IsJobSound new_status now wait_until wait_reason last_error s j
                  (free j t) k;
          } in
          let same : update_where test change s.jobs
              ≡ update_where (λ j. nat_beq j.id job.id) change s.jobs =
            update_where-same id_of job.id also change s.jobs job x.ids found (ground (arith, h)) in
          let next : AreJobsSound s.next_job_id (update_where test change s.jobs) =
            elim (Bool-cases (is_running new_status)) [
              | inl r ↦ changed-AreJobsSound job.id s.jobs c x (
                  update_where-All
                    (λ (j : ScanJob). (is_running j.status && not (nat_beq j.id job.id)) ≡ false)
                    (λ j. is_running j.status ≡ true → j.id ≡ job.id) test change s.jobs
                    (λ j t k y. ground (arith, t)) (λ j t k y. ground (arith, k, y))
                    (any_none (λ j. is_running j.status && not (nat_beq j.id job.id)) s.jobs
                      ((transition_error-IsFree job new_status now wait_until s h).alone r)))
              | inr r ↦ kept-AreJobsSound s.jobs c (λ j t y. absurd (ground (arith, r, y))) x
            ] in
          rw (h, move_job) (subst (AreJobsSound s.next_job_id) same next)
    ]

-- The row that an id finds has it.
pub found_id :
    (job_id : ℕ) (js : List ScanJob) (job : ScanJob)
    → select_one (λ (j : ScanJob). nat_beq j.id job_id) js ≡ some job
    → job.id ≡ job_id
unfolding select_one
found_id job_id [] job e = absurd (ground (arith, e))
found_id job_id (j ∷ js) job e = elim (Bool-cases (nat_beq j.id job_id)) [
  | inl hit ↦
      let found : some j ≡ some job = rw hit at e in
      let same : j ≡ job = ground (arith, found) in rw (sym same) (ground (arith, hit))
  | inr miss ↦ found_id job_id js job (rw miss at e)
]

pub transition_job-IsSound :
    (job_id : ℕ) (new_status : Option ScanStatus) (now : ℕ) (wait_until : Option ℕ)
    (wait_reason last_error : Option String) (s : ScanStore)
    → IsSound s
    → HasSound (transition_job job_id new_status now wait_until wait_reason last_error s)
unfolding transition_job get_job
transition_job-IsSound job_id none now wait_until wait_reason last_error s x = x
transition_job-IsSound job_id (some new_status) now wait_until wait_reason last_error s x =
    elim (Option-cases (get_job job_id s)) [
      | inl e ↦ rw (e, transition_job) x
      | inr (job, e) ↦
          let same = found_id job_id s.jobs job e in
          rw (e, transition_job)
            (move_job-IsSound job new_status now wait_until wait_reason last_error s
              (subst (λ k. select_one (λ (j : ScanJob). nat_beq j.id k) s.jobs ≡ some job)
                (sym same) e)
              x)
    ]

fresh_id :
    (next : ℕ) (jobs : List ScanJob)
    → All (IsJobSound next) jobs
    → elem next (map id_of jobs) ≡ false
fresh_id next [] h = refl
fresh_id next (j ∷ js) h =
    let below : j.id < next = h.0.4 in ground (arith, fresh_id next js h.1, below)

IsJobSound-suc : (next : ℕ) (j : ScanJob) → IsJobSound next j → IsJobSound (suc next) j
IsJobSound-suc next j h = (h.0, h.1, h.2, h.3, omega (arith, h.4))

open_libraries-append :
    (js : List ScanJob) (job : ScanJob)
    → is_open job ≡ true
    → open_libraries (js ++ job ∷ []) ≡ open_libraries js ++ job.library_id ∷ []
unfolding select
open_libraries-append [] job o = rw o refl
open_libraries-append (j ∷ js) job o = elim (Bool-cases (is_open j)) [
  | inl e ↦ rw e (ap (λ ks. j.library_id ∷ ks) (open_libraries-append js job o))
  | inr e ↦ rw e (open_libraries-append js job o)
]

-- A library without a recoverable job is not among those with an open one.
has_recoverable-open :
    (library_id : ℕ) (js : List ScanJob)
    → has_recoverable library_id js ≡ false
    → elem library_id (open_libraries js) ≡ false
unfolding select
has_recoverable-open library_id [] h = refl
has_recoverable-open library_id (j ∷ js) h = elim (Bool-cases (is_open j)) [
  | inl e ↦ rw e (ground (arith, h, e, has_recoverable-open library_id js))
  | inr e ↦ rw e (has_recoverable-open library_id js (ground (arith, h)))
]

insert_scan_job-IsSound :
    (library : Library) (kind : ScanKind) (start snapshot now : ℕ) (s : ScanStore)
    → IsSound s
    → HasSound (insert_scan_job library kind start snapshot now s)
unfolding insert_scan_job new_job
insert_scan_job-IsSound library kind start snapshot now s x =
    if-cases HasSound (has_recoverable library.id s.jobs) _ _ (λ e. x)
      (λ single.
        if-cases HasSound (is_incremental kind && not (has_finished_full library.id s.jobs)) _ _
          (λ e. x)
          (λ e.
            let job = new_job library kind start snapshot now s.next_job_id in
            record {
              ids = rw (map-append_one id_of s.jobs job) (
                  append-Distinct s.next_job_id (map id_of s.jobs)
                    (fresh_id s.next_job_id s.jobs x.sound) x.ids);
              one_for_library = rw (open_libraries-append s.jobs job refl) (
                  append-Distinct library.id (open_libraries s.jobs)
                    (has_recoverable-open library.id s.jobs single) x.one_for_library);
              runner = x.runner;
              only_runner =
                  append-All (λ j. is_running j.status ≡ true → j.id ≡ x.runner) s.jobs job
                    x.only_runner (λ r. absurd (ground (arith, r)));
              sound =
                  append-All (IsJobSound (suc s.next_job_id)) s.jobs job
                    (map-All (IsJobSound s.next_job_id) (IsJobSound (suc s.next_job_id)) s.jobs
                      (IsJobSound-suc s.next_job_id) x.sound)
                    (inl refl, inr refl, inl refl, inl refl, omega arith);
            }))

pub create_scan_job-IsSound :
    (library_id : ℕ) (kind : Option ScanKind) (start snapshot : ℤ) (now : ℕ) (s : ScanStore)
    → IsSound s
    → HasSound (create_scan_job library_id kind start snapshot now s)
unfolding create_scan_job
create_scan_job-IsSound library_id none start snapshot now s x = x
create_scan_job-IsSound library_id (some kind) start snapshot now s x =
    elim (Option-cases (valid_range start snapshot)) [
      | inl e ↦ rw (e, create_scan_job) x
      | inr ((first, last), e) ↦
          elim (Option-cases (select_one (λ (l : Library). nat_beq l.id library_id) s.libraries)) [
            | inl f ↦ rw (e, f, create_scan_job) x
            | inr (library, f) ↦
                rw (e, f, create_scan_job) (insert_scan_job-IsSound library kind first last now s x)
          ]
    ]
