-- ===== src/Scan/Invariant.antt =====
-- What holds of the scan jobs together.
use telegram_media_downloade.Prelude.{
  ℕ, ◌<◌, ◌≤◌, ◌≡◌, ◌⊎◌, inl, inr, refl, sym, ◌∙◌, subst, Bool, true, false, is_some, List, [], ◌∷◌,
  map, if◌then◌else◌, arith, nat_key, elem, Distinct, All, Bool-cases, nat_beq, count,
}
use telegram_media_downloade.Rows.{select, update_where}
use telegram_media_downloade.Rows.Laws.{map-update_where, update_where-All}
use telegram_media_downloade.Scan.{
  ScanStatus, ScanJob, ScanStore, queued, running, auto_paused_download, is_running, is_waiting,
  is_finished, is_recoverable,
}

abbrev pub id_of : ScanJob → ℕ
id_of j = j.id

abbrev pub library_of : ScanJob → ℕ
library_of j = j.library_id

abbrev pub is_open : ScanJob → Bool
is_open j = is_recoverable j.status

-- The statuses in which a job has no deadline.
abbrev pub is_ready : ScanStatus → Bool
is_ready queued = true
is_ready running = true
is_ready auto_paused_download = true
is_ready _ = false

-- Only a running job has a control request; a job that is ready has no deadline and one that waits has
-- one; a job that finished has fetched and indexed its snapshot; ids come from the counter.
abbrev pub IsJobSound : ℕ → ScanJob → Type 0
IsJobSound next j =
    ((is_some j.control_requested ≡ false) ⊎ (is_running j.status ≡ true))
    × ((is_ready j.status ≡ false) ⊎ (is_some j.wait_until ≡ false))
    × ((is_waiting j.status ≡ false) ⊎ (is_some j.wait_until ≡ true))
    × ((is_finished j.status ≡ false)
        ⊎ ((j.snapshot_max_message_id ≤ j.fetched_through_message_id)
            × (j.snapshot_max_message_id ≤ j.indexed_through_message_id)))
    × (j.id < next)

-- Whatever runs has the id of the runner.
abbrev pub OnlyRuns : ℕ → List ScanJob → Type 0
OnlyRuns runner js = All (λ j. is_running j.status ≡ true → j.id ≡ runner) js

pub record AreJobsSound (next : ℕ) (jobs : List ScanJob) : Type 0 where
  pub ids : Distinct (map id_of jobs)
  pub one_for_library : Distinct (map library_of (select is_open jobs))
  pub runner : ℕ
  pub only_runner : OnlyRuns runner jobs
  pub sound : All (IsJobSound next) jobs

abbrev pub IsSound : ScanStore → Type 0
IsSound s = AreJobsSound s.next_job_id s.jobs

-- At most one job runs.
one_at_most :
    (runner : ℕ) (js : List ScanJob)
    → Distinct (map id_of js)
    → OnlyRuns runner js
    → (elem runner (map id_of js) ≡ false → count (λ j. is_running j.status) js ≡ 0)
      × (count (λ j. is_running j.status) js ≤ 1)
one_at_most runner [] d o = (λ e. refl, omega arith)
one_at_most runner (j ∷ js) d o =
    let rest = one_at_most runner js d.1 o.1 in
    elim (Bool-cases (is_running j.status)) [
      | inl e ↦
          let same : j.id ≡ runner = o.0 e in
          let none_after = rest.0 (subst (λ n. elem n (map id_of js) ≡ false) same d.0) in
          (λ absent. absurd (ground (arith, same, absent)), rw (e, none_after) (omega arith))
      | inr e ↦ (λ absent. ground (arith, e, rest.0, absent), ground (arith, e, rest.1))
    ]

pub IsSound-count : (s : ScanStore) → IsSound s → count (λ j. is_running j.status) s.jobs ≤ 1
IsSound-count s x = (one_at_most x.runner s.jobs x.ids x.only_runner).1

-- The libraries that have an open job.
abbrev pub open_libraries : List ScanJob → List ℕ
open_libraries js = map library_of (select is_open js)

module _ (k : ℕ) (j : ScanJob) (js : List ScanJob) where
  open_absent-tail : elem k (open_libraries (j ∷ js)) ≡ false → elem k (open_libraries js) ≡ false
  unfolding select
  open_absent-tail h = elim (Bool-cases (is_open j)) [
    | inl e ↦ ground (arith, rw e at h)
    | inr e ↦ rw e at h
  ]

  open_absent-head :
      elem k (open_libraries (j ∷ js)) ≡ false → is_open j ≡ true → nat_beq j.library_id k ≡ false
  unfolding select
  open_absent-head h e = ground (arith, rw e at h)

  open_absent-cons :
      (is_open j ≡ true → nat_beq j.library_id k ≡ false)
      → elem k (open_libraries js) ≡ false
      → elem k (open_libraries (j ∷ js)) ≡ false
  unfolding select
  open_absent-cons f h = elim (Bool-cases (is_open j)) [
    | inl e ↦ rw e (ground (arith, f e, h))
    | inr e ↦ rw e h
  ]

open_libraries-Distinct :
    (j : ScanJob) (js : List ScanJob)
    → (is_open j ≡ true → elem j.library_id (open_libraries js) ≡ false)
    → Distinct (open_libraries js)
    → Distinct (open_libraries (j ∷ js))
unfolding select
open_libraries-Distinct j js f d = elim (Bool-cases (is_open j)) [
  | inl e ↦ rw e (f e, d)
  | inr e ↦ rw e d
]

Distinct-head :
    (j : ScanJob) (js : List ScanJob)
    → Distinct (open_libraries (j ∷ js))
    → is_open j ≡ true
    → elem j.library_id (open_libraries js) ≡ false
unfolding select
Distinct-head j js d e =
    let split : Distinct (j.library_id ∷ open_libraries js) = rw e at d in split.0

Distinct-tail :
    (j : ScanJob) (js : List ScanJob)
    → Distinct (open_libraries (j ∷ js))
    → Distinct (open_libraries js)
unfolding select
Distinct-tail j js d = elim (Bool-cases (is_open j)) [
  | inl e ↦ let split : Distinct (j.library_id ∷ open_libraries js) = rw e at d in split.1
  | inr e ↦ rw e at d
]

module _ (test : ScanJob → Bool) (change : ScanJob → ScanJob)
    (same : (j : ScanJob) → (change j).library_id ≡ j.library_id)
    (closes : (j : ScanJob) → test j ≡ true → is_open (change j) ≡ true → is_open j ≡ true) where
  same_library : (j : ScanJob) → (if test j then change j else j).library_id ≡ j.library_id
  same_library j = elim (Bool-cases (test j)) [ inl e ↦ rw e (same j) | inr e ↦ rw e refl ]

  was_open : (j : ScanJob) → is_open (if test j then change j else j) ≡ true → is_open j ≡ true
  was_open j h = elim (Bool-cases (test j)) [ inl e ↦ closes j e (rw e at h) | inr e ↦ rw e at h ]

  -- A change that opens no job adds no library to those with an open job.
  open-update_where :
      (k : ℕ) (js : List ScanJob)
      → elem k (open_libraries js) ≡ false
      → elem k (open_libraries (update_where test change js)) ≡ false
  unfolding update_where
  open-update_where k [] h = h
  open-update_where k (j ∷ js) h =
      open_absent-cons k (if test j then change j else j) (update_where test change js)
        (λ e.
          subst (λ l. nat_beq l k ≡ false) (sym (same_library j))
            (open_absent-head k j js h (was_open j e)))
        (open-update_where k js (open_absent-tail k j js h))

  update_where-libraries :
      (js : List ScanJob)
      → Distinct (open_libraries js)
      → Distinct (open_libraries (update_where test change js))
  unfolding update_where
  update_where-libraries [] d = d
  update_where-libraries (j ∷ js) d =
      open_libraries-Distinct (if test j then change j else j) (update_where test change js)
        (λ e.
          subst (λ l. elem l (open_libraries (update_where test change js)) ≡ false)
            (sym (same_library j))
            (open-update_where j.library_id js (Distinct-head j js d (was_open j e))))
        (update_where-libraries js (Distinct-tail j js d))

-- A change of job rows.
pub record IsJobChange (next : ℕ) (test : ScanJob → Bool) (change : ScanJob → ScanJob)
    : Type 0 where
  pub same_id : (j : ScanJob) → (change j).id ≡ j.id
  pub same_library : (j : ScanJob) → (change j).library_id ≡ j.library_id
  pub closes : (j : ScanJob) → test j ≡ true → is_open (change j) ≡ true → is_open j ≡ true
  pub keeps : (j : ScanJob) → test j ≡ true → IsJobSound next j → IsJobSound next (change j)

-- A change after which one job runs at most.
pub changed-AreJobsSound :
    {next : ℕ} {test : ScanJob → Bool} {change : ScanJob → ScanJob} (runner : ℕ)
    (jobs : List ScanJob)
    → IsJobChange next test change
    → AreJobsSound next jobs
    → OnlyRuns runner (update_where test change jobs)
    → AreJobsSound next (update_where test change jobs)
changed-AreJobsSound {next} {test} {change} runner jobs c x only = record {
  ids = rw (map-update_where id_of test change jobs (λ j e. c.same_id j)) x.ids;
  one_for_library =
      update_where-libraries test change c.same_library c.closes jobs x.one_for_library;
  runner = runner;
  only_runner = only;
  sound =
      update_where-All (IsJobSound next) (IsJobSound next) test change jobs c.keeps (λ j e h. h)
        x.sound;
}

-- A change that starts no job.
pub kept-AreJobsSound :
    {next : ℕ} {test : ScanJob → Bool} {change : ScanJob → ScanJob} (jobs : List ScanJob)
    → IsJobChange next test change
    → ((j : ScanJob)
        → test j ≡ true
        → is_running (change j).status ≡ true
        → is_running j.status ≡ true)
    → AreJobsSound next jobs
    → AreJobsSound next (update_where test change jobs)
kept-AreJobsSound {next} {test} {change} jobs c starts_none x =
    changed-AreJobsSound x.runner jobs c x (
      update_where-All (λ j. is_running j.status ≡ true → j.id ≡ x.runner) _ test change jobs
        (λ j e h r. c.same_id j ∙ h (starts_none j e r)) (λ j e h. h) x.only_runner)
