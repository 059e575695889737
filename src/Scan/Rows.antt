-- ===== src/Scan/Rows.antt =====
-- The statements on scan jobs, against ALLOWED_SCAN_TRANSITIONS.
use telegram_media_downloade.Prelude.{
  ℕ, ◌≡◌, ◌⊎◌, inl, inr, refl, ap, Bool, true, false, not, ◌&&◌, Option, none, some, String, List,
  [], ◌∷◌, ◌++◌, if◌then◌else◌, if-cases, arith, Bool-cases, Option-cases, nat_beq,
}
use telegram_media_downloade.Prelude.Int.{ℤ}
use telegram_media_downloade.Rows.{select_one, update_where}
use telegram_media_downloade.Scan.{
  ScanKind, Control, Library, ScanJob, ScanStore, is_running, is_incremental, is_allowed,
}
use telegram_media_downloade.Scan.Controls.{
  get_job, insert_scan_job, valid_range, has_recoverable, has_finished_full, create_scan_job,
  update_running, request_job_control, record_job_retry,
}

-- The job is the same, and its status did not change or changed along the table.
abbrev pub IsMove : ScanJob → ScanJob → Type 0
IsMove j k =
    (k.id ≡ j.id)
    × (k.library_id ≡ j.library_id)
    × (k.snapshot_max_message_id ≡ j.snapshot_max_message_id)
    × ((k.status ≡ j.status) ⊎ (is_allowed j.status k.status ≡ true))

-- Every job that is found is found again, after a move.
abbrev pub Follows : ScanStore → ScanStore → Type 0
Follows s t =
    (job_id : ℕ) (j : ScanJob)
    → get_job job_id s ≡ some j
    → (k : ScanJob) × (get_job job_id t ≡ some k) × IsMove j k

abbrev pub FollowsTo {ℓ} : {A : Type ℓ} → ScanStore → A × ScanStore → Type 0
FollowsTo s r = Follows s r.1

rests : (j : ScanJob) → IsMove j j
rests j = (refl, refl, refl, inl refl)

pub same_rows : (s : ScanStore) → Follows s s
same_rows s job_id j found = (j, found, rests j)

module _ (test : ScanJob → Bool) (change : ScanJob → ScanJob)
    (same : (j : ScanJob) → (change j).id ≡ j.id) where
  update_where-found :
      (job_id : ℕ) (js : List ScanJob) (j : ScanJob)
      → select_one (λ (j : ScanJob). nat_beq j.id job_id) js ≡ some j
      → select_one (λ (j : ScanJob). nat_beq j.id job_id) (update_where test change js)
        ≡ some (if test j then change j else j)
  unfolding select_one update_where
  update_where-found job_id [] j e = absurd (ground (arith, e))
  update_where-found job_id (i ∷ js) j e = elim (Bool-cases (nat_beq i.id job_id)) [
    | inl hit ↦
        let found : some i ≡ some j = rw hit at e in
        let this : i ≡ j = ground (arith, found) in
        let kept : nat_beq (if test i then change i else i).id job_id ≡ true =
          elim (Bool-cases (test i)) [ inl t ↦ rw (t, same i) hit | inr t ↦ rw t hit ] in
        rw kept (ap (λ (k : ScanJob). some (if test k then change k else k)) this)
    | inr miss ↦
        let kept : nat_beq (if test i then change i else i).id job_id ≡ false =
          elim (Bool-cases (test i)) [ inl t ↦ rw (t, same i) miss | inr t ↦ rw t miss ] in
        rw kept (update_where-found job_id js j (rw miss at e))
  ]

  pub updated-Follows :
      (s : ScanStore) (libraries : List Library)
      → ((job_id : ℕ) (j : ScanJob)
          → get_job job_id s ≡ some j
          → test j ≡ true
          → IsMove j (change j))
      → Follows s (record s { jobs = update_where test change s.jobs; libraries = libraries })
  unfolding get_job
  updated-Follows s libraries moves job_id j found = (
    if test j then change j else j,
    update_where-found job_id s.jobs j found,
    if-cases (IsMove j) (test j) (change j) j (λ t. moves job_id j found t) (λ t. rests j),
  )

append-found :
    (job_id : ℕ) (js : List ScanJob) (j job : ScanJob)
    → select_one (λ (j : ScanJob). nat_beq j.id job_id) js ≡ some j
    → select_one (λ (j : ScanJob). nat_beq j.id job_id) (js ++ job ∷ []) ≡ some j
unfolding select_one
append-found job_id [] j job e = absurd (ground (arith, e))
append-found job_id (i ∷ js) j job e = elim (Bool-cases (nat_beq i.id job_id)) [
  | inl hit ↦ rw hit (rw hit at e)
  | inr miss ↦ rw miss (append-found job_id js j job (rw miss at e))
]

insert_scan_job-Follows :
    (library : Library) (kind : ScanKind) (start snapshot now : ℕ) (s : ScanStore)
    → FollowsTo s (insert_scan_job library kind start snapshot now s)
unfolding insert_scan_job get_job
insert_scan_job-Follows library kind start snapshot now s =
    if-cases (FollowsTo s) (has_recoverable library.id s.jobs) _ _ (λ e. same_rows s)
      (λ e.
        if-cases (FollowsTo s) (is_incremental kind && not (has_finished_full library.id s.jobs)) _
          _ (λ e. same_rows s)
          (λ e job_id j found. (j, append-found job_id s.jobs j _ found, rests j)))

pub create_scan_job-Follows :
    (library_id : ℕ) (kind : Option ScanKind) (start snapshot : ℤ) (now : ℕ) (s : ScanStore)
    → FollowsTo s (create_scan_job library_id kind start snapshot now s)
unfolding create_scan_job
create_scan_job-Follows library_id none start snapshot now s = same_rows s
create_scan_job-Follows library_id (some kind) start snapshot now s =
    elim (Option-cases (valid_range start snapshot)) [
      | inl e ↦ rw (e, create_scan_job) (same_rows s)
      | inr ((first, last), e) ↦
          elim (Option-cases (select_one (λ (l : Library). nat_beq l.id library_id) s.libraries)) [
            | inl f ↦ rw (e, f, create_scan_job) (same_rows s)
            | inr (library, f) ↦
                rw (e, f, create_scan_job) (insert_scan_job-Follows library kind first last now s)
          ]
    ]

update_running-Follows :
    (change : ScanJob → ScanJob) (job_id : ℕ) (s : ScanStore)
    → ((j : ScanJob) → IsMove j (change j))
    → FollowsTo s (update_running change job_id s)
unfolding update_running
update_running-Follows change job_id s moves = elim (Option-cases (get_job job_id s)) [
  | inl e ↦ rw (e, update_running) (same_rows s)
  | inr (job, e) ↦
      rw (e, update_running)
        (if-cases (FollowsTo s) (not (is_running job.status)) _ _ (λ e. same_rows s)
          (λ e.
            updated-Follows (λ j. nat_beq j.id job_id && is_running j.status) change
              (λ j. (moves j).0) s s.libraries (λ i j found t. moves j)))
]

pub request_job_control-Follows :
    (job_id : ℕ) (action : Option Control) (now : ℕ) (s : ScanStore)
    → FollowsTo s (request_job_control job_id action now s)
unfolding request_job_control
request_job_control-Follows job_id none now s = same_rows s
request_job_control-Follows job_id (some action) now s =
    update_running-Follows _ job_id s (λ j. (refl, refl, refl, inl refl))

pub record_job_retry-Follows :
    (job_id : ℕ) (last_error : String) (now : ℕ) (s : ScanStore)
    → FollowsTo s (record_job_retry job_id last_error now s)
unfolding record_job_retry
record_job_retry-Follows job_id last_error now s =
    update_running-Follows _ job_id s (λ j. (refl, refl, refl, inl refl))
