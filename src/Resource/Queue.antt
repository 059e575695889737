-- ===== src/Resource/Queue.antt =====
-- The order in which delivery jobs are claimed.
use telegram_media_downloade.Prelude.{
  ℕ, ◌≡◌, ◌<◌, ◌≤◌, ◌⊎◌, refl, subst, true, false, none, some, List, [], ◌∷◌, arith, All,
  Bool-cases, Option-cases, inl, inr, if◌then◌else◌, nat_beq, nat_key,
}
use telegram_media_downloade.Rows.{select_one, update_where, least_from, least}
use telegram_media_downloade.Rows.Laws.{map-All}
use telegram_media_downloade.Rows.Found.{
  select-All, All-found, count_found, update_where-same, select_one-update_where,
}
use telegram_media_downloade.Resource.{ResourceBotStore, DeliveryJob, is_queued}
use telegram_media_downloade.Resource.Deliveries.{
  is_before, queued_jobs, get_delivery_job, claim_next_delivery_job, claim_row, claimed,
}
use telegram_media_downloade.Resource.Invariant.{IsSound, id_of}

-- No job of a list comes before this one.
abbrev pub NoneBefore : List DeliveryJob → DeliveryJob → Type 0
NoneBefore js x = All (λ j. is_before j x ≡ false) js

-- What comes after one job comes after all that is not after it.
not_before_trans :
    (x y m : DeliveryJob) → is_before y x ≡ false → is_before x m ≡ false → is_before y m ≡ false
not_before_trans x y m h k = ground arith

both_after :
    (x j m : DeliveryJob)
    → is_before (if is_before j x then j else x) m ≡ false
    → (is_before x m ≡ false) × (is_before j m ≡ false)
both_after x j m h = elim (Bool-cases (is_before j x)) [
  | inl e ↦
      let first : is_before j m ≡ false = rw e at h in
      (not_before_trans j x m (ground (arith, e)) first, first)
  | inr e ↦ let first : is_before x m ≡ false = rw e at h in (first, not_before_trans x j m e first)
]

least_from-NoneBefore :
    (x : DeliveryJob) (js : List DeliveryJob)
    → (is_before x (least_from is_before x js) ≡ false) × NoneBefore js (least_from is_before x js)
unfolding least_from
least_from-NoneBefore x [] = (ground arith, tt)
least_from-NoneBefore x (j ∷ js) =
    let nearer = if is_before j x then j else x in
    let (first, rest) = least_from-NoneBefore nearer js in
    let (after_x, after_j) = both_after x j (least_from is_before nearer js) first in
    (after_x, (after_j, rest))

module _ {κ} (P : DeliveryJob → Type κ) where
  least_from-All :
      (x : DeliveryJob) (js : List DeliveryJob) → P x → All P js → P (least_from is_before x js)
  unfolding least_from
  least_from-All x [] p h = p
  least_from-All x (j ∷ js) p h = elim (Bool-cases (is_before j x)) [
    | inl e ↦ rw (least_from, e) (least_from-All j js h.0 h.1)
    | inr e ↦ rw (least_from, e) (least_from-All x js p h.1)
  ]

  -- The least job of a table is one of its jobs, and the first of them.
  least-All :
      (js : List DeliveryJob) (m : DeliveryJob)
      → least is_before js ≡ some m
      → All P js
      → P m × NoneBefore js m
  unfolding least
  least-All [] m e h = absurd (ground arith)
  least-All (x ∷ js) m e h =
      let same : least_from is_before x js ≡ m = ground (arith, e) in
      subst (λ y. P y × NoneBefore (x ∷ js) y) same
        (least_from-All x js h.0 h.1, least_from-NoneBefore x js)

-- A queued row, and the one that its id finds.
abbrev IsCandidate : List DeliveryJob → DeliveryJob → Type 0
IsCandidate js row =
    (select_one (λ j. nat_beq j.id row.id) js ≡ some row) × (is_queued row.status ≡ true)

no_row : (js : List DeliveryJob) → least is_before js ≡ none → js ≡ []
unfolding least
no_row [] e = refl
no_row (x ∷ js) e = absurd (ground arith)

-- The row that a claim looks up.
next_row :
    (s : ResourceBotStore) (row : DeliveryJob)
    → IsSound s
    → least is_before (queued_jobs s) ≡ some row
    → IsCandidate s.jobs row × NoneBefore (queued_jobs s) row
unfolding queued_jobs
next_row s row x e = least-All (IsCandidate s.jobs) (queued_jobs s) row e (
    select-All _ (IsCandidate s.jobs) (λ j. is_queued j.status) s.jobs
      (λ j waits found. (found, waits)) (All-found id_of s.jobs x.jobs.ids))

claim_row-candidate :
    (row : DeliveryJob) (now : ℕ) (s : ResourceBotStore)
    → IsSound s
    → IsCandidate s.jobs row
    → claim_row row now s ≡ (
      some (claimed now row),
      record s { jobs = update_where (λ j. nat_beq j.id row.id) (claimed now) s.jobs },
    )
unfolding claim_row get_delivery_job
claim_row-candidate row now s x (found, waits) =
    rw
      (
        count_found id_of row.id (λ j. is_queued j.status) s.jobs row x.jobs.ids found waits,
        update_where-same id_of row.id (λ j. is_queued j.status) (claimed now) s.jobs row x.jobs.ids
            found waits,
        select_one-update_where id_of row.id (claimed now) s.jobs row (λ j. refl) found,
      )
      refl

-- The job was created before every job of a list, or with it and with an id that is not greater.
abbrev pub IsFirst : List DeliveryJob → DeliveryJob → Type 0
IsFirst js x =
    All (λ j. (x.created_at < j.created_at) ⊎ ((x.created_at ≡ j.created_at) × (x.id ≤ j.id))) js

NoneBefore-IsFirst : (js : List DeliveryJob) (x : DeliveryJob) → NoneBefore js x → IsFirst js x
NoneBefore-IsFirst js x h = map-All _ _ js (λ j e. ground (arith, e)) h

-- On sound tables, a claim finds no job only where none is queued, and changes nothing then; otherwise it
-- answers with a queued job that no queued job comes before by creation time and then id, and this job, found
-- by its id, is downloading in the tables and in the answer, its speeds and error reset, and nothing else
-- is changed.
pub claim_next_delivery_job-IsFirst :
    (now : ℕ) (s : ResourceBotStore)
    → IsSound s
    → ((queued_jobs s ≡ []) × (claim_next_delivery_job now s ≡ (none, s)))
      ⊎ ((row : DeliveryJob) × (get_delivery_job row.id s ≡ some row)
          × (is_queued row.status ≡ true)
          × IsFirst (queued_jobs s) row
          × (claim_next_delivery_job now s ≡ (
            some (claimed now row),
            record s { jobs = update_where (λ j. nat_beq j.id row.id) (claimed now) s.jobs },
          )))
unfolding claim_next_delivery_job get_delivery_job
claim_next_delivery_job-IsFirst now s x = elim (Option-cases (least is_before (queued_jobs s))) [
  | inl e ↦ inl (no_row _ e, rw (e, claim_next_delivery_job) refl)
  | inr (row, e) ↦
      let (candidate, first) = next_row s row x e in
      inr (
        row,
        candidate.0,
        candidate.1,
        NoneBefore-IsFirst (queued_jobs s) row first,
        rw (e, claim_next_delivery_job) (claim_row-candidate row now s x candidate),
      )
]
