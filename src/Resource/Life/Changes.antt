-- ===== src/Resource/Life/Changes.antt =====
-- How the statements on the job table move every job.
use telegram_media_downloade.Prelude.{
  ℕ, suc, ◌≡◌, refl, ◌∙◌, sym, subst, Bool, true, false, none, some, String, List, [], ◌∷◌, ◌++◌,
  map, All, ltb, nat_beq, nat_key, string_key, ◌==◌, ==_iff, elem, Distinct, inl, inr, Bool-cases,
  arith,
}
use telegram_media_downloade.Rows.{select_one, update_where, delete_where}
use telegram_media_downloade.Rows.Laws.{map-All}
use telegram_media_downloade.Rows.Found.{All-found}
use telegram_media_downloade.Resource.{DeliveryJob, ResourceBotStore, is_queued, is_terminal_job}
use telegram_media_downloade.Resource.Deliveries.{get_delivery_job}
use telegram_media_downloade.Resource.Invariant.{IsSound, IsJobSound, id_of, public_of}
use telegram_media_downloade.Resource.Life.{
  ◌⟶◌, IsSameJob, life_of, life, ◌⇒◌, stays, is_created, moves, is_cleared,
}

-- Every job makes at most one move.
abbrev pub Moves : ResourceBotStore → ResourceBotStore → Type 0
Moves s t = (job_id : ℕ) → life job_id s ⇒ life job_id t

-- A change of a row by a move.
pub record IsMove (test : DeliveryJob → Bool) (change : DeliveryJob → DeliveryJob) : Type 0 where
  pub same_id : (j : DeliveryJob) → (change j).id ≡ j.id
  pub same_job : (j : DeliveryJob) → IsSameJob j (change j)
  pub status : (j : DeliveryJob) → test j ≡ true → j.status ⟶ (change j).status

module _ (test : DeliveryJob → Bool) (change : DeliveryJob → DeliveryJob)
    (m : IsMove test change) where
  update_where-found :
      (job_id : ℕ) (used : Bool) (js : List DeliveryJob)
      → life_of (select_one (λ j. nat_beq j.id job_id) js) used
        ⇒ life_of (select_one (λ j. nat_beq j.id job_id) (update_where test change js)) used
  unfolding select_one update_where
  update_where-found job_id used [] = stays
  update_where-found job_id used (j ∷ js) = elim (Bool-cases (nat_beq j.id job_id)) [
    | inl hit ↦ elim (Bool-cases (test j)) [
      | inl e ↦
          let same : nat_beq (change j).id job_id ≡ true = rw (m.same_id j) hit in
          rw (hit, e, same) (moves (m.same_job j) (m.status j e))
      | inr e ↦ rw (e, hit) stays
    ]
    | inr miss ↦ elim (Bool-cases (test j)) [
      | inl e ↦
          let same : nat_beq (change j).id job_id ≡ false = rw (m.same_id j) miss in
          rw (miss, e, same) (update_where-found job_id used js)
      | inr e ↦ rw (e, miss) (update_where-found job_id used js)
    ]
  ]

  pub update_where-Moves :
      (s : ResourceBotStore) → Moves s (record s { jobs = update_where test change s.jobs })
  unfolding life get_delivery_job
  update_where-Moves s job_id = update_where-found job_id (ltb job_id s.next_job_id) s.jobs

module _ (test : DeliveryJob → Bool) where
  -- Only jobs that ended are deleted.
  abbrev pub OnlyEnded : List DeliveryJob → Type 0
  OnlyEnded js = All (λ j. test j ≡ true → is_terminal_job j.status ≡ true) js

  delete_where-absent :
      (job_id : ℕ) (js : List DeliveryJob)
      → elem job_id (map id_of js) ≡ false
      → select_one (λ j. nat_beq j.id job_id) (delete_where test js) ≡ none
  unfolding select_one delete_where
  delete_where-absent job_id [] h = refl
  delete_where-absent job_id (j ∷ js) h = ground (arith, delete_where-absent job_id js)

  delete_where-found :
      (job_id : ℕ) (used : Bool) (js : List DeliveryJob)
      → Distinct (map id_of js)
      → OnlyEnded js
      → All (λ (j : DeliveryJob). j.id ≡ job_id → used ≡ true) js
      → life_of (select_one (λ j. nat_beq j.id job_id) js) used
        ⇒ life_of (select_one (λ j. nat_beq j.id job_id) (delete_where test js)) used
  unfolding select_one delete_where
  delete_where-found job_id used [] d o u = stays
  delete_where-found job_id used (j ∷ js) d o u = elim (Bool-cases (nat_beq j.id job_id)) [
    | inl hit ↦ elim (Bool-cases (test j)) [
      | inl e ↦
          let same : j.id ≡ job_id = ground (arith, hit) in
          let gone =
            delete_where-absent job_id js (subst (λ n. elem n (map id_of js) ≡ false) same d.0) in
          rw (hit, e, gone, u.0 same) (is_cleared (o.0 e))
      | inr e ↦ rw (e, hit) stays
    ]
    | inr miss ↦ elim (Bool-cases (test j)) [
      | inl e ↦ rw (miss, e) (delete_where-found job_id used js d.1 o.1 u.1)
      | inr e ↦ rw (e, miss) (delete_where-found job_id used js d.1 o.1 u.1)
    ]
  ]

  pub delete_where-Moves :
      (s : ResourceBotStore)
      → IsSound s
      → OnlyEnded s.jobs
      → Moves s (record s { jobs = delete_where test s.jobs })
  unfolding life get_delivery_job
  delete_where-Moves s x o job_id =
      delete_where-found job_id (ltb job_id s.next_job_id) s.jobs x.jobs.ids o (
        map-All (IsJobSound s.users s.next_job_id)
          (λ j. j.id ≡ job_id → ltb job_id s.next_job_id ≡ true) s.jobs
          (λ j h e. ground (arith, h.2, e)) x.jobs.sound)

-- The jobs of one public id are the one that it finds.
pub OnlyEnded-public :
    (public_id : String) (s : ResourceBotStore) (row : DeliveryJob)
    → IsSound s
    → select_one (λ (j : DeliveryJob). j.public_id == public_id) s.jobs ≡ some row
    → is_terminal_job row.status ≡ true
    → OnlyEnded (λ j. j.public_id == public_id) s.jobs
OnlyEnded-public public_id s row x found over =
    map-All _ (λ j. (j.public_id == public_id) ≡ true → is_terminal_job j.status ≡ true) s.jobs
      (λ j own e.
        let here : select_one (λ (k : DeliveryJob). k.public_id == public_id) s.jobs ≡ some j =
          subst (λ p. select_one (λ (k : DeliveryJob). k.public_id == p) s.jobs ≡ some j)
            ((==_iff j.public_id public_id).0 e) own in
        let same : some row ≡ some j = sym found ∙ here in ground (arith, same, over))
      (All-found public_of s.jobs x.jobs.public_ids)

module _ (next : ℕ) (job : DeliveryJob) (e : job.id ≡ next) (q : is_queued job.status ≡ true) where
  pub append-found :
      (job_id : ℕ) (js : List DeliveryJob)
      → life_of (select_one (λ j. nat_beq j.id job_id) js) (ltb job_id next)
        ⇒ life_of (select_one (λ j. nat_beq j.id job_id) (js ++ job ∷ [])) (ltb job_id (suc next))
  unfolding select_one
  append-found job_id [] = elim (Bool-cases (nat_beq job.id job_id)) [
    | inl hit ↦
        let fresh : ltb job_id next ≡ false = ground (arith, hit, e) in
        rw (hit, fresh) (is_created q)
    | inr miss ↦
        let same : ltb job_id (suc next) ≡ ltb job_id next = ground (arith, miss, e) in
        rw (miss, same) stays
  ]
  append-found job_id (j ∷ js) = elim (Bool-cases (nat_beq j.id job_id)) [
    | inl hit ↦ rw hit stays
    | inr miss ↦ rw miss (append-found job_id js)
  ]
