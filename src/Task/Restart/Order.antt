-- ===== src/Task/Restart/Order.antt =====
-- The finished rows by their last update, and those beyond the limit.
use telegram_media_downloade.Prelude.{
  drop, ℕ, zero, suc, ◌-◌, ◌≤◌, ◌≡◌, ◌⊎◌, refl, ap, ◌∙◌, true, ◌||◌, String, List, [], ◌∷◌, map,
  arith, ◌==◌, ==_refl, string_key, pair_key, elem, length, Bool-cases, inl, inr, All,
}
use telegram_media_downloade.Dict.{Dict}
use telegram_media_downloade.Rows.Laws.{map-All}
use telegram_media_downloade.Task.Tables.{TaskRow}
use telegram_media_downloade.Task.Restart.{
  is_newer, insert_newest, newest_first, id_of, finished_rows, stale_rows,
}

length-insert_newest :
    (a : TaskRow) (rows : List TaskRow) → length (insert_newest a rows) ≡ suc (length rows)
unfolding insert_newest
length-insert_newest a [] = refl
length-insert_newest a (b ∷ rows) = ground (arith, length-insert_newest a rows)

length-newest_first : (rows : List TaskRow) → length (newest_first rows) ≡ length rows
unfolding newest_first
length-newest_first [] = refl
length-newest_first (a ∷ rows) =
    omega (arith, length-newest_first rows, length-insert_newest a (newest_first rows))

length-drop {ℓ} : {A : Type ℓ} (n : ℕ) (xs : List A) → length (drop n xs) ≡ length xs - n
length-drop zero xs = omega arith
length-drop (suc n) [] = omega arith
length-drop (suc n) (x ∷ xs) = omega (arith, length-drop n xs)

pub length-stale_rows :
    (n : ℕ) (tasks : Dict String TaskRow)
    → length (stale_rows n tasks) ≡ length (finished_rows tasks) - n
unfolding stale_rows
length-stale_rows n tasks =
    length-drop n (newest_first (finished_rows tasks))
    ∙ ap (λ k. k - n) (length-newest_first (finished_rows tasks))

elem-insert_newest :
    (k : String) (a : TaskRow) (rows : List TaskRow)
    → elem k (map id_of (insert_newest a rows)) ≡ (a.task_id == k || elem k (map id_of rows))
unfolding insert_newest
elem-insert_newest k a [] = refl
elem-insert_newest k a (b ∷ rows) = ground (arith, elem-insert_newest k a rows)

pub elem-newest_first :
    (k : String) (rows : List TaskRow)
    → elem k (map id_of (newest_first rows)) ≡ elem k (map id_of rows)
unfolding newest_first
elem-newest_first k [] = refl
elem-newest_first k (a ∷ rows) =
    ground (arith, elem-newest_first k rows, elem-insert_newest k a (newest_first rows))

pub elem-drop :
    (k : String) (n : ℕ) (rows : List TaskRow)
    → elem k (map id_of (drop n rows)) ≡ true
    → elem k (map id_of rows) ≡ true
elem-drop k zero rows h = h
elem-drop k (suc n) [] h = h
elem-drop k (suc n) (a ∷ rows) h = ground (arith, elem-drop k n rows h)

-- Every row is as new as all that follow it.
abbrev IsDescending : List TaskRow → Type 0
IsDescending [] = Unit
IsDescending (a ∷ rows) = All (λ b. b.updated_at ≤ a.updated_at) rows × IsDescending rows

module _ {κ} (P : TaskRow → Type κ) where
  insert_newest-All :
      (a : TaskRow) (rows : List TaskRow) → P a → All P rows → All P (insert_newest a rows)
  unfolding insert_newest
  insert_newest-All a [] p h = (p, tt)
  insert_newest-All a (b ∷ rows) p h = elim (Bool-cases (is_newer a b)) [
    | inl e ↦ rw e (p, h)
    | inr e ↦ rw e (h.0, insert_newest-All a rows p h.1)
  ]

  All-insert_newest :
      (a : TaskRow) (rows : List TaskRow) → All P (insert_newest a rows) → P a × All P rows
  unfolding insert_newest
  All-insert_newest a [] h = h
  All-insert_newest a (b ∷ rows) h = elim (Bool-cases (is_newer a b)) [
    | inl e ↦ rw e at h
    | inr e ↦
        let parts : P b × All P (insert_newest a rows) = rw e at h in
        let rest = All-insert_newest a rows parts.1 in (rest.0, (parts.0, rest.1))
  ]

  pub All-newest_first : (rows : List TaskRow) → All P (newest_first rows) → All P rows
  unfolding newest_first
  All-newest_first [] h = tt
  All-newest_first (a ∷ rows) h =
      let parts = All-insert_newest a (newest_first rows) h in
      (parts.0, All-newest_first rows parts.1)

  drop-All : (n : ℕ) (rows : List TaskRow) → All P rows → All P (drop n rows)
  drop-All zero rows h = h
  drop-All (suc n) [] h = tt
  drop-All (suc n) (a ∷ rows) h = drop-All n rows h.1

insert_newest-IsDescending :
    (a : TaskRow) (rows : List TaskRow) → IsDescending rows → IsDescending (insert_newest a rows)
unfolding insert_newest
insert_newest-IsDescending a [] h = (tt, tt)
insert_newest-IsDescending a (b ∷ rows) h = elim (Bool-cases (is_newer a b)) [
  | inl e ↦
      let first : b.updated_at ≤ a.updated_at = ground (arith, e) in
      rw e ((first, map-All _ _ rows (λ c k. omega (arith, k, first)) h.0), h)
  | inr e ↦
      let last : a.updated_at ≤ b.updated_at = ground (arith, e) in
      rw e (
        insert_newest-All (λ c. c.updated_at ≤ b.updated_at) a rows last h.0,
        insert_newest-IsDescending a rows h.1,
      )
]

newest_first-IsDescending : (rows : List TaskRow) → IsDescending (newest_first rows)
unfolding newest_first
newest_first-IsDescending [] = tt
newest_first-IsDescending (a ∷ rows) =
    insert_newest-IsDescending a (newest_first rows) (newest_first-IsDescending rows)

-- A row is among those that are dropped, or is as new as all of them.
abbrev pub IsKept : List TaskRow → TaskRow → Type 0
IsKept dropped a =
    (elem a.task_id (map id_of dropped) ≡ true) ⊎ All (λ b. b.updated_at ≤ a.updated_at) dropped

All-elem : (rows : List TaskRow) → All (λ a. elem a.task_id (map id_of rows) ≡ true) rows
All-elem [] = tt
All-elem (a ∷ rows) =
    (ground (arith, ==_refl a.task_id), map-All _ _ rows (λ b h. ground (arith, h)) (All-elem rows))

drop-IsKept : (n : ℕ) (rows : List TaskRow) → IsDescending rows → All (IsKept (drop n rows)) rows
drop-IsKept zero rows h = map-All _ _ rows (λ a k. inl k) (All-elem rows)
drop-IsKept (suc n) [] h = tt
drop-IsKept (suc n) (a ∷ rows) h = (inr (drop-All _ n rows h.0), drop-IsKept n rows h.1)

pub stale_rows-IsKept :
    (n : ℕ) (tasks : Dict String TaskRow) → All (IsKept (stale_rows n tasks)) (finished_rows tasks)
unfolding stale_rows
stale_rows-IsKept n tasks = All-newest_first _ (finished_rows tasks) (
    drop-IsKept n (newest_first (finished_rows tasks))
      (newest_first-IsDescending (finished_rows tasks)))
