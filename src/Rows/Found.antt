-- ===== src/Rows/Found.antt =====
-- The row that a search by a unique column finds: what statements with that column do to it.
use telegram_media_downloade.Prelude.{
  ◌≡◌, refl, subst, Bool, true, false, ◌&&◌, some, List, [], ◌∷◌, map, arith, All, Bool-cases, inl,
  inr, Key, elem, ◌==◌, ==_refl, Distinct, count,
}
use telegram_media_downloade.Rows.{select_one, select, update_where}
use telegram_media_downloade.Rows.Laws.{both-All}

module _ {ℓ κ μ} {A : Type ℓ} (P : A → Type κ) (Q : A → Type μ) where
  -- What holds of the rows of a selection.
  pub select-All :
      (test : A → Bool) (xs : List A)
      → ((x : A) → test x ≡ true → P x → Q x)
      → All P xs
      → All Q (select test xs)
  unfolding select
  select-All test [] f h = tt
  select-All test (x ∷ xs) f h = elim (Bool-cases (test x)) [
    | inl e ↦ rw e (f x e h.0, select-All test xs f h.1)
    | inr e ↦ rw e (select-All test xs f h.1)
  ]

module _ {ℓ κ} {A : Type ℓ} {K : Type κ} ⦃e : Key K⦄ (key : A → K) where
  -- The keys of the rows differ from one that is not among them.
  others : (k : K) (xs : List A) → elem k (map key xs) ≡ false → All (λ x. (k == key x) ≡ false) xs
  others k [] h = tt
  others k (x ∷ xs) h =
      (ground (arith, e.same_iff k (key x), e.same_iff (key x) k), others k xs (ground arith))

  found_after :
      (x y : A) (xs : List A)
      → (key x == key y) ≡ false
      → select_one (λ z. key z == key y) xs ≡ some y
      → select_one (λ z. key z == key y) (x ∷ xs) ≡ some y
  unfolding select_one
  found_after x y xs ne found = rw ne found

  -- Every row is the one that its key finds.
  pub All-found :
      (xs : List A)
      → Distinct (map key xs)
      → All (λ x. select_one (λ y. key y == key x) xs ≡ some x) xs
  unfolding select_one
  All-found [] d = tt
  All-found (x ∷ xs) d = (
    rw (==_refl (key x)) refl,
    both-All _ _ (λ y. select_one (λ z. key z == key y) (x ∷ xs) ≡ some y) xs
        (λ y. found_after x y xs) (others (key x) xs d.0) (All-found xs d.1),
  )

  module _ (k : K) (also : A → Bool) where
    count_absent :
        (xs : List A) → elem k (map key xs) ≡ false → count (λ x. (key x == k) && also x) xs ≡ 0
    count_absent [] h = refl
    count_absent (x ∷ xs) h = ground (arith, count_absent xs)

    update_where_absent :
        (change : A → A) (xs : List A)
        → elem k (map key xs) ≡ false
        → update_where (λ x. (key x == k) && also x) change xs
          ≡ update_where (λ x. key x == k) change xs
    unfolding update_where
    update_where_absent change [] h = refl
    update_where_absent change (x ∷ xs) h = ground (arith, update_where_absent change xs)

    absent_after :
        (x : A) (xs : List A)
        → (key x == k) ≡ true
        → elem (key x) (map key xs) ≡ false
        → elem k (map key xs) ≡ false
    absent_after x xs h n = subst (λ j. elem j (map key xs) ≡ false) ((e.same_iff (key x) k).0 h) n

    -- One row has the key that finds it.
    pub count_found :
        (xs : List A) (x : A)
        → Distinct (map key xs)
        → select_one (λ y. key y == k) xs ≡ some x
        → also x ≡ true
        → count (λ y. (key y == k) && also y) xs ≡ 1
    unfolding select_one
    count_found [] x d h a = absurd (ground arith)
    count_found (y ∷ ys) x d h a = elim (Bool-cases (key y == k)) [
      | inl hit ↦
          let found : some y ≡ some x = rw hit at h in
          let none_after = count_absent ys (absent_after y ys hit d.0) in
          ground (arith, found, hit, none_after, a)
      | inr miss ↦ ground (arith, count_found ys x d.1, miss, h, a)
    ]

    pub update_where-same :
        (change : A → A) (xs : List A) (x : A)
        → Distinct (map key xs)
        → select_one (λ y. key y == k) xs ≡ some x
        → also x ≡ true
        → update_where (λ y. (key y == k) && also y) change xs
          ≡ update_where (λ y. key y == k) change xs
    unfolding update_where select_one
    update_where-same change [] x d h a = refl
    update_where-same change (y ∷ ys) x d h a = elim (Bool-cases (key y == k)) [
      | inl hit ↦
          let found : some y ≡ some x = rw hit at h in
          let rest = update_where_absent change ys (absent_after y ys hit d.0) in
          ground (arith, found, hit, rest, a)
      | inr miss ↦ ground (arith, update_where-same change ys x d.1, miss, h, a)
    ]

  -- The row that was found, after its update.
  pub select_one-update_where :
      (k : K) (change : A → A) (xs : List A) (x : A)
      → ((y : A) → key (change y) ≡ key y)
      → select_one (λ y. key y == k) xs ≡ some x
      → select_one (λ y. key y == k) (update_where (λ y. key y == k) change xs) ≡ some (change x)
  unfolding update_where select_one
  select_one-update_where k change [] x same h = absurd (ground arith)
  select_one-update_where k change (y ∷ ys) x same h =
      ground (arith, select_one-update_where k change ys x same, same y)
