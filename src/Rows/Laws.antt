-- ===== src/Rows/Laws.antt =====
-- What the statements keep of a table.
use telegram_media_downloade.Prelude.{
  ◌≡◌, refl, ap, subst, Bool, true, false, none, some, List, [], ◌∷◌, ◌++◌, map, arith, All,
  Bool-cases, inl, inr, Key, elem, ◌==◌, Distinct,
}
use telegram_media_downloade.Rows.{select_one, update_where, delete_where}

module _ {ℓ κ} {A : Type ℓ} {K : Type κ} (key : A → K) where
  -- An update that keeps a column.
  pub map-update_where :
      (test : A → Bool) (change : A → A) (xs : List A)
      → ((x : A) → test x ≡ true → key (change x) ≡ key x)
      → map key (update_where test change xs) ≡ map key xs
  unfolding update_where
  map-update_where test change [] same = refl
  map-update_where test change (x ∷ xs) same = elim (Bool-cases (test x)) [
    | inl e ↦ rw e (rw (same x e) (ap (λ ks. key x ∷ ks) (map-update_where test change xs same)))
    | inr e ↦ rw e (ap (λ ks. key x ∷ ks) (map-update_where test change xs same))
  ]

  pub map-append_one : (xs : List A) (x : A) → map key (xs ++ x ∷ []) ≡ map key xs ++ key x ∷ []
  map-append_one [] x = refl
  map-append_one (y ∷ ys) x = ap (λ ks. key y ∷ ks) (map-append_one ys x)

module _ {ℓ κ} {A : Type ℓ} {K : Type κ} ⦃e : Key K⦄ (key : A → K) where
  pub elem-delete_where :
      (k : K) (test : A → Bool) (xs : List A)
      → elem k (map key xs) ≡ false
      → elem k (map key (delete_where test xs)) ≡ false
  unfolding delete_where
  elem-delete_where k test [] h = refl
  elem-delete_where k test (x ∷ xs) h = ground (arith, elem-delete_where k test xs)

  pub delete_where-Distinct :
      (test : A → Bool) (xs : List A)
      → Distinct (map key xs)
      → Distinct (map key (delete_where test xs))
  unfolding delete_where
  delete_where-Distinct test [] d = d
  delete_where-Distinct test (x ∷ xs) d =
      ground (arith, delete_where-Distinct test xs d.1, elem-delete_where (key x) test xs d.0)

  -- No row has a key that a search for it does not find.
  pub elem-select_one :
      (k : K) (xs : List A) → select_one (λ x. key x == k) xs ≡ none → elem k (map key xs) ≡ false
  unfolding select_one
  elem-select_one k [] h = refl
  elem-select_one k (x ∷ xs) h = ground (arith, elem-select_one k xs)

module _ {ℓ κ μ} {A : Type ℓ} (P : A → Type κ) (Q : A → Type μ) where
  -- What an update makes of the rows that it changes, and of the others.
  pub update_where-All :
      (test : A → Bool) (change : A → A) (xs : List A)
      → ((x : A) → test x ≡ true → P x → Q (change x))
      → ((x : A) → test x ≡ false → P x → Q x)
      → All P xs
      → All Q (update_where test change xs)
  unfolding update_where
  update_where-All test change [] f g h = tt
  update_where-All test change (x ∷ xs) f g h = elim (Bool-cases (test x)) [
    | inl e ↦ rw e (f x e h.0, update_where-All test change xs f g h.1)
    | inr e ↦ rw e (g x e h.0, update_where-All test change xs f g h.1)
  ]

  pub map-All : (xs : List A) → ((x : A) → P x → Q x) → All P xs → All Q xs
  map-All [] f h = tt
  map-All (x ∷ xs) f h = (f x h.0, map-All xs f h.1)

  -- Two properties of the rows, together.
  pub both-All {ν} :
      (R : A → Type ν) (xs : List A) → ((x : A) → P x → Q x → R x) → All P xs → All Q xs → All R xs
  both-All R [] f p q = tt
  both-All R (x ∷ xs) f p q = (f x p.0 q.0, both-All R xs f p.1 q.1)

module _ {ℓ κ} {A : Type ℓ} (P : A → Type κ) where
  pub delete_where-All : (test : A → Bool) (xs : List A) → All P xs → All P (delete_where test xs)
  unfolding delete_where
  delete_where-All test [] h = tt
  delete_where-All test (x ∷ xs) h = elim (Bool-cases (test x)) [
    | inl e ↦ rw e (delete_where-All test xs h.1)
    | inr e ↦ rw e (h.0, delete_where-All test xs h.1)
  ]

  pub append-All : (xs : List A) (x : A) → All P xs → P x → All P (xs ++ x ∷ [])
  append-All [] x h p = (p, tt)
  append-All (y ∷ ys) x h p = (h.0, append-All ys x h.1 p)

  -- The row that a search finds.
  pub select_one-All :
      (test : A → Bool) (xs : List A) (x : A)
      → select_one test xs ≡ some x
      → All P xs
      → P x × (test x ≡ true)
  unfolding select_one
  select_one-All test [] x s h = absurd (ground arith)
  select_one-All test (y ∷ ys) x s h = elim (Bool-cases (test y)) [
    | inl e ↦
        let found : some y ≡ some x = rw e at s in
        let same : y ≡ x = ground (arith, found) in subst (λ z. P z × (test z ≡ true)) same (h.0, e)
    | inr e ↦ select_one-All test ys x (rw e at s) h.1
  ]
