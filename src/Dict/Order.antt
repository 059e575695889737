-- ===== src/Dict/Order.antt =====
-- The order of a dictionary's keys, and totals over its values.
use telegram_media_downloade.Prelude.{
  ℕ, ◌+◌, ◌≡◌, refl, true, false, none, some, [], ◌∷◌, ◌++◌, Key, ◌==◌, if◌then◌else◌, arith, elem,
  erase, Distinct, ◌||◌,
}
use telegram_media_downloade.Prelude.{◌≤◌, count, to_nat, Bool, Option}
use telegram_media_downloade.Dict.{values}
use telegram_media_downloade.Dict.{Dict, get, put, pop, keys}

module _ {ℓ κ} {K : Type ℓ} {V : Type κ} ⦃e : Key K⦄ where
  pub get-elem : (k : K) (d : Dict K V) → elem k (keys d) ≡ false → get k d ≡ none
  unfolding get keys
  get-elem k [] h = refl
  get-elem k ((i, v) ∷ d) h = ground (arith, get-elem k d)

  pub elem-get : (k : K) (d : Dict K V) → get k d ≡ none → elem k (keys d) ≡ false
  unfolding get keys
  elem-get k [] h = refl
  elem-get k ((i, v) ∷ d) h = ground (arith, elem-get k d)

  pub elem-get-some : (k : K) (d : Dict K V) → elem k (keys d) ≡ true → (v : V) × (get k d ≡ some v)
  unfolding get keys
  elem-get-some k [] h = ground arith
  elem-get-some k ((i, v) ∷ d) h =
      elim (i == k)
          as (λ b.
            (b || elem k (keys d)) ≡ true → (w : V) × ((if b then some v else get k d) ≡ some w)) [
              | true ↦ λ p. (v, refl)
              | false ↦ λ p. elem-get-some k d p
            ]
        h

  pub elem-keys : (k : K) (v : V) (d : Dict K V) → get k d ≡ some v → elem k (keys d) ≡ true
  unfolding get keys
  elem-keys k v [] h = ground arith
  elem-keys k v ((i, w) ∷ d) h = ground (arith, elem-keys k v d)

  -- A new key comes last.
  pub put_new : (k : K) (v : V) (d : Dict K V) → get k d ≡ none → put k v d ≡ d ++ (k, v) ∷ []
  unfolding get put
  put_new k v [] h = refl
  put_new k v ((i, w) ∷ d) h = ground (arith, put_new k v d)

  pub keys-put_new :
      (k : K) (v : V) (d : Dict K V) → get k d ≡ none → keys (put k v d) ≡ keys d ++ k ∷ []
  unfolding get put keys
  keys-put_new k v [] h = refl
  keys-put_new k v ((i, w) ∷ d) h = ground (arith, keys-put_new k v d)

  pub keys-put_old : (k : K) (v w : V) (d : Dict K V) → get k d ≡ some w → keys (put k v d) ≡ keys d
  unfolding get put keys
  keys-put_old k v w [] h = ground arith
  keys-put_old k v w ((i, u) ∷ d) h = ground (arith, keys-put_old k v w d)

  pub pop_absent : (k : K) (d : Dict K V) → elem k (keys d) ≡ false → pop k d ≡ d
  unfolding pop keys
  pop_absent k [] h = refl
  pop_absent k ((i, v) ∷ d) h = ground (arith, pop_absent k d)

  pub keys-pop : (k : K) (d : Dict K V) → Distinct (keys d) → keys (pop k d) ≡ erase k (keys d)
  unfolding pop keys
  keys-pop k [] h = refl
  keys-pop k ((i, v) ∷ d) h = ground (arith, keys-pop k d h.1, pop_absent k d, e.same_iff i k)

  pub pop-put_new : (k : K) (v : V) (d : Dict K V) → get k d ≡ none → pop k (put k v d) ≡ d
  unfolding get put pop
  pop-put_new k v [] h = ground (arith, e.same_iff k k)
  pop-put_new k v ((i, w) ∷ d) h = ground (arith, pop-put_new k v d)

-- `sum(d.values())`
unfoldable pub total : {K : Type 0} → Dict K ℕ → ℕ
total [] = 0
total ((k, n) ∷ d) = n + total d

module _ {K : Type 0} ⦃e : Key K⦄ where
  pub total-put_new :
      (k : K) (n : ℕ) (d : Dict K ℕ) → get k d ≡ none → total (put k n d) ≡ total d + n
  unfolding get put total
  total-put_new k n [] h = omega arith
  total-put_new k n ((i, m) ∷ d) h = ground (arith, total-put_new k n d)

  pub total-pop :
      (k : K) (n : ℕ) (d : Dict K ℕ)
      → Distinct (keys d)
      → get k d ≡ some n
      → total (pop k d) + n ≡ total d
  unfolding get pop keys total
  total-pop k n [] u h = ground arith
  total-pop k n ((i, m) ∷ d) u h =
      ground (arith, total-pop k n d u.1, pop_absent k d, e.same_iff i k)

-- What a key adds to a count of values.
abbrev pub prior {κ} : {V : Type κ} → (V → Bool) → Option V → ℕ
prior p none = 0
prior p (some v) = to_nat (p v)

module _ {ℓ κ} {K : Type ℓ} {V : Type κ} ⦃e : Key K⦄ where
  pub count-put :
      (p : V → Bool) (k : K) (v : V) (d : Dict K V)
      → count p (values (put k v d)) + prior p (get k d) ≡ count p (values d) + to_nat (p v)
  unfolding get put values
  count-put p k v [] = omega arith
  count-put p k v ((j, w) ∷ d) = ground (arith, count-put p k v d)

  pub prior-le-count :
      (p : V → Bool) (k : K) (d : Dict K V) → prior p (get k d) ≤ count p (values d)
  unfolding get values
  prior-le-count p k [] = omega arith
  prior-le-count p k ((j, w) ∷ d) = ground (arith, prior-le-count p k d)
