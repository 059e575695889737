-- ===== src/Resource/Keys.antt =====
-- Spent activation keys in their table.
use telegram_media_downloade.Prelude.{
  ℕ, ◌≡◌, refl, sym, subst, true, false, ◌&&◌, none, some, String, List, [], ◌∷◌, ◌++◌, map, ◌==◌,
  ==_iff, string_key, inl, inr, Bool-cases, arith, elem, Distinct,
}
use telegram_media_downloade.Prelude.Int.{ℤ, int_key}
use telegram_media_downloade.Rows.{select_one, update_where}
use telegram_media_downloade.Resource.{ActivationKey, is_available}
use telegram_media_downloade.Resource.Access.{is_spendable}
use telegram_media_downloade.Resource.Invariant.{hash_of}
use telegram_media_downloade.Resource.KeyLaws.{spent}

module _ (h : String) where
  -- The key of a digest is there, and is not available.
  abbrev pub IsSpent : List ActivationKey → Type 0
  IsSpent keys =
      (row : ActivationKey) × (select_one (λ (k : ActivationKey). k.key_hash == h) keys ≡ some row)
      × (is_available row.status ≡ false)

  no_other :
      (keys : List ActivationKey)
      → elem h (map hash_of keys) ≡ false
      → select_one (λ (k : ActivationKey). (k.key_hash == h) && is_available k.status) keys ≡ none
  unfolding select_one
  no_other [] n = refl
  no_other (k ∷ keys) n = ground (arith, no_other keys)

  -- A spent key is not found by a redemption.
  pub IsSpent-none :
      (keys : List ActivationKey)
      → Distinct (map hash_of keys)
      → IsSpent keys
      → select_one (λ (k : ActivationKey). (k.key_hash == h) && is_available k.status) keys ≡ none
  unfolding select_one
  IsSpent-none [] d (row, e, off) = absurd (ground (arith, e))
  IsSpent-none (k ∷ keys) d (row, e, off) = elim (Bool-cases (k.key_hash == h)) [
    | inl hit ↦
        let found : some k ≡ some row = rw hit at e in
        let here : k ≡ row = ground (arith, found) in
        let closed : is_available k.status ≡ false = rw here off in
        let same : k.key_hash ≡ h = (==_iff k.key_hash h).0 hit in
        rw (closed, hit) (no_other keys (subst (λ g. elem g (map hash_of keys) ≡ false) same d.0))
    | inr miss ↦ rw miss (IsSpent-none keys d.1 (row, rw miss at e, off))
  ]

  pub append-IsSpent :
      (k : ActivationKey) (keys : List ActivationKey) → IsSpent keys → IsSpent (keys ++ k ∷ [])
  unfolding select_one
  append-IsSpent k [] (row, e, off) = absurd (ground (arith, e))
  append-IsSpent k (j ∷ keys) (row, e, off) = elim (Bool-cases (j.key_hash == h)) [
    | inl hit ↦ (row, rw hit (rw hit at e), off)
    | inr miss ↦
        let (found, e2, off2) = append-IsSpent k keys (row, rw miss at e, off) in
        (found, rw miss e2, off2)
  ]

  -- A redemption leaves a spent key spent.
  pub update_where-IsSpent :
      (key : ActivationKey) (user_id : ℤ) (now : ℕ) (keys : List ActivationKey)
      → IsSpent keys
      → IsSpent (update_where (is_spendable key) (spent user_id now) keys)
  unfolding select_one update_where
  update_where-IsSpent key user_id now [] (row, e, off) = absurd (ground (arith, e))
  update_where-IsSpent key user_id now (k ∷ keys) (row, e, off) =
      elim (Bool-cases (k.key_hash == h)) [
        | inl hit ↦
            let found : some k ≡ some row = rw hit at e in
            let here : k ≡ row = ground (arith, found) in
            let closed : is_available k.status ≡ false = rw here off in
            let kept : is_spendable key k ≡ false = ground (arith, closed) in
            (k, rw (kept, hit) refl, closed)
        | inr miss ↦
            let (next, f, g) = update_where-IsSpent key user_id now keys (row, rw miss at e, off) in
            elim (Bool-cases (is_spendable key k)) [
              | inl t ↦ (next, rw (t, miss) f, g)
              | inr t ↦ (next, rw (t, miss) f, g)
            ]
      ]

  -- A redemption spends the key that it finds.
  pub found-IsSpent :
      (user_id : ℤ) (now : ℕ) (keys : List ActivationKey) (row : ActivationKey)
      → select_one (λ (k : ActivationKey). (k.key_hash == h) && is_available k.status) keys
        ≡ some row
      → Distinct (map hash_of keys)
      → IsSpent (update_where (is_spendable row) (spent user_id now) keys)
  unfolding select_one update_where
  found-IsSpent user_id now [] row e d = absurd (ground (arith, e))
  found-IsSpent user_id now (k ∷ keys) row e d = elim (Bool-cases (k.key_hash == h)) [
    | inl hit ↦ elim (Bool-cases (is_available k.status)) [
      | inl on ↦
          let found : some k ≡ some row = rw (hit, on) at e in
          let here : k ≡ row = ground (arith, found) in
          let t : is_spendable row k ≡ true = rw (sym here) (ground (arith, on)) in
          (spent user_id now k, rw (t, hit) refl, refl)
      | inr off ↦
          let t : is_spendable row k ≡ false = ground (arith, off) in (k, rw (t, hit) refl, off)
    ]
    | inr miss ↦
        let (next, f, g) = found-IsSpent user_id now keys row (rw miss at e) d.1 in
        elim (Bool-cases (is_spendable row k)) [
          | inl t ↦ (next, rw (t, miss) f, g)
          | inr t ↦ (next, rw (t, miss) f, g)
        ]
  ]
