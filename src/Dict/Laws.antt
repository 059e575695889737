-- ===== src/Dict/Laws.antt =====
-- The laws of dictionaries: what a read sees after a write, and how sizes change.
use telegram_media_downloade.Prelude.{
  suc, ◌≤◌, ◌<◌, ◌≡◌, ◌≢◌, refl, none, some, [], ◌∷◌, Key, ◌==◌, if◌then◌else◌, length, arith,
  ==_refl, ==_ne, Bool-cases, inl, inr,
}
use telegram_media_downloade.Dict.{Dict, get, put, pop}

module _ {ℓ κ} {K : Type ℓ} {V : Type κ} ⦃e : Key K⦄ where
  pub get-put :
      (k j : K) (v : V) (d : Dict K V) → get j (put k v d) ≡ (if k == j then some v else get j d)
  unfolding get put
  get-put k j v [] = refl
  get-put k j v ((i, w) ∷ d) =
      ground (arith, e.same_iff k j, e.same_iff i k, e.same_iff i j, get-put k j v d)

  pub get-pop : (k j : K) (d : Dict K V) → get j (pop k d) ≡ (if k == j then none else get j d)
  unfolding get pop
  get-pop k j [] = ground arith
  get-pop k j ((i, w) ∷ d) =
      ground (arith, e.same_iff k j, e.same_iff i k, e.same_iff i j, get-pop k j d)

  pub get-put_self : (k : K) (v : V) (d : Dict K V) → get k (put k v d) ≡ some v
  get-put_self k v d = ground (arith, get-put k k v d, ==_refl k)

  pub get-put_ne : (k j : K) (v : V) (d : Dict K V) → k ≢ j → get j (put k v d) ≡ get j d
  get-put_ne k j v d h = ground (arith, get-put k j v d, ==_ne k j h)

  pub get-pop_self : (k : K) (d : Dict K V) → get k (pop k d) ≡ none
  get-pop_self k d = ground (arith, get-pop k k d, ==_refl k)

  pub get-pop_ne : (k j : K) (d : Dict K V) → k ≢ j → get j (pop k d) ≡ get j d
  get-pop_ne k j d h = ground (arith, get-pop k j d, ==_ne k j h)

  pub length-pop-le : (k : K) (d : Dict K V) → length (pop k d) ≤ length d
  unfolding pop
  length-pop-le k [] = omega arith
  length-pop-le k ((i, w) ∷ d) = ground (arith, length-pop-le k d)

  pub length-pop-lt :
      (k : K) (d : Dict K V) (v : V) → get k d ≡ some v → length (pop k d) < length d
  unfolding pop get
  length-pop-lt k [] v h = ground arith
  length-pop-lt k ((i, w) ∷ d) v h = ground (arith, length-pop-lt k d v, length-pop-le k d)

  pub length-put-le : (k : K) (v : V) (d : Dict K V) → length (put k v d) ≤ suc (length d)
  unfolding put
  length-put-le k v [] = omega arith
  length-put-le k v ((i, w) ∷ d) = ground (arith, length-put-le k v d)

  pub length-le-put : (k : K) (v : V) (d : Dict K V) → length d ≤ length (put k v d)
  unfolding put
  length-le-put k v [] = omega arith
  length-le-put k v ((i, w) ∷ d) = ground (arith, length-le-put k v d)

-- A predicate of every entry that a read can reach, with its key.
pub record Holds {ℓ κ} {K : Type ℓ} {V : Type κ} ⦃e : Key K⦄ (P : K → V → Type κ) (d : Dict K V)
    : Type (ℓ ⊔ κ) where
  pub at : (k : K) (v : V) → get k d ≡ some v → P k v

module _ {ℓ κ} {K : Type ℓ} {V : Type κ} ⦃e : Key K⦄ {P : K → V → Type κ} where
  pub Holds-put : (k : K) (v : V) (d : Dict K V) → P k v → Holds P d → Holds P (put k v d)
  Holds-put k v d p h = record {
    at = λ j w q. elim (Bool-cases (k == j)) [
      | inl same ↦ ground (arith, get-put k j v d, e.same_iff k j)
      | inr other ↦ h.at j w (ground (arith, get-put k j v d))
    ];
  }

  pub Holds-pop : (k : K) (d : Dict K V) → Holds P d → Holds P (pop k d)
  Holds-pop k d h = record { at = λ j w q. h.at j w (ground (arith, get-pop k j d)) }
