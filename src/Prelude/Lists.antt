-- ===== src/Prelude/Lists.antt =====
-- Lists measured, counted and searched with native numbers and Boolean tests.
use Prim.Native.Nat.{ℕ, zero, suc, ◌+◌, ◌≤◌}
use mathlib.Core.Path.{◌≡◌, refl}
use mathlib.Core.Bool.{Bool, true, false, ◌||◌, ◌&&◌}
use mathlib.Core.Option.{Option, none, some}
use mathlib.Core.List.{List, [], ◌∷◌, ◌++◌}
use native.Mathlib.Omega.{arith}
use telegram_media_downloade.Prelude.Tests.{to_nat, if◌then◌else◌}
use telegram_media_downloade.Prelude.Keys.{Key, ◌==◌}

module _ {ℓ} {A : Type ℓ} where
  abbrev pub length : List A → ℕ
  length [] = 0
  length (x ∷ xs) = suc (length xs)

  -- `xs[n:]`
  abbrev pub drop : ℕ → List A → List A
  drop zero xs = xs
  drop (suc n) [] = []
  drop (suc n) (x ∷ xs) = drop n xs

  abbrev pub head? : List A → Option A
  head? [] = none
  head? (x ∷ xs) = some x

  -- `sum(1 for x in xs if test(x))`.
  abbrev pub count : (A → Bool) → List A → ℕ
  count p [] = 0
  count p (x ∷ xs) = to_nat (p x) + count p xs

  abbrev pub any : (A → Bool) → List A → Bool
  any p [] = false
  any p (x ∷ xs) = p x || any p xs

  abbrev pub all : (A → Bool) → List A → Bool
  all p [] = true
  all p (x ∷ xs) = p x && all p xs

  pub count-le-length : (p : A → Bool) (xs : List A) → count p xs ≤ length xs
  count-le-length p [] = omega arith
  count-le-length p (x ∷ xs) = ground (arith, count-le-length p xs)

  pub length-append : (xs ys : List A) → length (xs ++ ys) ≡ length xs + length ys
  length-append [] ys = omega arith
  length-append (x ∷ xs) ys = omega (arith, length-append xs ys)

module _ {ℓ} {A : Type ℓ} ⦃e : Key A⦄ where
  -- `x in xs`.
  abbrev pub elem : A → List A → Bool
  elem a [] = false
  elem a (x ∷ xs) = (x == a) || elem a xs

  -- `xs.remove(x)`: the first occurrence, and nothing when there is none.
  abbrev pub erase : A → List A → List A
  erase a [] = []
  erase a (x ∷ xs) = if x == a then xs else x ∷ erase a xs

-- A predicate of every element, by recursion.
abbrev pub All {ℓ κ} : {A : Type ℓ} → (A → Type κ) → List A → Type κ
All P [] = Unit
All P (x ∷ xs) = P x × All P xs

module _ {ℓ} {A : Type ℓ} ⦃e : Key A⦄ where
  -- No element occurs twice.
  abbrev pub Distinct : List A → Type 0
  Distinct [] = Unit
  Distinct (x ∷ xs) = (elem x xs ≡ false) × Distinct xs

  pub elem-append : (a : A) (xs ys : List A) → elem a (xs ++ ys) ≡ (elem a xs || elem a ys)
  elem-append a [] ys = refl
  elem-append a (x ∷ xs) ys = ground (arith, elem-append a xs ys)

  pub elem-erase_ne : (a b : A) (xs : List A) → (a == b) ≡ false → elem b (erase a xs) ≡ elem b xs
  elem-erase_ne a b [] h = refl
  elem-erase_ne a b (x ∷ xs) h =
      ground (arith, elem-erase_ne a b xs, e.same_iff x a, e.same_iff x b, e.same_iff a b)

  pub elem-erase_self : (a : A) (xs : List A) → Distinct xs → elem a (erase a xs) ≡ false
  elem-erase_self a [] d = refl
  elem-erase_self a (x ∷ xs) d = ground (arith, elem-erase_self a xs d.1, e.same_iff x a)

  -- What is taken out of a list was in it.
  pub elem-erase_le : (a b : A) (xs : List A) → elem b xs ≡ false → elem b (erase a xs) ≡ false
  elem-erase_le a b [] h = refl
  elem-erase_le a b (x ∷ xs) h = ground (arith, elem-erase_le a b xs)

  pub erase-Distinct : (a : A) (xs : List A) → Distinct xs → Distinct (erase a xs)
  erase-Distinct a [] d = tt
  erase-Distinct a (x ∷ xs) d = ground (arith, erase-Distinct a xs d.1, elem-erase_le a x xs d.0)

  pub erase_absent : (a : A) (xs : List A) → elem a xs ≡ false → erase a xs ≡ xs
  erase_absent a [] h = refl
  erase_absent a (x ∷ xs) h = ground (arith, erase_absent a xs)

  pub append-Distinct :
      (a : A) (xs : List A) → elem a xs ≡ false → Distinct xs → Distinct (xs ++ a ∷ [])
  append-Distinct a [] h d = (refl, tt)
  append-Distinct a (x ∷ xs) h d =
      ground
        (arith, append-Distinct a xs, elem-append x xs (a ∷ []), e.same_iff a x, e.same_iff x a)

  pub erase-append_last : (a : A) (xs : List A) → elem a xs ≡ false → erase a (xs ++ a ∷ []) ≡ xs
  erase-append_last a [] h = ground (arith, e.same_iff a a)
  erase-append_last a (x ∷ xs) h = ground (arith, erase-append_last a xs)
