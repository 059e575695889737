-- ===== src/Prelude/Positions.antt =====
-- Lists by position: reading, writing, taking out, and what these do to a count.
use Prim.Native.Nat.{ℕ, zero, suc, ◌+◌}
use mathlib.Core.Path.{◌≡◌, refl}
use mathlib.Core.Bool.{Bool}
use mathlib.Core.Option.{Option, none, some}
use mathlib.Core.List.{List, [], ◌∷◌, ◌++◌}
use native.Mathlib.Omega.{arith}
use telegram_media_downloade.Prelude.Tests.{to_nat}
use telegram_media_downloade.Prelude.Lists.{count, length}

module _ {ℓ} {A : Type ℓ} where
  abbrev pub get_elem? : List A → ℕ → Option A
  get_elem? [] i = none
  get_elem? (x ∷ xs) zero = some x
  get_elem? (x ∷ xs) (suc i) = get_elem? xs i

  -- A write past the end changes nothing.
  abbrev pub set : List A → ℕ → A → List A
  set [] i v = []
  set (x ∷ xs) zero v = v ∷ xs
  set (x ∷ xs) (suc i) v = x ∷ set xs i v

  -- Without the element at a position.
  abbrev pub erase_idx : List A → ℕ → List A
  erase_idx [] i = []
  erase_idx (x ∷ xs) zero = xs
  erase_idx (x ∷ xs) (suc i) = x ∷ erase_idx xs i

  pub count-set :
      (p : A → Bool) (xs : List A) (i : ℕ) (old v : A)
      → get_elem? xs i ≡ some old
      → count p (set xs i v) + to_nat (p old) ≡ count p xs + to_nat (p v)
  count-set p [] i old v h = ground arith
  count-set p (x ∷ xs) zero old v h = ground arith
  count-set p (x ∷ xs) (suc i) old v h = ground (arith, count-set p xs i old v h)

  pub count-erase_idx :
      (p : A → Bool) (xs : List A) (i : ℕ) (old : A)
      → get_elem? xs i ≡ some old
      → count p (erase_idx xs i) + to_nat (p old) ≡ count p xs
  count-erase_idx p [] i old h = ground arith
  count-erase_idx p (x ∷ xs) zero old h = ground arith
  count-erase_idx p (x ∷ xs) (suc i) old h = ground (arith, count-erase_idx p xs i old h)

  pub count-append_one :
      (p : A → Bool) (xs : List A) (v : A) → count p (xs ++ v ∷ []) ≡ count p xs + to_nat (p v)
  count-append_one p [] v = omega arith
  count-append_one p (x ∷ xs) v = omega (arith, count-append_one p xs v)

  pub get_elem?-append_last : (xs : List A) (v : A) → get_elem? (xs ++ v ∷ []) (length xs) ≡ some v
  get_elem?-append_last [] v = refl
  get_elem?-append_last (x ∷ xs) v = get_elem?-append_last xs v
