-- ===== src/Rows.antt =====
-- SQL statements on a table, as a list of its rows in the order of their insertion.
pub mod Laws
pub mod Found
use telegram_media_downloade.Prelude.{
  ℕ, Bool, true, false, Option, none, some, List, [], ◌∷◌, if◌then◌else◌,
}

module _ {ℓ} {A : Type ℓ} where
  -- `SELECT * FROM rows WHERE test`, the first row.
  unfoldable pub select_one : (A → Bool) → List A → Option A
  select_one test [] = none
  select_one test (x ∷ xs) = if test x then some x else select_one test xs

  -- `SELECT * FROM rows WHERE test`
  unfoldable pub select : (A → Bool) → List A → List A
  select test [] = []
  select test (x ∷ xs) = let rest = select test xs in if test x then x ∷ rest else rest

  -- `UPDATE rows SET … WHERE test`
  unfoldable pub update_where : (A → Bool) → (A → A) → List A → List A
  update_where test change [] = []
  update_where test change (x ∷ xs) = (if test x then change x else x) ∷ update_where test change xs

  -- `DELETE FROM rows WHERE test`
  unfoldable pub delete_where : (A → Bool) → List A → List A
  delete_where test [] = []
  delete_where test (x ∷ xs) = let rest = delete_where test xs in if test x then rest else x ∷ rest

  -- The least row of a non-empty table by an order.
  unfoldable pub least_from : (A → A → Bool) → A → List A → A
  least_from before x [] = x
  least_from before x (y ∷ ys) = least_from before (if before y x then y else x) ys

  -- `SELECT * FROM rows ORDER BY … LIMIT 1`
  unfoldable pub least : (A → A → Bool) → List A → Option A
  unfolding least_from
  least before [] = none
  least before (x ∷ xs) = some (least_from before x xs)
