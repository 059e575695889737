-- ===== src/Package/Messages.antt =====
-- The messages of a package result: each once, in the order in which the package names them.
use telegram_media_downloade.Prelude.{
  not, ◌&&◌, String, List, [], ◌∷◌, elem, ◌==◌, ==_iff, string_key, ◌≡◌, refl, ◌∙◌, ap, arith,
  Distinct,
}
use telegram_media_downloade.Dict.{Dict}
use telegram_media_downloade.Task.Snapshot.{FileSnapshot}
use telegram_media_downloade.Package.{
  PackageMessageResult, Package, ParentNode, without, from_keys, named_ids, expected_ids,
  message_result, message_results, build_package_result,
}

elem-without :
    (a b : String) (xs : List String) → elem b (without a xs) ≡ (not (a == b) && elem b xs)
unfolding without
elem-without a b [] = ground arith
elem-without a b (x ∷ xs) = ground (arith, elem-without a b xs, ==_iff x a, ==_iff x b, ==_iff a b)

without-Distinct : (a : String) (xs : List String) → Distinct xs → Distinct (without a xs)
unfolding without
without-Distinct a [] d = tt
without-Distinct a (x ∷ xs) d = ground (arith, without-Distinct a xs d.1, elem-without a x xs, d.0)

from_keys-Distinct : (xs : List String) → Distinct (from_keys xs)
unfolding from_keys
from_keys-Distinct [] = tt
from_keys-Distinct (x ∷ xs) = (
  ground (arith, elem-without x x (from_keys xs), ==_iff x x),
  without-Distinct x (from_keys xs) (from_keys-Distinct xs),
)

elem-from_keys : (a : String) (xs : List String) → elem a (from_keys xs) ≡ elem a xs
unfolding from_keys
elem-from_keys a [] = refl
elem-from_keys a (x ∷ xs) =
    ground (arith, elem-from_keys a xs, elem-without x a (from_keys xs), ==_iff x a)

abbrev pub ids_of : List PackageMessageResult → List String
ids_of [] = []
ids_of (r ∷ rs) = r.message_id ∷ ids_of rs

ids_of-message_results :
    (p : Package) (n : ParentNode) (files : Dict String FileSnapshot) (ids : List String)
    → ids_of (message_results p n files ids) ≡ ids
unfolding message_results message_result
ids_of-message_results p n files [] = refl
ids_of-message_results p n files (i ∷ ids) =
    ap (λ is. i ∷ is) (ids_of-message_results p n files ids)

-- The result has one entry for each message that the package names, and for no other: no message stands
-- twice, whatever the package repeats.
pub build_package_result-messages :
    (p : Package) (n : ParentNode) (files : Dict String FileSnapshot)
    → Distinct (ids_of (build_package_result p n files).message_results)
      × ((i : String)
          → elem i (ids_of (build_package_result p n files).message_results) ≡ elem i (named_ids p))
unfolding build_package_result expected_ids
build_package_result-messages p n files =
    let e = ids_of-message_results p n files (expected_ids p) in
    (rw e (from_keys-Distinct (named_ids p)), λ i. ap (elem i) e ∙ elem-from_keys i (named_ids p))
