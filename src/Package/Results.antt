-- ===== src/Package/Results.antt =====
-- When a package is completed, and when it is cancelled.
use telegram_media_downloade.Prelude.{
  Bool, true, false, not, ◌&&◌, ◌||◌, Option, none, some, String, List, [], ◌∷◌, any, all, elem,
  string_key, ◌≡◌, ◌≢◌, ◌↔◌, refl, sym, ◌∙◌, arith,
}
use telegram_media_downloade.Dict.{Dict, get}
use telegram_media_downloade.Task.Status.{is_success}
use telegram_media_downloade.Task.Snapshot.{FileSnapshot}
use telegram_media_downloade.Package.{
  PackageStatus, PackageMessageResult, Package, ParentNode, expected_ids, file_result,
  message_status, message_result, message_results, is_completed, is_upload_failed, is_not_found,
  is_failed, is_cancelled, is_nonempty, package_status, build_package_result,
}

abbrev is_done : Option FileSnapshot → Bool
is_done none = false
is_done (some f) = is_success f.status

-- A message needs no more work: it was found, and it was skipped as already there, or its file is
-- downloaded or uploaded.
abbrev pub is_settled : Package → ParentNode → Dict String FileSnapshot → String → Bool
is_settled p n files i =
    not (elem i n.skip_not_found_message_ids || elem i p.not_found_message_ids)
    && (elem i n.completed_file_skip_message_ids || is_done (get i files))

completed-file_result :
    (stopped : Bool) (o : Option FileSnapshot) (i e : String)
    → is_completed (record { message_id = i; status = file_result stopped o; error = e })
      ≡ is_done o
unfolding file_result is_success
completed-file_result stopped none i e = ground arith
completed-file_result stopped (some f) i e = ground arith

completed-message_result :
    (p : Package) (n : ParentNode) (files : Dict String FileSnapshot) (i : String)
    → is_completed (message_result p n files i) ≡ is_settled p n files i
unfolding message_result message_status
completed-message_result p n files i =
    ground (arith, completed-file_result n.is_stop_transmission (get i files) i "")

all-completed :
    (p : Package) (n : ParentNode) (files : Dict String FileSnapshot) (ids : List String)
    → all is_completed (message_results p n files ids) ≡ all (is_settled p n files) ids
unfolding message_results
all-completed p n files [] = refl
all-completed p n files (i ∷ ids) =
    ground (arith, completed-message_result p n files i, all-completed p n files ids)

is_nonempty-results :
    (p : Package) (n : ParentNode) (files : Dict String FileSnapshot) (ids : List String)
    → (is_nonempty (message_results p n files ids) ≡ true) ↔ (ids ≢ [])
unfolding message_results
is_nonempty-results p n files [] = (λ h. ground arith, λ h. absurd (h refl))
is_nonempty-results p n files (i ∷ ids) = (λ h e. ground arith, λ h. refl)

completed-package_status :
    (stopped : Bool) (rs : List PackageMessageResult)
    → (package_status stopped rs ≡ PackageStatus.completed)
      ↔ ((is_nonempty rs ≡ true) × (all is_completed rs ≡ true))
unfolding package_status
completed-package_status stopped rs = ground arith

-- A package is reported completed exactly when it expects a message, and every expected message was found
-- and is either skipped as already there or has its file downloaded or uploaded.
pub build_package_result-completed :
    (p : Package) (n : ParentNode) (files : Dict String FileSnapshot)
    → ((build_package_result p n files).status ≡ PackageStatus.completed)
      ↔ ((expected_ids p ≢ []) × (all (is_settled p n files) (expected_ids p) ≡ true))
unfolding build_package_result
build_package_result-completed p n files =
    let ids = expected_ids p in
    let rs = message_results p n files ids in
    let c = completed-package_status n.is_stop_transmission rs in
    let e = is_nonempty-results p n files ids in
    let a = all-completed p n files ids in
    (λ h. (e.0 (c.0 h).0, sym a ∙ (c.0 h).1), λ h. c.1 (e.1 h.0, a ∙ h.1))

-- Without a stop no message is cancelled.
cancelled-stopped :
    (p : Package) (n : ParentNode) (files : Dict String FileSnapshot) (ids : List String)
    → n.is_stop_transmission ≡ false
    → any is_cancelled (message_results p n files ids) ≡ false
unfolding message_results message_result message_status file_result
cancelled-stopped p n files [] h = refl
cancelled-stopped p n files (i ∷ ids) h = ground (arith, cancelled-stopped p n files ids h)

-- The results that rule out a cancellation.
all-cancelled :
    (rs : List PackageMessageResult)
    → (all is_cancelled rs ≡ true) ↔ (
        (any is_upload_failed rs ≡ false)
        × (any is_completed rs ≡ false)
        × (any is_not_found rs ≡ false)
        × (any is_failed rs ≡ false))
all-cancelled [] = (λ h. (refl, refl, refl, refl), λ h. refl)
all-cancelled (r ∷ rs) = ground (arith, all-cancelled rs)

cancelled-package_status :
    (stopped : Bool) (rs : List PackageMessageResult)
    → (stopped ≡ false → any is_cancelled rs ≡ false)
    → (package_status stopped rs ≡ PackageStatus.cancelled)
      ↔ ((stopped ≡ true) × (all is_cancelled rs ≡ true))
unfolding package_status
cancelled-package_status stopped [] h = ground arith
cancelled-package_status stopped (r ∷ rs) h = ground (arith, h, all-cancelled (r ∷ rs))

-- A package is reported cancelled exactly when its parent was stopped and every expected message was cut
-- off by that: one message that completed, failed or was not found makes it another status.
build_package_result-cancelled :
    (p : Package) (n : ParentNode) (files : Dict String FileSnapshot)
    → ((build_package_result p n files).status ≡ PackageStatus.cancelled) ↔ (
        (n.is_stop_transmission ≡ true)
        × (all is_cancelled (build_package_result p n files).message_results ≡ true))
unfolding build_package_result
build_package_result-cancelled p n files =
    cancelled-package_status n.is_stop_transmission (message_results p n files (expected_ids p))
      (cancelled-stopped p n files (expected_ids p))
