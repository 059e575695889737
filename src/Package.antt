-- ===== src/Package.antt =====
-- module/package_download.py, `build_package_result`: the result of one package, read off the files of
-- its task after the downloads. Message ids are texts, as the task files are keyed by `str(id)`; a
-- set that is missing is empty.
pub mod Results
pub mod Messages
mod Tests
use telegram_media_downloade.Prelude.{
  ℕ, Bool, true, false, not, ◌&&◌, ◌||◌, Option, none, some, String, List, [], ◌∷◌, ◌++◌, map, any,
  all, elem, ◌==◌, string_key, if◌then◌else◌,
}
use telegram_media_downloade.Dict.{Dict, get}
use telegram_media_downloade.Task.Status.{FileStatus}
use telegram_media_downloade.Task.Snapshot.{FileSnapshot}

pub data MessageStatus : Type 0 where
  not_found completed_file_skip upload_failed failed completed cancelled : MessageStatus

pub data PackageStatus : Type 0 where
  completed upload_failed completed_with_errors not_found failed cancelled : PackageStatus

pub record PackageMessageResult : Type 0 where
  pub message_id : String
  pub status : MessageStatus
  pub error : String

-- What is read of the package: an item has no id where its message has none.
pub record Package : Type 0 where
  pub expected_message_ids : List String
  pub item_message_ids : List (Option String)
  pub failed_message_ids : List String
  pub not_found_message_ids : List String
  pub package_id : ℕ
  pub attempt_id : Option ℕ

-- What is read of `parent_node`.
pub record ParentNode : Type 0 where
  pub skip_not_found_message_ids : List String
  pub completed_file_skip_message_ids : List String
  pub is_stop_transmission : Bool

pub record PackageDownloadResult : Type 0 where
  pub attempt_id : ℕ
  pub package_id : ℕ
  pub status : PackageStatus
  pub expected_message_ids : List String
  pub message_results : List PackageMessageResult

-- `[item for item in items if item is not None]`
unfoldable pub present : List (Option String) → List String
present [] = []
present (none ∷ ids) = present ids
present (some i ∷ ids) = i ∷ present ids

-- `[x for x in xs if x != a]`
unfoldable pub without : String → List String → List String
without a [] = []
without a (x ∷ xs) = let rest = without a xs in if x == a then rest else x ∷ rest

-- `tuple(dict.fromkeys(xs))`: first occurrences, in order.
unfoldable pub from_keys : List String → List String
unfolding without
from_keys [] = []
from_keys (x ∷ xs) = x ∷ without x (from_keys xs)

-- The ids that the package names: its snapshot, or else its items and then its failures.
unfoldable pub named_ids : Package → List String
unfolding present
named_ids p = elim p.expected_message_ids [
  | [] ↦ present p.item_message_ids ++ p.failed_message_ids
  | i ∷ ids ↦ i ∷ ids
]

unfoldable pub expected_ids : Package → List String
unfolding from_keys named_ids
expected_ids p = from_keys (named_ids p)

-- What the status of the file says, with the last branch for the others.
unfoldable pub file_result : Bool → Option FileSnapshot → MessageStatus
file_result stopped none = if stopped then MessageStatus.cancelled else MessageStatus.failed
file_result stopped (some f) = elim f.status [
  | FileStatus.upload_failed ↦ MessageStatus.upload_failed
  | FileStatus.failed ↦ MessageStatus.failed
  | FileStatus.downloaded ↦ MessageStatus.completed
  | FileStatus.uploaded ↦ MessageStatus.completed
  | _ ↦ if stopped then MessageStatus.cancelled else MessageStatus.failed
]

abbrev pub error_text : Option FileSnapshot → String
error_text none = ""
error_text (some f) = f.error

unfoldable pub message_status :
    Package → ParentNode → Dict String FileSnapshot → String → MessageStatus
unfolding file_result
message_status p n files i =
    if elem i n.skip_not_found_message_ids || elem i p.not_found_message_ids
    then MessageStatus.not_found
    else if elem i n.completed_file_skip_message_ids
    then MessageStatus.completed_file_skip
    else file_result n.is_stop_transmission (get i files)

unfoldable pub message_result :
    Package → ParentNode → Dict String FileSnapshot → String → PackageMessageResult
unfolding message_status
message_result p n files i = record {
  message_id = i;
  status = message_status p n files i;
  error = error_text (get i files);
}

unfoldable pub message_results :
    Package → ParentNode → Dict String FileSnapshot → List String → List PackageMessageResult
unfolding message_result
message_results p n files [] = []
message_results p n files (i ∷ ids) = message_result p n files i ∷ message_results p n files ids

-- `status in completed_statuses`
abbrev pub is_completed : PackageMessageResult → Bool
is_completed r = elim r.status [
  | MessageStatus.completed ↦ true
  | MessageStatus.completed_file_skip ↦ true
  | _ ↦ false
]

abbrev pub is_upload_failed : PackageMessageResult → Bool
is_upload_failed r = elim r.status [ MessageStatus.upload_failed ↦ true | _ ↦ false ]

abbrev pub is_not_found : PackageMessageResult → Bool
is_not_found r = elim r.status [ MessageStatus.not_found ↦ true | _ ↦ false ]

abbrev pub is_failed : PackageMessageResult → Bool
is_failed r = elim r.status [ MessageStatus.failed ↦ true | _ ↦ false ]

abbrev pub is_cancelled : PackageMessageResult → Bool
is_cancelled r = elim r.status [ MessageStatus.cancelled ↦ true | _ ↦ false ]

abbrev pub is_nonempty : List PackageMessageResult → Bool
is_nonempty [] = false
is_nonempty (r ∷ rs) = true

unfoldable pub package_status : Bool → List PackageMessageResult → PackageStatus
package_status stopped rs =
    if is_nonempty rs && all is_completed rs
    then PackageStatus.completed
    else if any is_upload_failed rs
    then PackageStatus.upload_failed
    else if any is_completed rs
    then PackageStatus.completed_with_errors
    else if any is_not_found rs
    then PackageStatus.not_found
    else if any is_failed rs
    then PackageStatus.failed
    else if any is_cancelled rs || stopped
    then PackageStatus.cancelled
    else PackageStatus.failed

-- `getattr(package, "attempt_id", package.package_id)`
abbrev pub attempt_or_package : Option ℕ → ℕ → ℕ
attempt_or_package none package_id = package_id
attempt_or_package (some attempt_id) package_id = attempt_id

-- The files are those of the task of the node, and none where there is no task.
unfoldable pub build_package_result :
    Package → ParentNode → Dict String FileSnapshot → PackageDownloadResult
unfolding message_results package_status expected_ids
build_package_result p n files =
    let ids = expected_ids p in
    let rs = message_results p n files ids in
    record {
      attempt_id = attempt_or_package p.attempt_id p.package_id;
      package_id = p.package_id;
      status = package_status n.is_stop_transmission rs;
      expected_message_ids = ids;
      message_results = rs;
    }
