-- ===== src/Package/Tests.antt =====
-- A package of three messages, one of which is named twice.
use telegram_media_downloade.Prelude.{
  true, false, none, String, [], ◌∷◌, elem, all, ◌≡◌, ◌≢◌, ◌↔◌, string_key, Distinct,
}
use telegram_media_downloade.Dict.{Dict}
use telegram_media_downloade.Task.Status.{FileStatus}
use telegram_media_downloade.Task.Snapshot.{FileSnapshot, new_file}
use telegram_media_downloade.Package.{
  PackageStatus, Package, ParentNode, named_ids, expected_ids, build_package_result,
}
use telegram_media_downloade.Package.Results.{is_settled, build_package_result-completed}
use telegram_media_downloade.Package.Messages.{ids_of, build_package_result-messages}

abbrev album : Package
album = record {
  expected_message_ids = "7" ∷ "8" ∷ "7" ∷ "9" ∷ [];
  item_message_ids = [];
  failed_message_ids = [];
  not_found_message_ids = [];
  package_id = 1;
  attempt_id = none;
}

abbrev parent : ParentNode
parent = record {
  skip_not_found_message_ids = [];
  completed_file_skip_message_ids = "8" ∷ [];
  is_stop_transmission = false;
}

abbrev album_files : Dict String FileSnapshot
album_files =
    ("7", record (new_file "7" 1) { status = FileStatus.downloaded })
    ∷ ("9", record (new_file "9" 1) { status = FileStatus.uploaded })
    ∷ []

build_package_result-completed_example :
    ((build_package_result album parent album_files).status ≡ PackageStatus.completed) ↔ (
      (expected_ids album ≢ [])
      × (all (is_settled album parent album_files) (expected_ids album) ≡ true))
build_package_result-completed_example = build_package_result-completed album parent album_files

build_package_result-messages_example :
    Distinct (ids_of (build_package_result album parent album_files).message_results)
    × ((i : String)
        → elem i (ids_of (build_package_result album parent album_files).message_results)
          ≡ elem i (named_ids album))
build_package_result-messages_example = build_package_result-messages album parent album_files
