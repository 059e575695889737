-- ===== src/Task/Restart/Laws.antt =====
-- What the deletions of `_delete_task_storage` leave.
use telegram_media_downloade.Prelude.{
  ◌≡◌, refl, none, String, List, [], ◌∷◌, arith, if◌then◌else◌, ◌==◌, ==_iff, string_key, pair_key,
  elem,
}
use telegram_media_downloade.Dict.{Dict, get}
use telegram_media_downloade.Dict.Laws.{get-pop}
use telegram_media_downloade.Task.Snapshot.{FileSnapshot}
use telegram_media_downloade.Task.Tables.{Tables, delete_files, delete_task, delete_task_storage}

pub get-delete_task_storage :
    (k : String) (ids : List String) (db : Tables)
    → get k (delete_task_storage ids db).tasks ≡ (if elem k ids then none else get k db.tasks)
unfolding delete_task_storage delete_task
get-delete_task_storage k [] db = refl
get-delete_task_storage k (id ∷ ids) db =
    ground (arith, get-delete_task_storage k ids (delete_task id db), get-pop id k db.tasks)

get-delete_files :
    (id t m : String) (files : Dict (String × String) FileSnapshot)
    → get (t, m) (delete_files id files) ≡ (if t == id then none else get (t, m) files)
unfolding delete_files get
get-delete_files id t m [] = ground arith
get-delete_files id t m (((s, l), f) ∷ files) =
    ground (arith, get-delete_files id t m files, ==_iff {K = String} s t)

pub files-delete_task_storage :
    (t m : String) (ids : List String) (db : Tables)
    → get (t, m) (delete_task_storage ids db).task_files
      ≡ (if elem t ids then none else get (t, m) db.task_files)
unfolding delete_task_storage delete_task
files-delete_task_storage t m [] db = refl
files-delete_task_storage t m (id ∷ ids) db = ground (
  arith,
  files-delete_task_storage t m ids (delete_task id db),
  get-delete_files id t m db.task_files,
  ==_iff {K = String} t id,
  ==_iff {K = String} id t,
)
