-- ===== src/Task/Recovery.antt =====
-- `_recover_interrupted_storage`: what a restart does to the rows of tasks that a former process
-- left unfinished. Rows have no NULL in `status` and `task_type`, since the code writes none.
use telegram_media_downloade.Prelude.{
  ℕ, ◌≡◌, refl, Bool, true, false, not, ◌&&◌, Option, none, some, String, [], ◌∷◌, arith,
  if◌then◌else◌, ◌==◌, string_key, pair_key,
}
use telegram_media_downloade.Dict.{Dict, get}
use telegram_media_downloade.Task.Status.{FileStatus, failed, is_terminal}
use telegram_media_downloade.Task.Snapshot.{FileSnapshot}
use telegram_media_downloade.Task.Tables.{TaskRow, Tables}

abbrev pub restart_interrupted_error : String
restart_interrupted_error = "restart_interrupted"

-- `status NOT IN (…) AND COALESCE(task_type, '') != 'channel_library'`
unfoldable pub is_interrupted : TaskRow → Bool
is_interrupted row = not (is_terminal row.status) && not (row.task_type == "channel_library")

-- `status IN ('queued', 'downloading', 'uploading')`
unfoldable pub is_open_file : FileStatus → Bool
is_open_file FileStatus.queued = true
is_open_file FileStatus.downloading = true
is_open_file FileStatus.uploading = true
is_open_file _ = false

unfoldable pub close_task : ℕ → TaskRow → TaskRow
close_task now row =
    if is_interrupted row
    then record row {
      status = failed;
      error = restart_interrupted_error;
      needs_confirmation = false;
      updated_at = now;
    }
    else row

-- `task_id IN (SELECT task_id FROM tasks WHERE …)`
unfoldable pub task_interrupted : Dict String TaskRow → String → Bool
task_interrupted tasks task_id = elim (get task_id tasks) [
  | none ↦ false
  | some row ↦ is_interrupted row
]

unfoldable pub close_file : ℕ → Bool → FileSnapshot → FileSnapshot
close_file now interrupted f =
    if is_open_file f.status && interrupted
    then record f {
      status = FileStatus.failed;
      error = restart_interrupted_error;
      updated_at = now;
    }
    else f

unfoldable pub close_tasks : ℕ → Dict String TaskRow → Dict String TaskRow
close_tasks now [] = []
close_tasks now ((k, row) ∷ rows) = (k, close_task now row) ∷ close_tasks now rows

unfoldable pub close_files :
    ℕ
    → Dict String TaskRow
    → Dict (String × String) FileSnapshot
    → Dict (String × String) FileSnapshot
close_files now tasks [] = []
close_files now tasks (((t, m), f) ∷ files) =
    ((t, m), close_file now (task_interrupted tasks t) f) ∷ close_files now tasks files

-- The files first, while the tasks still tell which were interrupted.
unfoldable pub recover_interrupted_storage : ℕ → Tables → Tables
recover_interrupted_storage now db = record {
  tasks = close_tasks now db.tasks;
  task_files = close_files now db.tasks db.task_files;
}

abbrev pub map_row {ℓ} : {A B : Type ℓ} → (A → B) → Option A → Option B
map_row f none = none
map_row f (some a) = some (f a)

pub get-close_tasks :
    (now : ℕ) (k : String) (d : Dict String TaskRow)
    → get k (close_tasks now d) ≡ map_row (close_task now) (get k d)
unfolding close_tasks get
get-close_tasks now k [] = refl
get-close_tasks now k ((j, row) ∷ d) = ground (arith, get-close_tasks now k d)

pub get-close_files :
    (now : ℕ) (tasks : Dict String TaskRow) (t m : String) (d : Dict (String × String) FileSnapshot)
    → get (t, m) (close_files now tasks d)
      ≡ map_row (close_file now (task_interrupted tasks t)) (get (t, m) d)
unfolding close_files get
get-close_files now tasks t m [] = refl
get-close_files now tasks t m (((s, l), f) ∷ d) =
    ground (arith, get-close_files now tasks t m d, string_key.same_iff s t)

pub close_task_over :
    (now : ℕ) (row : TaskRow)
    → (is_interrupted (close_task now row) ≡ false)
      × ((is_interrupted row ≡ false) → close_task now row ≡ row)
      × ((is_interrupted row ≡ true) → (close_task now row).status ≡ failed)
unfolding close_task is_interrupted is_terminal
close_task_over now row = (ground arith, λ h. ground arith, λ h. ground arith)

pub close_file_over :
    (now : ℕ) (b : Bool) (f : FileSnapshot)
    → (b ≡ true → is_open_file (close_file now b f).status ≡ false)
      × (b ≡ false → close_file now b f ≡ f)
      × (is_open_file f.status ≡ false → close_file now b f ≡ f)
unfolding close_file is_open_file
close_file_over now b f = (λ h. ground arith, λ h. ground arith, λ h. ground arith)
