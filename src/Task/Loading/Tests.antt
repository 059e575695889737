-- ===== src/Task/Loading/Tests.antt =====
-- One task with one file, written and read back.
use telegram_media_downloade.Prelude.{
  ◌≡◌, refl, none, some, [], ◌∷◌, arith, string_key, pair_key, ==_iff,
}
use telegram_media_downloade.Dict.{get, keys}
use telegram_media_downloade.Task.Status.{queued}
use telegram_media_downloade.Task.Snapshot.{TaskSnapshot, new_task, new_file}
use telegram_media_downloade.Task.Tables.{Tables, task_row}
use telegram_media_downloade.Task.Store.{TaskStateStore, find}
use telegram_media_downloade.Task.Loading.{load_storage}
use telegram_media_downloade.Task.Loading.RoundTrip.{
  IsStorable, IsKeyed, read_back, find-load_storage,
}

abbrev stored : TaskSnapshot
unfolding new_task
stored = record (new_task "a" 1) { status = queued; task_type = "download" }

stored-IsStorable : IsStorable stored
unfolding stored
stored-IsStorable = record {
  source = refl;
  task_type = refl;
  status = refl;
  created_at = omega arith;
  updated_at = omega arith;
}

abbrev on_disk : Tables
on_disk = record {
  tasks = ("a", task_row stored) ∷ [];
  task_files = (("a", "7"), new_file "7" 1) ∷ [];
}

on_disk-IsKeyed : IsKeyed on_disk.tasks
unfolding keys get task_row stored
on_disk-IsKeyed = record { distinct = (refl, tt); own = λ k row h. ground (arith, h, ==_iff "a" k) }

abbrev started_store : TaskStateStore
started_store = record { recent_limit = 1; active = []; completed = []; storage = some on_disk }

find-load_storage_example :
    find "a" (load_storage 9 on_disk started_store)
    ≡ read_back 9 on_disk.task_files (get "a" on_disk.tasks) none
find-load_storage_example = find-load_storage 9 on_disk started_store "a" refl refl on_disk-IsKeyed

-- The stored task has been renamed.
abbrev renamed : TaskSnapshot
renamed = record stored { title = "t"; created_at = 5 }
