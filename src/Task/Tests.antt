-- ===== src/Task/Tests.antt =====
-- The store, a node and a database at concrete values.
use telegram_media_downloade.Prelude.{
  ==_iff, ◌||◌, ◌≡◌, ◌≢◌, ◌↔◌, refl, arith, true, false, none, some, String, List, [], ◌∷◌, length,
  count, string_key, pair_key,
}
use telegram_media_downloade.Dict.{Dict, get, put, pop, keys, values}
use telegram_media_downloade.Dict.Laws.{Holds, Holds-put}
use telegram_media_downloade.Task.Status.{
  queued, downloading, completed, scanning, is_terminal, is_known, is_allowed,
}
use telegram_media_downloade.Task.Snapshot.{
  FileSnapshot, TaskSnapshot, TaskUpdates, new_task, new_file, no_updates, no_file_updates,
  apply_updates, refresh_counts_from_files, recount,
}
use telegram_media_downloade.Task.Tables.{Tables, task_row}
use telegram_media_downloade.Task.Store.{
  TaskStateStore, Moment, task_transition, find, validate_updates, validate_transition, checked,
  store_task, persist_task, returning,
}
use telegram_media_downloade.Task.Store.Methods.{TaskIdentity, update_task, write_back}
use telegram_media_downloade.Task.Store.Files.{
  transition_file, task_or_new, moved_task, moved_file, updated_task, requested_status,
  write_transition, installed, install_task,
}
use telegram_media_downloade.Task.Store.Invariant.{IsWellFormed}
use telegram_media_downloade.Task.Store.Calls.{
  Call, creates, updates, completes, transitions, after, run, raised, error_of,
}
use telegram_media_downloade.Task.Store.Histories.{IsLawful, run-IsWellFormed, after-IsLawful}
use telegram_media_downloade.Task.Store.Errors.{after-refused, transition_file-unwritten}
use telegram_media_downloade.Task.Counts.{IsMoved, transition_file-IsMoved}
use telegram_media_downloade.Task.Guard.{
  transition_without_reopening, is_blocked, is_progress, is_finished_task,
  transition_without_reopening-raises,
}
use telegram_media_downloade.Task.Node.{
  TaskNode, success_download, failed_download, skip_download, is_success_download, is_skip_download,
  is_failed_download, completed_download_task, new_node, is_finish, status_from_node,
}
use telegram_media_downloade.Task.Node.Tally.{
  Report, run_stats, last_results, run_stats-last_results,
}
use telegram_media_downloade.Task.Node.Finish.{is_finish-is_terminal}
use telegram_media_downloade.Task.Restart.Rows.{TaskAfter, FileAfter, restart-tasks, restart-files}
use telegram_media_downloade.Task.Loading.RoundTrip.{IsKeyed}

abbrev clock : Moment
clock = record { now = 5; write_ok = true; delete_ok = true }

abbrev no_tables : Tables
no_tables = record { tasks = []; task_files = [] }

abbrev empty_store : TaskStateStore
empty_store = record { recent_limit = 1; active = []; completed = []; storage = some no_tables }

abbrev a_queued_task : TaskSnapshot
unfolding new_task
a_queued_task = record (new_task "a" 1) { status = queued; task_type = "download" }

abbrev a_store : TaskStateStore
a_store = record empty_store { active = ("a", a_queued_task) ∷ [] }

abbrev nothing : Dict String TaskSnapshot
nothing = []

no_tasks : {P : String → TaskSnapshot → Type 0} → Holds P nothing
unfolding get
no_tasks = record { at = λ k t h. absurd (ground arith) }

empty_store-IsWellFormed : IsWellFormed empty_store
unfolding get
empty_store-IsWellFormed = record {
  running = no_tasks;
  settled = no_tasks;
  apart = λ k t h. refl;
  bounded = omega arith;
}

a_store-IsWellFormed : IsWellFormed a_store
unfolding get put is_terminal a_queued_task
a_store-IsWellFormed = record {
  running = Holds-put "a" a_queued_task nothing (refl, refl) no_tasks;
  settled = no_tasks;
  apart = λ k t h. refl;
  bounded = omega arith;
}

abbrev progress : TaskUpdates
progress = record no_updates { status = some downloading }

abbrev finish : TaskUpdates
finish = record no_updates { status = some completed }

abbrev scan : TaskUpdates
scan = record no_updates { status = some scanning }

abbrev episode : TaskIdentity
episode = record { source = "web"; task_type = "download"; chat_id = none; title = "b" }

abbrev calls : List (Moment × Call)
calls =
    (clock, creates "b" episode queued no_updates)
    ∷ (clock, transitions "a" "7" (some progress) no_file_updates)
    ∷ (record clock { write_ok = false }, updates "a" finish)
    ∷ (clock, updates "b" scan)
    ∷ (clock, completes "b")
    ∷ []

run-IsWellFormed_example : IsWellFormed (run calls a_store)
run-IsWellFormed_example = run-IsWellFormed calls a_store a_store-IsWellFormed

after-IsLawful_example : IsLawful (updates "a" progress) "a" queued downloading
unfolding find get put pop after update_task validate_updates validate_transition checked store_task
    a_queued_task persist_task returning write_back apply_updates is_terminal is_known is_allowed
after-IsLawful_example =
    after-IsLawful clock (updates "a" progress) a_store "a" a_queued_task
      (apply_updates 5 progress a_queued_task) a_store-IsWellFormed refl refl

after-refused_example : after clock (updates "a" scan) a_store ≡ a_store
unfolding raised error_of find get put pop after update_task validate_updates validate_transition
    checked store_task persist_task returning write_back apply_updates is_terminal is_known
    is_allowed a_queued_task
after-refused_example =
    after-refused clock (updates "a" scan) a_store (task_transition "a" queued scanning) refl
      (λ e. ground arith)

abbrev full_disk : Moment
full_disk = record clock { write_ok = false }

transition_file-unwritten_example :
    (after full_disk (transitions "a" "7" (some progress) no_file_updates) a_store ≡ a_store)
    × (raised full_disk (transitions "a" "7" (some progress) no_file_updates) a_store ≢ none)
transition_file-unwritten_example =
    transition_file-unwritten full_disk "a" "7" (some progress) no_file_updates a_store no_tables
      refl refl

abbrev moved : FileSnapshot
moved = moved_file clock "7" no_file_updates (updated_task clock (some progress) a_queued_task)

abbrev moved_to : TaskSnapshot
moved_to = moved_task clock "7" moved (updated_task clock (some progress) a_queued_task)

transition_file-IsMoved_example :
    IsMoved a_queued_task moved_to "7" moved
    × (is_terminal moved_to.status ≡ false
        → find "a" (transition_file clock "a" "7" (some progress) no_file_updates a_store).1
          ≡ some moved_to)
unfolding find get put pop task_or_new transition_file a_queued_task validate_updates
    requested_status validate_transition is_known is_allowed checked write_transition installed
    install_task returning is_terminal moved_task moved_file updated_task apply_updates
    refresh_counts_from_files recount
transition_file-IsMoved_example =
    transition_file-IsMoved clock "a" "7" (some progress) no_file_updates a_store
      (transition_file clock "a" "7" (some progress) no_file_updates a_store).1 moved_to moved refl

transition_without_reopening-raises_example :
    (error_of (transition_without_reopening clock "a" "7" progress no_file_updates [] a_store)
      ≡ some (task_transition "a" queued downloading))
    ↔ ((is_finished_task (find "a" a_store) ≡ false)
        × (is_blocked queued || is_terminal queued ≡ true))
unfolding find get a_queued_task is_progress run
transition_without_reopening-raises_example =
    transition_without_reopening-raises clock a_store [] "a" "7" a_queued_task downloading progress
      no_file_updates refl refl refl

-- A message that fails, is tried again, and succeeds, beside one that is skipped.
abbrev reports : List Report
reports =
    record { status = failed_download; message = ("1", "7"); file_name = none }
    ∷ record { status = skip_download; message = ("1", "8"); file_name = none }
    ∷ record { status = success_download; message = ("1", "7"); file_name = some "f" }
    ∷ []

run_stats-last_results_example :
    let n = run_stats reports new_node in
    let last = values (last_results reports []) in
    (n.success_download_task ≡ count is_success_download last)
    × (n.skip_download_task ≡ count is_skip_download last)
    × (n.failed_download_task ≡ count is_failed_download last)
    × (completed_download_task n ≡ length last)
run_stats-last_results_example = run_stats-last_results reports

abbrev left_over : Tables
left_over = record {
  tasks = ("a", task_row a_queued_task) ∷ [];
  task_files = (("a", "7"), new_file "7" 1) ∷ [];
}

left_over-IsKeyed : IsKeyed left_over.tasks
unfolding keys get task_row a_queued_task
left_over-IsKeyed = record {
  distinct = (refl, tt);
  own = λ k row h. ground (arith, h, ==_iff "a" k);
}

restart-tasks_example : TaskAfter 1 9 left_over "a" (task_row a_queued_task)
unfolding get
restart-tasks_example =
    restart-tasks 1 9 left_over "a" (task_row a_queued_task) left_over-IsKeyed refl

restart-files_example : FileAfter 0 9 left_over "a" "7" (new_file "7" 1)
unfolding get
restart-files_example = restart-files 0 9 left_over "a" "7" (new_file "7" 1) refl

abbrev running_node : TaskNode
running_node = record new_node {
  total_download_task = 2;
  success_download_task = 1;
  failed_download_task = 1;
  is_running = true;
}

is_finish-is_terminal_example : is_finish running_node ≡ is_terminal (status_from_node running_node)
is_finish-is_terminal_example = is_finish-is_terminal running_node (omega arith) refl refl

abbrev five_files : List String
five_files = "a" ∷ "b" ∷ "c" ∷ "d" ∷ "e" ∷ []
