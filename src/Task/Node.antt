-- ===== src/Task/Node.antt =====
-- module/app.py, `TaskNode`: the counters of one running task, and what task_state.py reads off
-- them. Ids are texts here. Results are given with the ids of their message, as every caller does.
pub mod Tally
pub mod Finish
use telegram_media_downloade.Prelude.{
  ℕ, zero, suc, ◌+◌, ◌-◌, ◌≤◌, ◌≡◌, ◌≢◌, ◌↔◌, ◌⊎◌, inl, inr, refl, Bool, true, false, not, ◌&&◌,
  ◌||◌, Option, none, some, String, List, [], ◌∷◌, ◌++◌, length, count, to_nat, arith, ltb, leb,
  if◌then◌else◌, ◌==◌, string_key, pair_key, nat_beq, Option-cases, Bool-cases,
}
use telegram_media_downloade.Dict.{Dict, get, put, pop, values}
use telegram_media_downloade.Dict.Laws.{get-put_self, get-put_ne}
use telegram_media_downloade.Task.Status.{
  TaskStatus, FileStatus, completed, completed_with_errors, cancelled, downloading, queued,
}

pub data DownloadStatus : Type 0 where
  skip_download success_download failed_download in_progress : DownloadStatus

-- `is` on the members of the enumeration.
abbrev pub same_status : DownloadStatus → DownloadStatus → Bool
same_status skip_download skip_download = true
same_status success_download success_download = true
same_status failed_download failed_download = true
same_status in_progress in_progress = true
same_status _ _ = false

abbrev pub is_success_download : DownloadStatus → Bool
is_success_download success_download = true
is_success_download _ = false

abbrev pub is_skip_download : DownloadStatus → Bool
is_skip_download skip_download = true
is_skip_download _ = false

-- The `else` of the two chains: neither a success nor a skip.
abbrev pub is_failed_download : DownloadStatus → Bool
is_failed_download success_download = false
is_failed_download skip_download = false
is_failed_download _ = true

-- `(chat_id, message_id, file_name)`
pub record Detail : Type 0 where
  pub chat_id : String
  pub message_id : String
  pub file_name : Option String

pub record TaskNode : Type 0 where
  pub total_task : ℕ
  pub total_download_task : ℕ
  pub success_download_task : ℕ
  pub failed_download_task : ℕ
  pub skip_download_task : ℕ
  pub is_running : Bool
  pub is_stop_transmission : Bool
  pub prescan_batch_in_progress : Bool
  pub is_listen_forward : Bool
  pub download_status : Dict String DownloadStatus
  pub download_result_status : Dict (String × String) DownloadStatus
  pub success_tasks : List Detail
  pub failed_tasks : List Detail
  pub skipped_tasks : List Detail

-- `[detail for detail in details if detail[:2] != (chat_id, message_id)]`
unfoldable pub without_detail : String → String → List Detail → List Detail
without_detail chat_id message_id [] = []
without_detail chat_id message_id (d ∷ ds) =
    let rest = without_detail chat_id message_id ds in
    if (d.chat_id == chat_id) && (d.message_id == message_id) then rest else d ∷ rest

unfoldable pub remove_download_result : DownloadStatus → String → String → TaskNode → TaskNode
remove_download_result success_download chat_id message_id n = record n {
  success_download_task = n.success_download_task - 1;
  success_tasks = without_detail chat_id message_id n.success_tasks;
}
remove_download_result skip_download chat_id message_id n = record n {
  skip_download_task = n.skip_download_task - 1;
  skipped_tasks = without_detail chat_id message_id n.skipped_tasks;
}
remove_download_result _ chat_id message_id n = record n {
  failed_download_task = n.failed_download_task - 1;
  failed_tasks = without_detail chat_id message_id n.failed_tasks;
}

-- The chain at the end of `stat`.
unfoldable pub add_download_result : DownloadStatus → Detail → TaskNode → TaskNode
add_download_result success_download d n = record n {
  success_download_task = n.success_download_task + 1;
  success_tasks = n.success_tasks ++ d ∷ [];
}
add_download_result skip_download d n = record n {
  skip_download_task = n.skip_download_task + 1;
  skipped_tasks = n.skipped_tasks ++ d ∷ [];
}
add_download_result _ d n = record n {
  failed_download_task = n.failed_download_task + 1;
  failed_tasks = n.failed_tasks ++ d ∷ [];
}

-- The result of the message before, taken out.
unfoldable pub forget_previous : Option DownloadStatus → String → String → TaskNode → TaskNode
unfolding remove_download_result
forget_previous none chat_id message_id n = n
forget_previous (some previous) chat_id message_id n =
    remove_download_result previous chat_id message_id n

abbrev pub is_repeated : Option DownloadStatus → DownloadStatus → Bool
is_repeated none status = false
is_repeated (some previous) status = same_status previous status

unfoldable pub stat : DownloadStatus → String → String → Option String → TaskNode → TaskNode
unfolding forget_previous add_download_result
stat status chat_id message_id file_name n =
    let key : String × String = (chat_id, message_id) in
    let previous = get {V = DownloadStatus} key n.download_result_status in
    if is_repeated previous status
    then n
    else (let cleared = forget_previous previous chat_id message_id n in
        add_download_result status
          (record { chat_id = chat_id; message_id = message_id; file_name = file_name })
          (record cleared {
            download_result_status = put key status cleared.download_result_status;
          }))

unfoldable pub completed_download_task : TaskNode → ℕ
completed_download_task n = n.success_download_task + n.failed_download_task + n.skip_download_task

unfoldable pub is_finish : TaskNode → Bool
unfolding completed_download_task
is_finish n =
    if n.is_stop_transmission
    then true
    else if n.prescan_batch_in_progress
    then false
    else (n.is_running
        && not n.is_listen_forward
        && ltb 0 n.total_download_task
        && leb n.total_download_task (completed_download_task n))

-- `getattr(…) or getattr(…) or len(…)`
abbrev pub or_number : ℕ → ℕ → ℕ
or_number zero n = n
or_number (suc m) n = suc m

unfoldable pub resolved_total : TaskNode → ℕ
resolved_total n =
    or_number n.total_download_task (or_number n.total_task (length n.download_status))

-- `_status_from_node`
unfoldable pub status_from_node : TaskNode → TaskStatus
unfolding resolved_total completed_download_task
status_from_node n =
    if ltb 0 (resolved_total n)
      && leb (resolved_total n) (completed_download_task n)
      && not n.prescan_batch_in_progress
    then (if ltb 0 n.failed_download_task then completed_with_errors else completed)
    else if n.is_stop_transmission
    then cancelled
    else if n.is_running
    then downloading
    else queued

-- `_file_status_from_download_status`
unfoldable pub file_status_from_download_status : DownloadStatus → FileStatus
file_status_from_download_status success_download = FileStatus.downloaded
file_status_from_download_status failed_download = FileStatus.failed
file_status_from_download_status skip_download = FileStatus.skipped
file_status_from_download_status in_progress = FileStatus.downloading

abbrev pub new_node : TaskNode
new_node = record {
  total_task = 0;
  total_download_task = 0;
  success_download_task = 0;
  failed_download_task = 0;
  skip_download_task = 0;
  is_running = false;
  is_stop_transmission = false;
  prescan_batch_in_progress = false;
  is_listen_forward = false;
  download_status = [];
  download_result_status = [];
  success_tasks = [];
  failed_tasks = [];
  skipped_tasks = [];
}
