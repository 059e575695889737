-- ===== src/Task/Node/Finish.antt =====
-- `TaskNode.is_finish`, which the download loop asks, beside `_status_from_node`, which the store
-- shows.
use telegram_media_downloade.Prelude.{◌<◌, ◌≡◌, true, false, arith}
use telegram_media_downloade.Task.Status.{is_terminal}
use telegram_media_downloade.Task.Node.{
  TaskNode, is_finish, status_from_node, resolved_total, completed_download_task,
}

-- The loop and the store agree: for a running node with a total of downloads that does not listen, the
-- node is finished exactly when the store shows a terminal status, stopped and prescan-batch nodes
-- included.
pub is_finish-is_terminal :
    (n : TaskNode)
    → 0 < n.total_download_task
    → n.is_running ≡ true
    → n.is_listen_forward ≡ false
    → is_finish n ≡ is_terminal (status_from_node n)
unfolding is_finish status_from_node resolved_total completed_download_task is_terminal
is_finish-is_terminal n some_total running no_listening = ground arith
