-- ===== src/Task/Node/Tally.antt =====
-- The counters of a task count each message once, by its last result.
use telegram_media_downloade.Prelude.{
  ◌+◌, ◌≡◌, inl, inr, refl, true, Option, some, String, List, [], ◌∷◌, length, count, arith, ap,
  ◌∙◌, pair_key, string_key, Option-cases,
}
use telegram_media_downloade.Dict.{Dict, get, put, values}
use telegram_media_downloade.Dict.Order.{count-put, prior-le-count}
use telegram_media_downloade.Task.Node.{
  DownloadStatus, is_success_download, is_skip_download, is_failed_download, same_status, TaskNode,
  stat, new_node, completed_download_task,
}

-- The counters are the numbers of recorded results of each kind.
pub record IsTallied (n : TaskNode) : Type 0 where
  pub successes :
      n.success_download_task ≡ count is_success_download (values n.download_result_status)
  pub skips : n.skip_download_task ≡ count is_skip_download (values n.download_result_status)
  pub failures : n.failed_download_task ≡ count is_failed_download (values n.download_result_status)

module _ (status : DownloadStatus) (chat_id message_id : String) (file_name : Option String)
    (n : TaskNode) (t : IsTallied n) where
  key : String × String
  key = (chat_id, message_id)

  stat-IsTallied : IsTallied (stat status chat_id message_id file_name n)
  unfolding stat key
  stat-IsTallied = ground (
    arith,
    count-put is_success_download key status n.download_result_status,
    count-put is_skip_download key status n.download_result_status,
    count-put is_failed_download key status n.download_result_status,
    prior-le-count is_success_download key n.download_result_status,
    prior-le-count is_skip_download key n.download_result_status,
    prior-le-count is_failed_download key n.download_result_status,
  )

-- One reported result: the status, the chat and the message, and the file.
pub record Report : Type 0 where
  pub status : DownloadStatus
  pub message : String × String
  pub file_name : Option String

pub run_stats : List Report → TaskNode → TaskNode
run_stats [] n = n
run_stats (r ∷ rs) n = run_stats rs (stat r.status r.message.0 r.message.1 r.file_name n)

-- The last result of each message.
pub last_results :
    List Report → Dict (String × String) DownloadStatus → Dict (String × String) DownloadStatus
last_results [] d = d
last_results (r ∷ rs) d = last_results rs (put r.message r.status d)

run_stats-IsTallied : (rs : List Report) (n : TaskNode) → IsTallied n → IsTallied (run_stats rs n)
unfolding run_stats
run_stats-IsTallied [] n t = t
run_stats-IsTallied (r ∷ rs) n t =
    run_stats-IsTallied rs _ (stat-IsTallied r.status r.message.0 r.message.1 r.file_name n t)

put_same :
    (k : String × String) (v w : DownloadStatus) (d : Dict (String × String) DownloadStatus)
    → get k d ≡ some w
    → same_status w v ≡ true
    → put k v d ≡ d
unfolding get put
put_same k v w [] h e = ground arith
put_same k v w ((j, u) ∷ d) h e = ground (arith, put_same k v w d)

stat_results :
    (status : DownloadStatus) (k : String × String) (file_name : Option String) (n : TaskNode)
    → (stat status k.0 k.1 file_name n).download_result_status
      ≡ put k status n.download_result_status
unfolding stat
stat_results status k file_name n = elim (Option-cases (get k n.download_result_status)) [
  | inl e ↦ ground arith
  | inr (w, e) ↦ ground (arith, put_same k status w n.download_result_status)
]

run_stats_results :
    (rs : List Report) (n : TaskNode)
    → (run_stats rs n).download_result_status ≡ last_results rs n.download_result_status
unfolding run_stats last_results
run_stats_results [] n = refl
run_stats_results (r ∷ rs) n =
    run_stats_results rs _ ∙ ap (last_results rs) (stat_results r.status r.message r.file_name n)

one_kind :
    (vs : List DownloadStatus)
    → count is_success_download vs + count is_failed_download vs + count is_skip_download vs
      ≡ length vs
one_kind [] = omega arith
one_kind (v ∷ vs) = ground (arith, one_kind vs)

-- After any reports to a new node, with repetitions and changes of mind, each counter is the
-- number of messages whose last report is of its kind, and the completed count is the number of
-- messages that were reported: no message counts twice.
pub run_stats-last_results :
    (rs : List Report)
    → let n = run_stats rs new_node in
      let last = values (last_results rs []) in
      (n.success_download_task ≡ count is_success_download last)
      × (n.skip_download_task ≡ count is_skip_download last)
      × (n.failed_download_task ≡ count is_failed_download last)
      × (completed_download_task n ≡ length last)
unfolding completed_download_task
run_stats-last_results rs = (
  t.successes ∙ ap (λ d. count is_success_download (values d)) e,
  t.skips ∙ ap (λ d. count is_skip_download (values d)) e,
  t.failures ∙ ap (λ d. count is_failed_download (values d)) e,
  omega (
    arith,
    one_kind (values (run_stats rs new_node).download_result_status),
    t.successes,
    t.skips,
    t.failures,
    ap (λ d. length (values d)) e,
  ),
)
  where
    t : IsTallied (run_stats rs new_node)
    t = run_stats-IsTallied rs new_node (unfold values in omega arith)

    e : (run_stats rs new_node).download_result_status ≡ last_results rs []
    e = run_stats_results rs new_node
