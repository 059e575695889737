-- ===== src/Task/Restart/Rows.antt =====
-- The rows of tasks and files after the start of a store that recovers interrupted tasks.
use telegram_media_downloade.Prelude.{
  ℕ, ◌-◌, ◌≡◌, refl, ap, sym, ◌∙◌, subst, true, false, Option, none, some, String, [], ◌∷◌, map,
  arith, if◌then◌else◌, ◌==◌, ==_iff, ==_refl, string_key, pair_key, elem, length, Bool-cases, ◌⊎◌,
  inl, inr, All,
}
use telegram_media_downloade.Dict.{Dict, get, keys, values}
use telegram_media_downloade.Rows.{select}
use telegram_media_downloade.Task.Status.{is_terminal, failed}
use telegram_media_downloade.Task.Snapshot.{FileSnapshot}
use telegram_media_downloade.Task.Tables.{TaskRow, Tables}
use telegram_media_downloade.Task.Recovery.{
  is_interrupted, is_open_file, close_task, close_tasks, task_interrupted, close_file,
  recover_interrupted_storage, map_row, get-close_tasks, get-close_files, close_task_over,
  close_file_over,
}
use telegram_media_downloade.Task.Loading.RoundTrip.{IsKeyed, tail-IsKeyed}
use telegram_media_downloade.Task.Restart.{
  id_of, newest_first, finished_rows, stale_rows, stale_keys, prune_completed_storage,
  recovered_tables, restart,
}
use telegram_media_downloade.Task.Restart.Laws.{get-delete_task_storage, files-delete_task_storage}
use telegram_media_downloade.Task.Restart.Order.{
  elem-newest_first, elem-drop, length-stale_rows, IsKept, stale_rows-IsKept,
}

keys-close_tasks : (now : ℕ) (d : Dict String TaskRow) → keys (close_tasks now d) ≡ keys d
unfolding close_tasks keys
keys-close_tasks now [] = refl
keys-close_tasks now ((k, row) ∷ d) = ap (λ ks. k ∷ ks) (keys-close_tasks now d)

id-close_task : (now : ℕ) (row : TaskRow) → (close_task now row).task_id ≡ row.task_id
unfolding close_task
id-close_task now row = ground arith

close_tasks-IsKeyed : (now : ℕ) (d : Dict String TaskRow) → IsKeyed d → IsKeyed (close_tasks now d)
close_tasks-IsKeyed now d x = record {
  distinct = rw (keys-close_tasks now d) x.distinct;
  own = λ k row h. own_row k row (get k d) refl (sym (get-close_tasks now k d) ∙ h);
}
  where
    own_row :
        (k : String) (row : TaskRow) (found : Option TaskRow)
        → get k d ≡ found
        → map_row (close_task now) found ≡ some row
        → row.task_id ≡ k
    own_row k row none e h = absurd (ground (arith, h))
    own_row k row (some old) e h =
        let same : close_task now old ≡ row = ground (arith, h) in
        sym (ap id_of same) ∙ id-close_task now old ∙ x.own k old e

finished_absent :
    (k : String) (d : Dict String TaskRow)
    → IsKeyed d
    → elem k (keys d) ≡ false
    → elem k (map id_of (finished_rows d)) ≡ false
unfolding keys values select get
finished_absent k [] x h = refl
finished_absent k ((j, row) ∷ d) x h =
    let own_id : row.task_id ≡ j = x.own j row (rw (==_refl j) refl) in
    let rest = finished_absent k d (tail-IsKeyed j row d x) (ground (arith, h)) in
    ground (arith, rest, own_id, h)

-- A row is among the finished rows when its status is finished.
elem-finished :
    (k : String) (row : TaskRow) (d : Dict String TaskRow)
    → IsKeyed d
    → get k d ≡ some row
    → elem k (map id_of (finished_rows d)) ≡ is_terminal row.status
unfolding keys values select get
elem-finished k row [] x h = absurd (ground (arith, h))
elem-finished k row ((j, first) ∷ d) x h =
    let own_id : first.task_id ≡ j = x.own j first (rw (==_refl j) refl) in
    let others = tail-IsKeyed j first d x in
    elim (Bool-cases (j == k)) [
      | inl here ↦
          let same : first ≡ row = ground (arith, h, here) in
          let none_left =
            finished_absent k d others
              (subst (λ i. elem i (keys d) ≡ false) ((==_iff j k).0 here) x.distinct.0) in
          ground (arith, same, none_left, own_id, here)
      | inr other ↦
          let rest = elem-finished k row d others (rw other at h) in
          ground (arith, rest, own_id, other)
    ]

All-finished :
    (P : TaskRow → Type 0) (k : String) (row : TaskRow) (d : Dict String TaskRow)
    → All P (finished_rows d)
    → get k d ≡ some row
    → is_terminal row.status ≡ true
    → P row
unfolding values select get
All-finished P k row [] a h t = absurd (ground (arith, h))
All-finished P k row ((j, first) ∷ d) a h t = elim (Bool-cases (j == k)) [
  | inl here ↦
      let same : first ≡ row = ground (arith, h, here) in
      let done : is_terminal first.status ≡ true = ground (arith, same, t) in
      subst P same ((rw done at a).0)
  | inr other ↦ elim (Bool-cases (is_terminal first.status)) [
    | inl done ↦ All-finished P k row d ((rw done at a).1) (rw other at h) t
    | inr going ↦ All-finished P k row d (rw going at a) (rw other at h) t
  ]
]

-- What a row of a task has become: it is gone, or it is there, closed when it was interrupted.
pub record TaskAfter (limit now : ℕ) (db : Tables) (k : String) (row : TaskRow) : Type 0 where
  pub found : get k (restart limit true now db).tasks ≡ (
      if elem k (stale_keys limit (recover_interrupted_storage now db).tasks)
      then none
      else some (close_task now row))
  pub not_open : is_interrupted (close_task now row) ≡ false
  pub closed :
      ((is_interrupted row ≡ true) × ((close_task now row).status ≡ failed))
      ⊎ ((is_interrupted row ≡ false) × (close_task now row ≡ row))
  pub stale_is_finished :
      (elem k (stale_keys limit (recover_interrupted_storage now db).tasks) ≡ false)
      ⊎ (is_terminal (close_task now row).status ≡ true)
  pub newest_stay :
      (is_terminal (close_task now row).status ≡ false)
      ⊎ IsKept (stale_rows limit (recover_interrupted_storage now db).tasks) (close_task now row)
  pub stale_count :
      length (stale_rows limit (recover_interrupted_storage now db).tasks)
      ≡ length (finished_rows (recover_interrupted_storage now db).tasks) - limit

-- After the start of a store that recovers, with a limit on finished tasks, on tables whose rows stand
-- under their own ids, with no key twice: a task row that was interrupted is failed, every other row is
-- as it was, and none is unfinished but those of the channel library. A row is gone only when it is then
-- finished; of the finished rows, as many are gone as pass the limit, and a finished row is gone or was
-- updated no earlier than each of those that are.
pub restart-tasks :
    (limit now : ℕ) (db : Tables) (k : String) (row : TaskRow)
    → IsKeyed db.tasks
    → get k db.tasks ≡ some row
    → TaskAfter limit now db k row
unfolding restart prune_completed_storage recovered_tables recover_interrupted_storage stale_rows
restart-tasks limit now db k row x h =
    let tasks = close_tasks now db.tasks in
    let closed_row : get k tasks ≡ some (close_task now row) =
      get-close_tasks now k db.tasks ∙ ap (map_row (close_task now)) h in
    let keyed = close_tasks-IsKeyed now db.tasks x in
    let (no_open, same, fails) = close_task_over now row in
    let finished_when_stale = λ (stale : elem k (stale_keys limit tasks) ≡ true).
      sym (elem-finished k (close_task now row) tasks keyed closed_row)
      ∙ sym (elem-newest_first k (finished_rows tasks))
      ∙ elem-drop k limit (newest_first (finished_rows tasks)) stale in
    record {
      found =
          get-delete_task_storage k (stale_keys limit tasks) (recover_interrupted_storage now db)
          ∙ ap (λ found. if elem k (stale_keys limit tasks) then none else found) closed_row;
      not_open = no_open;
      closed = elim (Bool-cases (is_interrupted row)) [
        | inl e ↦ inl (e, fails e)
        | inr e ↦ inr (e, same e)
      ];
      stale_is_finished = elim (Bool-cases (elem k (stale_keys limit tasks))) [
        | inl stale ↦ inr (finished_when_stale stale)
        | inr stays ↦ inl stays
      ];
      newest_stay = elim (Bool-cases (is_terminal (close_task now row).status)) [
        | inl finished ↦ inr (
            All-finished (IsKept (stale_rows limit tasks)) k (close_task now row) tasks
              (stale_rows-IsKept limit tasks) closed_row finished)
        | inr going ↦ inl going
      ];
      stale_count = length-stale_rows limit tasks;
    }

-- What a row of a file has become.
pub record FileAfter (limit now : ℕ) (db : Tables) (t m : String) (f : FileSnapshot) : Type 0 where
  pub found : get (t, m) (restart limit true now db).task_files ≡ (
      if elem t (stale_keys limit (recover_interrupted_storage now db).tasks)
      then none
      else some (close_file now (task_interrupted db.tasks t) f))
  pub not_open :
      (task_interrupted db.tasks t ≡ false)
      ⊎ (is_open_file (close_file now (task_interrupted db.tasks t) f).status ≡ false)
  pub same :
      ((task_interrupted db.tasks t ≡ true) × (is_open_file f.status ≡ true))
      ⊎ (close_file now (task_interrupted db.tasks t) f ≡ f)

-- After the start of a store that recovers: the row of a file is gone exactly with the finished task that
-- the limit takes out; else no file of an interrupted task is queued, downloading or uploading, and the
-- settled files of such a task, and all files of the other tasks, are as they were.
pub restart-files :
    (limit now : ℕ) (db : Tables) (t m : String) (f : FileSnapshot)
    → get (t, m) db.task_files ≡ some f
    → FileAfter limit now db t m f
unfolding restart prune_completed_storage recovered_tables recover_interrupted_storage
restart-files limit now db t m f h =
    let (no_open, other, settled) = close_file_over now (task_interrupted db.tasks t) f in
    let ids = stale_keys limit (recover_interrupted_storage now db).tasks in
    record {
      found =
          files-delete_task_storage t m ids (recover_interrupted_storage now db)
          ∙ ap (λ found. if elem t ids then none else found)
              (get-close_files now db.tasks t m db.task_files
                ∙ ap (map_row (close_file now (task_interrupted db.tasks t))) h);
      not_open = elim (Bool-cases (task_interrupted db.tasks t)) [
        | inl e ↦ inr (no_open e)
        | inr e ↦ inl e
      ];
      same = elim (Bool-cases (task_interrupted db.tasks t)) [
        | inr e ↦ inr (other e)
        | inl e ↦ elim (Bool-cases (is_open_file f.status)) [
          | inl o ↦ inl (e, o)
          | inr o ↦ inr (settled o)
        ]
      ];
    }
