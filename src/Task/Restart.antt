-- ===== src/Task/Restart.antt =====
-- What the start of a `TaskStateStore` does to its tables before it reads them: `_recover_interrupted_storage`
-- when it is asked for, and `_prune_completed_storage`.
pub mod Laws
pub mod Order
pub mod Rows
use text.Mathlib.Text.{is_lt}
use Prim.Native.String.{compare}
use telegram_media_downloade.Prelude.{
  drop, ℕ, zero, suc, ◌-◌, ◌≡◌, refl, ap, sym, ◌∙◌, Bool, true, false, ◌&&◌, ◌||◌, Option, none,
  some, String, List, [], ◌∷◌, map, arith, if◌then◌else◌, ◌==◌, ==_iff, string_key, pair_key, ltb,
  nat_beq, elem, length, Bool-cases, inl, inr,
}
use telegram_media_downloade.Dict.{Dict, get, keys, values, pop}
use telegram_media_downloade.Dict.Laws.{get-pop}
use telegram_media_downloade.Rows.{select}
use telegram_media_downloade.Task.Status.{is_terminal}
use telegram_media_downloade.Task.Snapshot.{FileSnapshot}
use telegram_media_downloade.Task.Tables.{
  TaskRow, Tables, delete_files, delete_task, delete_task_storage,
}
use telegram_media_downloade.Task.Recovery.{recover_interrupted_storage}

-- `ORDER BY updated_at DESC, task_id DESC`
abbrev pub is_newer : TaskRow → TaskRow → Bool
is_newer a b =
    ltb b.updated_at a.updated_at
    || (nat_beq b.updated_at a.updated_at && is_lt (compare b.task_id a.task_id))

unfoldable pub insert_newest : TaskRow → List TaskRow → List TaskRow
insert_newest a [] = a ∷ []
insert_newest a (b ∷ bs) =
    let rest = insert_newest a bs in if is_newer a b then a ∷ b ∷ bs else b ∷ rest

unfoldable pub newest_first : List TaskRow → List TaskRow
unfolding insert_newest
newest_first [] = []
newest_first (a ∷ rows) = insert_newest a (newest_first rows)

abbrev pub id_of : TaskRow → String
id_of row = row.task_id

-- `SELECT task_id FROM tasks WHERE status IN (…)`
abbrev pub finished_rows : Dict String TaskRow → List TaskRow
finished_rows tasks = select (λ row. is_terminal row.status) (values tasks)

-- The finished rows beyond the limit.
unfoldable pub stale_rows : ℕ → Dict String TaskRow → List TaskRow
unfolding newest_first
stale_rows recent_limit tasks = drop recent_limit (newest_first (finished_rows tasks))

abbrev pub stale_keys : ℕ → Dict String TaskRow → List String
stale_keys recent_limit tasks = map id_of (stale_rows recent_limit tasks)

unfoldable pub prune_completed_storage : ℕ → Tables → Tables
unfolding stale_rows
prune_completed_storage recent_limit db = delete_task_storage (stale_keys recent_limit db.tasks) db

-- `if recover_interrupted`
unfoldable pub recovered_tables : Bool → ℕ → Tables → Tables
recovered_tables recover_interrupted now db =
    if recover_interrupted then recover_interrupted_storage now db else db

-- The tables that `__init__` reads.
unfoldable pub restart : ℕ → Bool → ℕ → Tables → Tables
unfolding prune_completed_storage recovered_tables
restart recent_limit recover_interrupted now db =
    prune_completed_storage recent_limit (recovered_tables recover_interrupted now db)
