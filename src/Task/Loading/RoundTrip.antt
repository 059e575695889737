-- ===== src/Task/Loading/RoundTrip.antt =====
-- What a restart reads back of the tasks that were written.
use telegram_media_downloade.Prelude.{
  ℕ, false, Option, none, some, String, [], ◌∷◌, if◌then◌else◌, ◌==◌, string_key, pair_key, ◌≡◌,
  ◌≢◌, refl, ap, ◌∙◌, arith, elem, Distinct, Bool-cases, inl, inr, ==_iff, ==_refl, subst,
}
use telegram_media_downloade.Dict.{Dict, get, keys}
use telegram_media_downloade.Dict.Laws.{get-put}
use telegram_media_downloade.Task.Snapshot.{FileSnapshot, TaskSnapshot}
use telegram_media_downloade.Task.Tables.{TaskRow, Tables}
use telegram_media_downloade.Task.Store.{TaskStateStore, find}
use telegram_media_downloade.Task.Loading.{
  time_or, is_blank, load_files, load_task, place_loaded, load_rows, load_storage,
}

-- The fields that a row keeps: those that `or` leaves alone.
pub record IsStorable (t : TaskSnapshot) : Type 0 where
  pub source : (t.source == "") ≡ false
  pub task_type : (t.task_type == "") ≡ false
  pub status : is_blank t.status ≡ false
  pub created_at : t.created_at ≢ 0
  pub updated_at : t.updated_at ≢ 0

-- When the row of a task was first written.
abbrev pub first_created : ℕ → TaskSnapshot → Option TaskRow → ℕ
first_created now t none = t.created_at
first_created now t (some old) = time_or old.created_at now

-- Every row stands under its own id, and no key stands twice: the primary key.
pub record IsKeyed (rows : Dict String TaskRow) : Type 0 where
  pub distinct : Distinct (keys rows)
  pub own : (k : String) (row : TaskRow) → get k rows ≡ some row → row.task_id ≡ k

-- The task that a key has after the rows are read.
abbrev pub loaded : ℕ → Dict (String × String) FileSnapshot → TaskRow → TaskSnapshot
loaded now files row = load_task now (load_files now row.task_id files []) row

pub get-absent :
    (k : String) (rows : Dict String TaskRow) → elem k (keys rows) ≡ false → get k rows ≡ none
unfolding keys get
get-absent k [] h = refl
get-absent k ((j, row) ∷ rows) h = ground (arith, get-absent k rows)

find-place_loaded :
    (k : String) (t : TaskSnapshot) (s : TaskStateStore)
    → (t.task_id ≡ k → get k s.active ≡ none)
    → find k (place_loaded t s) ≡ (if t.task_id == k then some t else find k s)
unfolding find place_loaded
find-place_loaded k t s h = ground (
  arith,
  get-put t.task_id k t s.active,
  get-put t.task_id k t s.completed,
  ==_iff t.task_id k,
  h,
)

get-place_loaded_other :
    (k : String) (t : TaskSnapshot) (s : TaskStateStore)
    → (t.task_id == k) ≡ false
    → get k (place_loaded t s).active ≡ get k s.active
unfolding place_loaded
get-place_loaded_other k t s h = ground (arith, get-put t.task_id k t s.active)

abbrev pub read_back :
    ℕ
    → Dict (String × String) FileSnapshot
    → Option TaskRow
    → Option TaskSnapshot
    → Option TaskSnapshot
read_back now files none before = before
read_back now files (some row) before = some (loaded now files row)

pub tail-IsKeyed :
    (j : String) (row : TaskRow) (rows : Dict String TaskRow)
    → IsKeyed ((j, row) ∷ rows)
    → IsKeyed rows
unfolding keys get
tail-IsKeyed j row rows x = record {
  distinct = x.distinct.1;
  own = λ k r h. ground (arith, x.own k r, get-absent k rows, x.distinct.0, ==_iff j k);
}

module _ (now : ℕ) (files : Dict (String × String) FileSnapshot) (k : String) where
  find-load_rows :
      (rows : Dict String TaskRow) (s : TaskStateStore)
      → IsKeyed rows
      → ((row : TaskRow) → get k rows ≡ some row → get k s.active ≡ none)
      → find k (load_rows now files rows s) ≡ read_back now files (get k rows) (find k s)
  unfolding load_rows get keys load_task
  find-load_rows [] s x free = refl
  find-load_rows ((j, row) ∷ rows) s x free =
      let first : TaskSnapshot = loaded now files row in
      let own_id : row.task_id ≡ j = x.own j row (rw (==_refl j) refl) in
      elim (Bool-cases (j == k)) [
        | inl here ↦
            let gone : get k rows ≡ none =
              get-absent k rows
                (subst (λ i. elem i (keys rows) ≡ false) ((==_iff j k).0 here) x.distinct.0) in
            let rest =
              find-load_rows rows (place_loaded first s) (tail-IsKeyed j row rows x)
                (λ r h. absurd (ground (arith, h, gone))) in
            rw here (
              ground (
                arith,
                rest,
                gone,
                free row (rw here refl),
                own_id,
                ==_iff row.task_id k,
                ==_iff j k,
                find-place_loaded k first s,
              ))
        | inr other_key ↦
            let elsewhere : (row.task_id == k) ≡ false = rw own_id other_key in
            let rest =
              find-load_rows rows (place_loaded first s) (tail-IsKeyed j row rows x)
                (λ r h. get-place_loaded_other k first s elsewhere ∙ free r (rw other_key h)) in
            rw other_key (
              rest
              ∙ ap (read_back now files (get k rows)) (
                  find-place_loaded k first s
                    (λ e. absurd (ground (arith, e, elsewhere, ==_iff row.task_id k)))
                  ∙ rw elsewhere refl))
      ]

-- A restart finds again just the tasks that have a row: where the keys are distinct and each row
-- stands under its own id, reading the tables into an empty store, a key finds a task exactly if
-- the table has its row, and finds it as the row and its file rows tell it, whatever its status.
pub find-load_storage :
    (now : ℕ) (db : Tables) (s : TaskStateStore) (k : String)
    → s.active ≡ []
    → s.completed ≡ []
    → IsKeyed db.tasks
    → find k (load_storage now db s) ≡ read_back now db.task_files (get k db.tasks) none
unfolding load_storage find get
find-load_storage now db s k no_active no_completed x =
    find-load_rows now db.task_files k db.tasks s x (λ row h. rw no_active refl)
    ∙ ap (read_back now db.task_files (get k db.tasks)) (rw (no_active, no_completed) refl)
