-- ===== src/Config.antt =====
-- module/config_persistence.py: `atomic_write_yaml`, which writes one file, and `atomic_write_yaml_pair`
-- and `recover_yaml_pair`, which write two files as one generation.
-- A run performs effects on the disk, each of which works, fails with an exception before it changes
-- anything, or is where the process dies; what a run has done before is on the disk. Parameters: the digest
-- of a text, and what pathlib says of a path. The names that mkstemp draws are arguments. What only reads, or
-- makes a directory, is no effect of its own: its failure is that of the next effect.
pub mod Names
pub mod Rules
pub mod Views
pub mod Recovery
pub mod Staging
pub mod Writes
pub mod Histories
pub mod Unsynced
pub mod Single
mod Tests
use telegram_media_downloade.Prelude.{
  Bool, true, false, not, ◌&&◌, Option, none, some, String, List, [], ◌∷◌, ◌==◌, string_key,
  if◌then◌else◌, is_some,
}
use telegram_media_downloade.Dict.{Dict, get, put, pop}
use telegram_media_downloade.Config.Names.{Pathlib, is_stage}

pub data Target : Type 0 where
  first second : Target

-- The resolved paths of the two targets, and pathlib.
pub record Paths : Type 0 where
  pub pathlib : Pathlib
  pub first : String
  pub second : String

abbrev pub resolved : Paths → Target → String
resolved p Target.first = p.first
resolved p Target.second = p.second

pub record Entry : Type 0 where
  pub target : Target
  pub staged : String
  pub sha256 : String

abbrev pub entry : Target → String → String → Entry
entry target staged sha256 = record { target = target; staged = staged; sha256 = sha256 }

-- A journal whose text is not JSON, or not of version 1 with a list of entries, is unreadable.
pub data Journal : Type 0 where
  unreadable : Journal
  entries : List Entry → Journal

pub record Disk : Type 0 where
  pub first : Option String
  pub second : Option String
  pub staged : Dict String String
  pub journal : Option Journal

pub data Fate : Type 0 where
  works fails dies : Fate

-- The disk; the fates of the effects to come, where effects work when there are none left; and whether the
-- chmod and the sync of the directory that follow the journal's os.replace raise nothing.
pub record World : Type 0 where
  pub disk : Disk
  pub fates : List Fate
  pub syncs : Bool

-- An exception of the file system, one of `yaml_writer`, of whatever type, and the `RuntimeError`s.
pub data PairError : Type 0 where
  io_error writer_error invalid_journal targets_mismatch hash_mismatch inconsistent : PairError

pub data Outcome {ℓ} (A : Type ℓ) : Type ℓ where
  returns : A → Outcome A
  raises : PairError → Outcome A
  died : Outcome A

abbrev pub Run {ℓ} : Type ℓ → Type ℓ
Run A = World → Outcome A × World

unfoldable pub follow {ℓ κ} :
    {A : Type ℓ} {B : Type κ} → Outcome A × World → (A → Run B) → Outcome B × World
follow (returns a, w) next = next a w
follow (raises e, w) next = (raises e, w)
follow (died, w) next = (died, w)

-- `except Exception`: a process that died does not get there.
unfoldable pub rescue {ℓ} :
    {A : Type ℓ} → Outcome A × World → (PairError → Run A) → Outcome A × World
rescue (returns a, w) handler = (returns a, w)
rescue (raises e, w) handler = handler e w
rescue (died, w) handler = (died, w)

unfoldable pub perform : PairError → (Disk → Disk) → Run Bool
perform error change w = elim w.fates [
  | [] ↦ (returns true, record w { disk = change w.disk })
  | fate ∷ fates ↦ elim fate [
    | works ↦ (returns true, record w { disk = change w.disk; fates = fates })
    | fails ↦ (raises error, record w { fates = fates })
    | dies ↦ (died, record w { fates = fates })
  ]
]

-- An effect that leaves what is modelled of the disk: chmod, fsync, a temporary file.
abbrev pub unchanged : Disk → Disk
unchanged d = d

abbrev pub content : Target → Disk → Option String
content Target.first d = d.first
content Target.second d = d.second

abbrev pub set_content : Target → String → Disk → Disk
set_content Target.first text d = record d { first = some text }
set_content Target.second text d = record d { second = some text }

abbrev pub stage : String → String → Disk → Disk
stage name text d = record d { staged = put name text d.staged }

abbrev pub unstage : String → Disk → Disk
unstage name d = record d { staged = pop name d.staged }

-- `os.replace(staged, target)`
abbrev pub replace : String → String → Target → Disk → Disk
replace name text target d = set_content target text (unstage name d)

abbrev pub set_journal : Option Journal → Disk → Disk
set_journal journal d = record d { journal = journal }

abbrev pub is_first : Target → Bool
is_first Target.first = true
is_first Target.second = false

-- The two entries in the order of the targets.
abbrev pub two_entries : List Entry → Option (Entry × Entry)
two_entries (a ∷ b ∷ []) =
    if is_first a.target && not (is_first b.target) then some (a, b) else none
two_entries _ = none

-- `atomic_write_yaml`, with the name that mkstemp draws.
unfoldable pub atomic_write_yaml : String → Target → String → Run Bool
unfolding perform
atomic_write_yaml name target text w = follow (perform io_error (stage name "") w) (λ _ v.
    rescue
      (follow (perform writer_error (stage name text) v) (λ _ u.
        follow (perform io_error (replace name text target) u)
          (λ _ t. perform io_error unchanged t)))
      (λ e u. follow (perform io_error (unstage name) u) (λ _ t. (raises e, t))))

-- What follows the journal's os.replace in `_write_pair_journal`: the process may die there.
unfoldable pub sync_journal : Run Bool
unfolding perform
sync_journal w =
    if w.syncs
    then rescue (perform io_error unchanged w) (λ _ v. (returns true, v))
    else (raises io_error, w)

-- `_write_pair_journal`: a temporary file, os.replace, and the sync of the directory.
unfoldable pub write_pair_journal : Journal → Run Bool
unfolding perform sync_journal
write_pair_journal journal w =
    follow (perform io_error unchanged w)
      (λ _ v. follow (perform io_error (set_journal (some journal)) v) (λ _ u. sync_journal u))

-- `journal_path.unlink()` and the sync of the directory.
unfoldable pub unlink_journal : Run Bool
unfolding perform
unlink_journal w =
    follow (perform io_error (set_journal none) w) (λ _ v. perform io_error unchanged v)

-- `except Exception` while the journal is not committed: the staged files are removed.
unfoldable pub remove_stages : List String → PairError → Run Bool
unfolding perform
remove_stages [] e w = (raises e, w)
remove_stages (name ∷ names) e w =
    follow (perform io_error (unstage name) w) (λ _ v. remove_stages names e v)

-- The entries of the staged files are journaled; when that fails, the files are removed.
unfoldable pub journal_pair : String → String → String → String → Run (Entry × Entry)
unfolding write_pair_journal remove_stages
journal_pair a sha_a b sha_b w =
    let x = entry Target.first a sha_a in
    let y = entry Target.second b sha_b in
    follow
      (rescue (write_pair_journal (entries (x ∷ y ∷ [])) w) (λ e v. remove_stages (a ∷ b ∷ []) e v))
      (λ _ v. (returns (x, y), v))

module _ (hash : String → String) where
  -- `_serialize_yaml_stage`: the file is created, written and synced; when that fails, it is removed.
  unfoldable pub serialize_stage : String → String → Run String
  unfolding perform
  serialize_stage name text w = follow (perform io_error (stage name "") w) (λ _ v.
      rescue
        (follow (perform writer_error (stage name text) v)
          (λ _ u. follow (perform io_error unchanged u) (λ _ t. (returns (hash text), t))))
        (λ e u. follow (perform io_error (unstage name) u) (λ _ t. (raises e, t))))

  abbrev pub has_hash : String → Option String → Bool
  has_hash sha256 none = false
  has_hash sha256 (some text) = hash text == sha256

  -- `_replace_pair_entry`
  unfoldable pub replace_pair_entry : Entry → Run Bool
  unfolding perform
  replace_pair_entry e w = elim (get e.staged w.disk.staged) [
    | some text ↦
        if has_hash e.sha256 (some text)
        then follow (perform io_error (replace e.staged text e.target) w)
            (λ _ v. perform io_error unchanged v)
        else (raises hash_mismatch, w)
    | none ↦
        if has_hash e.sha256 (content e.target w.disk)
        then perform io_error unchanged w
        else (raises inconsistent, w)
  ]

  -- The files are staged and journaled; the handler removes those whose entry is in the list.
  unfoldable pub stage_pair : String → String → String → String → Run (Entry × Entry)
  unfolding serialize_stage remove_stages journal_pair
  stage_pair a text_a b text_b w = follow (serialize_stage a text_a w) (λ sha_a v.
      follow
        (rescue (serialize_stage b text_b v)
          (λ e u. follow (remove_stages (a ∷ []) e u) (λ _ t. (raises e, t))))
        (λ sha_b u. journal_pair a sha_a b sha_b u))

  -- The journaled entries are replaced, and the journal goes.
  unfoldable pub finish_pair : Entry → Entry → Run Bool
  unfolding replace_pair_entry unlink_journal
  finish_pair a b w =
      follow (replace_pair_entry a w)
        (λ _ v. follow (replace_pair_entry b v) (λ _ u. unlink_journal u))

module _ (hash : String → String) (paths : Paths) where
  unfoldable pub recover_entry : Entry → Run Bool
  unfolding replace_pair_entry
  recover_entry e w =
      if is_stage paths.pathlib (resolved paths e.target) e.staged
      then replace_pair_entry hash e w
      else (raises invalid_journal, w)

  unfoldable pub recover_yaml_pair : Run Bool
  unfolding recover_entry unlink_journal
  recover_yaml_pair w = elim w.disk.journal [
    | none ↦ (returns false, w)
    | some journal ↦ elim journal [
      | unreadable ↦ (raises invalid_journal, w)
      | entries list ↦ elim (two_entries list) [
        | none ↦ (raises targets_mismatch, w)
        | some (a, b) ↦
            follow (recover_entry a w) (λ _ v. follow (recover_entry b v) (λ _ u. unlink_journal u))
      ]
    ]
  ]

  unfoldable pub atomic_write_yaml_pair : String → String → String → String → Run Bool
  unfolding recover_yaml_pair stage_pair finish_pair
  atomic_write_yaml_pair a text_a b text_b w = follow (recover_yaml_pair w) (λ _ v.
      follow (stage_pair hash a text_a b text_b v) (λ pair u. finish_pair hash pair.0 pair.1 u))
