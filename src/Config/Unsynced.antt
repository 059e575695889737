-- ===== src/Config/Unsynced.antt =====
-- A write of a pair whose journal is in its place when the chmod or the sync of the directory raises.
use telegram_media_downloade.Prelude.{
  ◌≡◌, ◌∙◌, refl, true, false, Option, none, some, String, string_key, [], ◌∷◌, arith, ap,
}
use telegram_media_downloade.Dict.{Dict, get, pop}
use telegram_media_downloade.Dict.Laws.{get-pop, get-pop_self}
use telegram_media_downloade.Config.Names.{is_stage, IsDrawn, IsDrawn-is_stage}
use telegram_media_downloade.Config.{
  Paths, resolved, Target, Disk, entry, entries, World, io_error, inconsistent, raises, follow,
  rescue, perform, remove_stages, sync_journal, write_pair_journal, journal_pair, has_hash,
  serialize_stage, stage_pair, replace_pair_entry, recover_entry, recover_yaml_pair,
  atomic_write_yaml_pair,
}

-- A disk without a journal, where the sync after a journal's os.replace raises, and nothing else does.
abbrev pub unsynced : Option String → Option String → Dict String String → World
unsynced first second staged = record {
  disk = record { first = first; second = second; staged = staged; journal = none };
  fates = [];
  syncs = false;
}

module _ (hash : String → String) (paths : Paths) where
  recover_yaml_pair-lost :
      (a b sha_a sha_b : String) (w : World)
      → is_stage paths.pathlib (resolved paths Target.first) a ≡ true
      → w.disk.journal
        ≡ some (entries (entry Target.first a sha_a ∷ entry Target.second b sha_b ∷ []))
      → get a w.disk.staged ≡ none
      → has_hash hash sha_a w.disk.first ≡ false
      → recover_yaml_pair hash paths w ≡ (raises inconsistent, w)
  unfolding recover_yaml_pair recover_entry replace_pair_entry follow
  recover_yaml_pair-lost a b sha_a sha_b w p j g h = ground arith

  get-pops : (a b : String) (d : Dict String String) → get a (pop b (pop a d)) ≡ none
  get-pops a b d = ground (arith, get-pop b a (pop a d), get-pop_self a d)

  -- A write on a disk without a journal, where nothing raises but the sync of the directory once the
  -- journal is in its place, raises that error; and on the disk that it leaves, where the first stage was a
  -- file that mkstemp made, and the first target had not the digest of its new text, a recovery,
  -- whatever is to happen to its effects, raises the error of an inconsistent state and changes nothing.
  pub unsynced-IsStuck :
      (first second : Option String) (staged : Dict String String) (a text_a b text_b : String)
      (w : World)
      → IsDrawn paths.pathlib paths.first a
      → has_hash hash (hash text_a) first ≡ false
      → w.disk
        ≡ (atomic_write_yaml_pair hash paths a text_a b text_b
            (unsynced first second staged)).1.disk
      → ((atomic_write_yaml_pair hash paths a text_a b text_b (unsynced first second staged)).0
          ≡ raises io_error)
        × (recover_yaml_pair hash paths w ≡ (raises inconsistent, w))
  unfolding atomic_write_yaml_pair recover_yaml_pair recover_entry replace_pair_entry stage_pair
      journal_pair serialize_stage write_pair_journal sync_journal remove_stages follow rescue
      perform
  unsynced-IsStuck first second staged a text_a b text_b w p q e = (
    refl,
    recover_yaml_pair-lost a b (hash text_a) (hash text_b) w
        (IsDrawn-is_stage paths.pathlib paths.first a p) (ap (λ (d : Disk). d.journal) e)
        (ap (λ (d : Disk). get a d.staged) e ∙ get-pops a b _)
        (ap (λ (d : Disk). has_hash hash (hash text_a) d.first) e ∙ q),
  )
