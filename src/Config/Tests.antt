-- ===== src/Config/Tests.antt =====
-- Runs of the paired writes at concrete disks.
use telegram_media_downloade.Prelude.{
  ◌≡◌, ◌≢◌, refl, none, some, String, string_key, List, [], ◌∷◌, ◌⊎◌, arith, ==_iff,
}
use telegram_media_downloade.Dict.{get, put, pop}
use telegram_media_downloade.Config.Names.{is_stage, IsDrawn}
use telegram_media_downloade.Config.{
  Paths, Target, entry, entries, Disk, Fate, works, fails, dies, World, io_error, writer_error,
  inconsistent, raises, follow, rescue, recover_yaml_pair, atomic_write_yaml_pair,
}
use telegram_media_downloade.Config.Rules.{Ensures}
use telegram_media_downloade.Config.Views.{
  Contents, on_disk, in_stage, in_target, IsGeneration, IsPending, IsSettled, Shows, settled,
  pending,
}
use telegram_media_downloade.Config.Recovery.{Unfinished, recover_yaml_pair-Shows}
use telegram_media_downloade.Config.Writes.{
  named-IsGeneration, generation, IsOldOrNew, atomic_write_yaml_pair-IsOldOrNew,
}
use telegram_media_downloade.Config.Histories.{
  Attempt, writes, recovers, on, run, IsWritten, IsRecovered, run-IsRecovered,
}
use telegram_media_downloade.Config.Unsynced.{unsynced, unsynced-IsStuck}

abbrev digest : String → String
digest text = text

abbrev paths : Paths
paths = record {
  pathlib = record { parent = λ _. "/app"; name = λ path. path };
  first = "config.yaml";
  second = "data.yaml";
}

abbrev old_disk : Disk
old_disk = record { first = some "c1"; second = some "d1"; staged = []; journal = none }

-- The process dies between the two moves.
abbrev halfway : List Fate
halfway =
    works ∷ works ∷ works ∷ works ∷ works ∷ works ∷ works ∷ works ∷ works ∷ works ∷ works ∷ dies
    ∷ []

abbrev halfway_disk : Disk
halfway_disk = record {
  first = some "c2";
  second = some "d1";
  staged = (".data.yaml.y.stage", "d2") ∷ [];
  journal = some (
      entries (
        entry Target.first ".config.yaml.x.stage" "c2"
        ∷ entry Target.second ".data.yaml.y.stage" "d2"
        ∷ []));
}

halfway_run :
    (atomic_write_yaml_pair digest paths ".config.yaml.x.stage" "c2" ".data.yaml.y.stage" "d2"
      (on old_disk halfway)).1.disk
    ≡ halfway_disk
unfolding atomic_write_yaml_pair follow rescue get put pop
halfway_run = refl

halfway_recovery :
    on_disk (recover_yaml_pair digest paths (on halfway_disk [])).1.disk
    ≡ record { first = some "c2"; second = some "d2" }
unfolding recover_yaml_pair follow get pop is_stage
halfway_recovery = refl

stages_differ : ◌≢◌ {A = String} ".config.yaml.x.stage" ".data.yaml.y.stage"
stages_differ e = ground (arith, ==_iff {K = String} ".config.yaml.x.stage" ".data.yaml.y.stage")

first-IsDrawn : IsDrawn paths.pathlib paths.first ".config.yaml.x.stage"
first-IsDrawn = record { draw = "x"; beside = refl; made = refl }

second-IsDrawn : IsDrawn paths.pathlib paths.second ".data.yaml.y.stage"
second-IsDrawn = record { draw = "y"; beside = refl; made = refl }

new_generation :
    IsGeneration digest paths
      (generation digest ".config.yaml.x.stage" "c2" ".data.yaml.y.stage" "d2")
new_generation =
    named-IsGeneration digest paths ".config.yaml.x.stage" "c2" ".data.yaml.y.stage" "d2"
      first-IsDrawn second-IsDrawn stages_differ

halfway-IsPending :
    IsPending digest paths
      (generation digest ".config.yaml.x.stage" "c2" ".data.yaml.y.stage" "d2")
      halfway_disk
unfolding get
halfway-IsPending = record {
  generation = new_generation;
  journal = refl;
  first = in_target refl refl;
  second = in_stage refl;
}

abbrev new_contents : Contents
new_contents = record { first = some "c2"; second = some "d2" }

abbrev failing : List Fate
failing = works ∷ fails ∷ []

recover_yaml_pair-Shows_example :
    Ensures
      (failing ≡ [])
      (λ _ d. IsSettled new_contents d)
      (Unfinished digest paths new_contents)
      (Shows digest paths new_contents)
      (recover_yaml_pair digest paths (on halfway_disk failing))
recover_yaml_pair-Shows_example =
    recover_yaml_pair-Shows digest paths new_contents (on halfway_disk failing)
      (record { calm = λ e. e; syncs = refl })
      (pending (generation digest ".config.yaml.x.stage" "c2" ".data.yaml.y.stage" "d2")
        halfway-IsPending refl)

abbrev old_contents : Contents
old_contents = record { first = some "c1"; second = some "d1" }

atomic_write_yaml_pair-IsOldOrNew_example :
    Ensures
      (halfway ≡ [])
      (λ _ d. IsSettled new_contents d)
      (λ e d.
        ((e ≡ writer_error) × IsSettled old_contents d)
        ⊎ ((e ≡ io_error)
            × IsOldOrNew digest paths old_contents ".config.yaml.x.stage" "c2" ".data.yaml.y.stage"
                "d2" d))
      (IsOldOrNew digest paths old_contents ".config.yaml.x.stage" "c2" ".data.yaml.y.stage" "d2")
      (atomic_write_yaml_pair digest paths ".config.yaml.x.stage" "c2" ".data.yaml.y.stage" "d2"
        (on old_disk halfway))
atomic_write_yaml_pair-IsOldOrNew_example =
    atomic_write_yaml_pair-IsOldOrNew digest paths old_contents ".config.yaml.x.stage" "c2"
      ".data.yaml.y.stage" "d2" (on old_disk halfway) (record { calm = λ e. e; syncs = refl })
      first-IsDrawn second-IsDrawn stages_differ
      (settled (record { journal = refl; targets = refl }))

abbrev attempts : List Attempt
attempts =
    writes ".config.yaml.x.stage" "c2" ".data.yaml.y.stage" "d2" halfway
    ∷ recovers failing
    ∷ writes ".config.yaml.x.stage" "c3" ".data.yaml.y.stage" "d3" (fails ∷ [])
    ∷ []

run-IsRecovered_example :
    (k : Contents) × ((k ≡ old_contents) ⊎ IsWritten k attempts)
    × IsRecovered digest paths k
        (recover_yaml_pair digest paths (on (run digest paths attempts old_disk) []))
run-IsRecovered_example =
    run-IsRecovered digest paths attempts old_disk
      (
        (first-IsDrawn, second-IsDrawn, stages_differ),
        (tt, ((first-IsDrawn, second-IsDrawn, stages_differ), tt)),
      )
      refl

abbrev stuck_world : World
stuck_world =
    on
      (atomic_write_yaml_pair digest paths ".config.yaml.x.stage" "c2" ".data.yaml.y.stage" "d2"
        (unsynced (some "c1") none [])).1.disk
      []

unsynced-IsStuck_example :
    ((atomic_write_yaml_pair digest paths ".config.yaml.x.stage" "c2" ".data.yaml.y.stage" "d2"
        (unsynced (some "c1") none [])).0
      ≡ raises io_error)
    × (recover_yaml_pair digest paths stuck_world ≡ (raises inconsistent, stuck_world))
unsynced-IsStuck_example =
    unsynced-IsStuck digest paths (some "c1") none [] ".config.yaml.x.stage" "c2"
      ".data.yaml.y.stage" "d2" stuck_world first-IsDrawn refl refl
