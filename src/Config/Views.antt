-- ===== src/Config/Views.antt =====
-- The contents that a disk stands for: those of the targets, or those of the generation in its journal.
use telegram_media_downloade.Prelude.{
  ◌≡◌, ◌∙◌, ◌≢◌, refl, sym, true, Option, none, some, String, [], ◌∷◌, ◌==◌, string_key, arith,
}
use telegram_media_downloade.Dict.{get}
use telegram_media_downloade.Dict.Laws.{get-pop_self, get-pop_ne}
use telegram_media_downloade.Config.Names.{is_stage}
use telegram_media_downloade.Config.{
  Paths, resolved, Target, Entry, entries, Disk, content, replace,
}

pub record Contents : Type 0 where
  pub first : Option String
  pub second : Option String

pub record Generation : Type 0 where
  pub first : Entry
  pub second : Entry
  pub first_text : String
  pub second_text : String

abbrev pub texts : Generation → Contents
texts g = record { first = some g.first_text; second = some g.second_text }

abbrev pub on_disk : Disk → Contents
on_disk d = record { first = d.first; second = d.second }

-- The text of an entry is in its staged file or, when that was moved, in its target.
pub data Has (e : Entry) (text : String) (d : Disk) : Type 0 where
  in_stage : get e.staged d.staged ≡ some text → Has e text d
  in_target : get e.staged d.staged ≡ none → content e.target d ≡ some text → Has e text d

-- Moving a staged file into its target.
abbrev pub moved : Entry → String → Disk → Disk
moved e text d = replace e.staged text e.target d

pub content-set :
    (t : Target) (name text : String) (d : Disk) → content t (replace name text t d) ≡ some text
content-set Target.first name text d = refl
content-set Target.second name text d = refl

get-moved :
    (e : Entry) (name text : String) (d : Disk)
    → e.staged ≢ name
    → get name (moved e text d).staged ≡ get name d.staged
get-moved e name text d h =
    elim e.target as (λ t. get name (replace e.staged text t d).staged ≡ get name d.staged) [
      | Target.first ↦ get-pop_ne e.staged name d.staged h
      | Target.second ↦ get-pop_ne e.staged name d.staged h
    ]

pub content-moved :
    (s t : Target) (name text : String) (d : Disk)
    → s ≢ t
    → content t (replace name text s d) ≡ content t d
content-moved Target.first Target.first name text d h = elim (h refl) [ ]
content-moved Target.first Target.second name text d h = refl
content-moved Target.second Target.first name text d h = refl
content-moved Target.second Target.second name text d h = elim (h refl) [ ]

-- Moving one entry leaves the other.
pub Has-moved_ne :
    (e f : Entry) (text other : String) (d : Disk)
    → e.staged ≢ f.staged
    → e.target ≢ f.target
    → Has f other d
    → Has f other (moved e text d)
Has-moved_ne e f text other d h k (in_stage p) = in_stage (get-moved e f.staged text d h ∙ p)
Has-moved_ne e f text other d h k (in_target p q) =
    in_target (get-moved e f.staged text d h ∙ p)
      (content-moved e.target f.target e.staged text d k ∙ q)

-- The entry's file is moved.
pub record IsDone (e : Entry) (text : String) (d : Disk) : Type 0 where
  pub stage : get e.staged d.staged ≡ none
  pub target : content e.target d ≡ some text

pub IsDone-moved : (e : Entry) (text : String) (d : Disk) → IsDone e text (moved e text d)
IsDone-moved e text d = record {
  stage = elim e.target as (λ t. get e.staged (replace e.staged text t d).staged ≡ none) [
    | Target.first ↦ get-pop_self e.staged d.staged
    | Target.second ↦ get-pop_self e.staged d.staged
  ];
  target = content-set e.target e.staged text d;
}

pub Has-moved : (e : Entry) (text : String) (d : Disk) → Has e text (moved e text d)
Has-moved e text d = let i = IsDone-moved e text d in in_target i.stage i.target

pub IsDone-moved_ne :
    (e f : Entry) (text other : String) (d : Disk)
    → e.staged ≢ f.staged
    → e.target ≢ f.target
    → IsDone f other d
    → IsDone f other (moved e text d)
IsDone-moved_ne e f text other d h k i = record {
  stage = get-moved e f.staged text d h ∙ i.stage;
  target = content-moved e.target f.target e.staged text d k ∙ i.target;
}

pub journal-moved : (e : Entry) (text : String) (d : Disk) → (moved e text d).journal ≡ d.journal
journal-moved e text d = elim e.target as (λ t. (replace e.staged text t d).journal ≡ d.journal) [
  | Target.first ↦ refl
  | Target.second ↦ refl
]

pub record IsSettled (c : Contents) (d : Disk) : Type 0 where
  pub journal : d.journal ≡ none
  pub targets : on_disk d ≡ c

module _ (hash : String → String) (paths : Paths) where
  -- What the entries of a journal say, and where their texts are.
  pub record IsGeneration (g : Generation) : Type 0 where
    pub first_target : g.first.target ≡ Target.first
    pub second_target : g.second.target ≡ Target.second
    pub first_stage : is_stage paths.pathlib (resolved paths g.first.target) g.first.staged ≡ true
    pub second_stage :
        is_stage paths.pathlib (resolved paths g.second.target) g.second.staged ≡ true
    pub first_hash : (hash g.first_text == g.first.sha256) ≡ true
    pub second_hash : (hash g.second_text == g.second.sha256) ≡ true
    pub distinct : g.first.staged ≢ g.second.staged

  pub record IsPending (g : Generation) (d : Disk) : Type 0 where
    pub generation : IsGeneration g
    pub journal : d.journal ≡ some (entries (g.first ∷ g.second ∷ []))
    pub first : Has g.first g.first_text d
    pub second : Has g.second g.second_text d

  -- The disk stands for contents: without a journal for those of the targets, with one for those of the
  -- generation that it describes.
  pub data Shows (c : Contents) (d : Disk) : Type 0 where
    settled : IsSettled c d → Shows c d
    pending : (g : Generation) → IsPending g d → texts g ≡ c → Shows c d

  pub targets_differ : (g : Generation) → IsGeneration g → g.first.target ≢ g.second.target
  targets_differ g h e = ground (arith, e, h.first_target, h.second_target)

  pub IsPending-moved_first :
      (g : Generation) (d : Disk) → IsPending g d → IsPending g (moved g.first g.first_text d)
  IsPending-moved_first g d h = record {
    generation = h.generation;
    journal = journal-moved g.first g.first_text d ∙ h.journal;
    first = Has-moved g.first g.first_text d;
    second =
        Has-moved_ne g.first g.second g.first_text g.second_text d h.generation.distinct
          (targets_differ g h.generation) h.second;
  }

  pub IsPending-moved_second :
      (g : Generation) (d : Disk) → IsPending g d → IsPending g (moved g.second g.second_text d)
  IsPending-moved_second g d h = record {
    generation = h.generation;
    journal = journal-moved g.second g.second_text d ∙ h.journal;
    first =
        Has-moved_ne g.second g.first g.second_text g.first_text d
          (λ e. h.generation.distinct (sym e)) (λ e. targets_differ g h.generation (sym e)) h.first;
    second = Has-moved g.second g.second_text d;
  }
