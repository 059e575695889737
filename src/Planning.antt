-- ===== src/Planning.antt =====
-- module/comment_workflow.py: `plan_message_package` and `plan_message_package_sequence`, which split the media messages of a
-- chat into packages. A message comes with what `media_payload_for_message` and `_message_caption` say of it.
-- Parameters: the normal form of a caption, which regular expressions make, the length and containment of
-- texts, and the text f"message-{id}".
pub mod Order
pub mod Prefixes
pub mod Sequences
mod Tests
use telegram_media_downloade.Prelude.{
  ℕ, zero, suc, ◌+◌, Bool, true, false, not, ◌&&◌, ◌||◌, Option, none, some, String, List, [], ◌∷◌,
  ◌++◌, ltb, leb, length, is_some, or_else, ◌==◌, string_key, if◌then◌else◌,
}
use telegram_media_downloade.Rows.{select}
use telegram_media_downloade.Dict.{Dict, get, put}

pub record Message : Type 0 where
  pub id : ℕ
  pub media_type : Option String
  pub caption : Option String
  pub media_group_id : Option String

pub record PackageMediaItem : Type 0 where
  pub message : Message
  pub media_type : String
  pub caption_for_naming : String
  pub original_caption : Option String
  pub inherited_caption : Bool

pub record MessagePackagePlan : Type 0 where
  pub items : List PackageMediaItem
  pub package_title : String
  pub inherited_caption_count : ℕ
  pub next_package_message : Option Message
  pub next_package_caption : Option String
  pub scan_warning : Bool

-- The local variables of the loop.
pub record Scanned : Type 0 where
  pub items : List PackageMediaItem
  pub package_title : Option String
  pub current_caption : Option String
  pub inherited_caption_count : ℕ

abbrev pub nothing_scanned : Scanned
nothing_scanned = record {
  items = [];
  package_title = none;
  current_caption = none;
  inherited_caption_count = 0;
}

-- `sorted(…, key=lambda message: message.id)`
unfoldable pub insert_by_id : Message → List Message → List Message
insert_by_id m [] = m ∷ []
insert_by_id m (n ∷ ns) =
    let rest = insert_by_id m ns in if leb m.id n.id then m ∷ n ∷ ns else n ∷ rest

unfoldable pub sort_by_id : List Message → List Message
unfolding insert_by_id
sort_by_id [] = []
sort_by_id (m ∷ ms) = insert_by_id m (sort_by_id ms)

-- `messages[:count]`
unfoldable pub first_messages : ℕ → List Message → List Message
first_messages zero ms = []
first_messages (suc n) [] = []
first_messages (suc n) (m ∷ ms) = m ∷ first_messages n ms

-- The first caption of every media group.
unfoldable pub group_captions : List Message → Dict String String → Dict String String
group_captions [] groups = groups
group_captions (m ∷ ms) groups = elim m.media_group_id [
  | none ↦ group_captions ms groups
  | some group ↦ elim m.caption [
    | none ↦ group_captions ms groups
    | some caption ↦
        group_captions ms (if is_some (get group groups) then groups else put group caption groups)
  ]
]

abbrev pub group_caption : Dict String String → Option String → Option String
group_caption groups none = none
group_caption groups (some group) = get group groups

-- The messages from an id on, in the order of their ids.
unfoldable pub candidates_from : ℕ → List Message → List Message
unfolding sort_by_id
candidates_from start messages = sort_by_id (select (λ m. leb start m.id) messages)

abbrev pub one_if : Bool → ℕ
one_if true = 1
one_if false = 0

-- `raw_caption is None and effective_caption is not None`
abbrev pub is_inherited : Message → Option String → Bool
is_inherited m effective = not (is_some m.caption) && is_some effective

abbrev pub next_message : Option (Message × Option String) → Option Message
next_message none = none
next_message (some (m, caption)) = some m

abbrev pub next_caption : Option (Message × Option String) → Option String
next_caption none = none
next_caption (some (m, caption)) = caption

module _ (normalize : String → String) (size : String → ℕ) (is_in : String → String → Bool)
    (message_name : ℕ → String) where
  unfoldable pub captions_are_similar : String → String → Bool
  captions_are_similar current candidate =
      let a = normalize current in
      let b = normalize candidate in
      let shorter = if leb (size a) (size b) then a else b in
      let longer = if leb (size a) (size b) then b else a in
      ((a == "") || (b == "")) || ((a == b) || (leb 4 (size shorter) && is_in shorter longer))

  -- `items and candidate_caption and current_caption` and not similar
  abbrev pub is_boundary : List PackageMediaItem → Option String → Option String → Bool
  is_boundary (item ∷ items) (some candidate) (some current) =
      not (captions_are_similar current candidate)
  is_boundary _ _ _ = false

  -- The first caption names the items before it.
  abbrev pub is_unnamed : PackageMediaItem → Bool
  is_unnamed item =
      not (is_some item.original_caption)
      && (item.caption_for_naming == message_name item.message.id)

  unfoldable pub name_items : String → List PackageMediaItem → List PackageMediaItem
  name_items caption [] = []
  name_items caption (item ∷ items) =
      (if is_unnamed item
        then record item { caption_for_naming = caption; inherited_caption = true }
        else item)
      ∷ name_items caption items

  unfoldable pub count_unnamed : List PackageMediaItem → ℕ
  count_unnamed [] = 0
  count_unnamed (item ∷ items) = (if is_unnamed item then 1 else 0) + count_unnamed items

  -- The variables before `items.append`.
  unfoldable pub titled : Message → Option String → Scanned → Scanned
  unfolding name_items count_unnamed
  titled m effective v = elim m.caption [
    | some raw ↦
        if is_some v.package_title then record v { current_caption = some raw } else record v {
          current_caption = some raw;
          package_title = some raw;
          items = name_items raw v.items;
          inherited_caption_count = v.inherited_caption_count + count_unnamed v.items;
        }
    | none ↦ if is_some v.current_caption then v else record v {
      current_caption = effective;
      package_title = or_else v.package_title effective;
    }
  ]

  -- One media message that does not begin the next package.
  unfoldable pub add_message : Dict String String → Message → String → Scanned → Scanned
  unfolding titled
  add_message groups m media_type v =
      let effective =
        or_else m.caption (or_else (group_caption groups m.media_group_id) v.current_caption) in
      let w = titled m effective (record v {
        inherited_caption_count = v.inherited_caption_count + one_if (is_inherited m effective);
      }) in
      record w {
        items =
            w.items
            ++ record {
              message = m;
              media_type = media_type;
              caption_for_naming = elim effective [
                | some caption ↦ caption
                | none ↦ message_name m.id
              ];
              original_caption = m.caption;
              inherited_caption = is_inherited m effective;
            }
              ∷ [];
      }

  -- The loop, with the message and the caption at which it breaks.
  unfoldable pub scan_messages :
      Dict String String → List Message → Scanned → Scanned × Option (Message × Option String)
  unfolding add_message captions_are_similar
  scan_messages groups [] v = (v, none)
  scan_messages groups (m ∷ ms) v = elim m.media_type [
    | none ↦ scan_messages groups ms v
    | some media_type ↦
        let candidate = or_else m.caption (group_caption groups m.media_group_id) in
        let rest = scan_messages groups ms (add_message groups m media_type v) in
        if is_boundary v.items candidate v.current_caption then (v, some (m, candidate)) else rest
  ]

  unfoldable pub plan_message_package : List Message → ℕ → ℕ → MessagePackagePlan
  unfolding candidates_from first_messages group_captions scan_messages
  plan_message_package messages start max_scan_count =
      let scanned = first_messages max_scan_count (candidates_from start messages) in
      let (v, next) = scan_messages (group_captions scanned []) scanned nothing_scanned in
      record {
        items = v.items;
        package_title = elim v.package_title [ some title ↦ title | none ↦ message_name start ];
        inherited_caption_count = v.inherited_caption_count;
        next_package_message = next_message next;
        next_package_caption = next_caption next;
        scan_warning =
            (ltb 0 max_scan_count && leb max_scan_count (length scanned))
            && not (is_some (next_message next));
      }

  -- The loop over the packages that follow, with what is left of `max_following`.
  unfoldable pub following_plans :
      ℕ → List Message → ℕ → MessagePackagePlan → List MessagePackagePlan
  unfolding plan_message_package
  following_plans zero remaining max_scan_count current = []
  following_plans (suc more) remaining max_scan_count current = elim current.next_package_message [
    | none ↦ []
    | some m ↦
        let next_remaining = select (λ n. leb m.id n.id) remaining in
        let plan = plan_message_package next_remaining m.id max_scan_count in
        let rest = following_plans more remaining max_scan_count plan in
        elim next_remaining [
          | [] ↦ []
          | n ∷ ns ↦ elim plan.items [ [] ↦ [] | item ∷ items ↦ plan ∷ rest ]
        ]
  ]

  -- `all_packages` of the sequence.
  unfoldable pub plan_message_package_sequence : List Message → ℕ → ℕ → ℕ → List MessagePackagePlan
  unfolding candidates_from plan_message_package following_plans
  plan_message_package_sequence messages start following_package_count max_scan_count =
      let remaining = candidates_from start messages in
      let primary = plan_message_package remaining start max_scan_count in
      primary ∷ following_plans following_package_count remaining max_scan_count primary
