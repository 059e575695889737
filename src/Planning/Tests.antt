-- ===== src/Planning/Tests.antt =====
-- Packages of four messages; captions are compared as they are.
use telegram_media_downloade.Prelude.{
  ℕ, false, Option, none, some, String, List, [], ◌∷◌, ◌++◌, refl, ◌≡◌, ◌<◌, ◌⊎◌, length, nat_key,
}
use telegram_media_downloade.Planning.{
  Message, plan_message_package_sequence, plan_message_package, following_plans, candidates_from,
  sort_by_id, insert_by_id, first_messages, group_captions, scan_messages, add_message, titled,
  name_items, count_unnamed, captions_are_similar,
}
use telegram_media_downloade.Planning.Prefixes.{package_messages, media_messages}
use telegram_media_downloade.Planning.Sequences.{plan_message_package_sequence-all}
use telegram_media_downloade.Rows.{select}

abbrev photo : ℕ → Option String → Message
photo id caption = record {
  id = id;
  media_type = some "photo";
  caption = caption;
  media_group_id = none;
}

abbrev chat : List Message
chat =
    photo 4 (some "beach")
    ∷ photo 1 (some "mountains")
    ∷ photo 2 none
    ∷ record { id = 3; media_type = none; caption = none; media_group_id = none }
    ∷ []

plan_message_package_sequence-all_example :
    (tail : List Message) × (package_messages (
          plan_message_package_sequence
            (λ t. t)
            (λ t. 9)
            (λ a b. false)
            (λ n. "message")
            chat
            1
            3
            500)
        ++ tail
      ≡ media_messages (candidates_from 1 chat))
    × ((500 < length (candidates_from 1 chat))
        ⊎ (tail ≡ [])
        ⊎ (length (
              plan_message_package_sequence
                (λ t. t)
                (λ t. 9)
                (λ a b. false)
                (λ n. "message")
                chat
                1
                3
                500)
            ≡ 4))
plan_message_package_sequence-all_example =
    plan_message_package_sequence-all (λ t. t) (λ t. 9) (λ a b. false) (λ n. "message") chat 1 3 500
      (refl, (refl, (refl, (refl, tt))))

-- The two packages that the captions separate.
two_packages :
    length
      (plan_message_package_sequence (λ t. t) (λ t. 9) (λ a b. false) (λ n. "message") chat 1 3 500)
    ≡ 2
unfolding plan_message_package_sequence plan_message_package following_plans candidates_from
    sort_by_id insert_by_id first_messages group_captions scan_messages add_message titled
    name_items count_unnamed captions_are_similar select
two_packages = refl
