-- ===== src/Planning/Sequences.antt =====
-- The media messages that a sequence of packages takes.
use telegram_media_downloade.Prelude.{
  ℕ, zero, suc, ◌≤◌, ◌<◌, length, ◌⊎◌, none, ◌≡◌, refl, sym, ap, ◌∙◌, subst, Bool, true, some,
  String, List, [], ◌∷◌, ◌++◌, map, Bool-cases, Option-cases, inl, inr, leb, is_some, head?,
  Distinct, nat_key, arith,
}
use telegram_media_downloade.Rows.{select}
use telegram_media_downloade.Planning.{
  Message, PackageMediaItem, MessagePackagePlan, candidates_from, following_plans,
  plan_message_package_sequence,
}
use telegram_media_downloade.Planning.Order.{
  id_of, IsAscending, candidates_from-IsAscending, candidates_from-select, candidates_from-again,
}
use telegram_media_downloade.Planning.Prefixes.{
  messages_of, media_messages, package_messages, append_assoc, IsPrefix, media_messages-from,
  plan_of, plan_message_package-Splits, plan_message_package-Cuts, plan_message_package-HasItems,
}

no_head : (ms : List Message) → head? ms ≡ none → ms ≡ []
no_head [] h = refl
no_head (m ∷ ms) h = absurd (ground (arith, h))

media_head :
    (ms : List Message) → is_some (head? (media_messages ms)) ≡ true → is_some (head? ms) ≡ true
unfolding media_messages select
media_head [] h = absurd (ground (arith, h))
media_head (m ∷ ms) h = refl

append_none : (ms : List Message) → ms ++ [] ≡ ms
append_none [] = refl
append_none (m ∷ ms) = ap (λ ns. m ∷ ns) (append_none ms)

length-select : (test : Message → Bool) (ms : List Message) → length (select test ms) ≤ length ms
unfolding select
length-select test [] = omega arith
length-select test (m ∷ ms) = ground (arith, length-select test ms)

-- Packages that take all of a list, or are as many as were asked for.
abbrev IsWhole : ℕ → List Message → List MessagePackagePlan → Type 0
IsWhole count whole plans =
    (tail : List Message) × (package_messages plans ++ tail ≡ whole)
    × ((tail ≡ []) ⊎ (length plans ≡ count))

module _ (normalize : String → String) (size : String → ℕ) (is_in : String → String → Bool)
    (message_name : ℕ → String) where
  -- The two tests of the loop on the package that comes next.
  tested :
      (rest : List Message) (next_remaining : List Message) (items : List PackageMediaItem)
      (plan : MessagePackagePlan) (plans : List MessagePackagePlan)
      → IsPrefix rest (plan ∷ plans)
      → IsPrefix rest (elim next_remaining [
        | [] ↦ []
        | n ∷ ns ↦ elim items [ [] ↦ [] | item ∷ items ↦ plan ∷ plans ]
      ])
  tested rest [] items plan plans p = (rest, refl)
  tested rest (n ∷ ns) [] plan plans p = (rest, refl)
  tested rest (n ∷ ns) (item ∷ items) plan plans p = p

  -- What the packages that follow take of the rest.
  following_plans-prefix :
      (more : ℕ) (remaining rest : List Message) (limit : ℕ) (current : MessagePackagePlan)
      → IsAscending remaining
      → (taken : List Message) → taken ++ rest ≡ media_messages remaining
      → ((m : Message) → current.next_package_message ≡ some m → head? rest ≡ some m)
      → IsPrefix rest
          (following_plans normalize size is_in message_name more remaining limit current)
  unfolding following_plans
  following_plans-prefix zero remaining rest limit current a taken e h = (rest, refl)
  following_plans-prefix (suc more) remaining rest limit current a taken e h =
      elim (Option-cases current.next_package_message) [
        | inl n ↦ rw (n, following_plans) (rest, refl)
        | inr (m, n) ↦
            let next_remaining = select (λ n. leb m.id n.id) remaining in
            let plan = plan_of normalize size is_in message_name next_remaining m.id limit in
            let from : media_messages (candidates_from m.id next_remaining) ≡ rest =
              ap media_messages (candidates_from-select m.id remaining a)
              ∙ media_messages-from taken rest remaining m a e (h m n) in
            let split =
              plan_message_package-Splits normalize size is_in message_name next_remaining m.id
                limit in
            let here = split.whole_is ∙ from in
            let (tail, later) =
              following_plans-prefix more remaining split.rest limit plan a
                (taken ++ messages_of plan.items)
                (append_assoc taken (messages_of plan.items) split.rest
                  ∙ ap (λ ms. taken ++ ms) here
                  ∙ e)
                split.next_is in
            rw (n, following_plans)
              (tested rest next_remaining plan.items plan
                (following_plans normalize size is_in message_name more remaining limit plan)
                (
                  tail,
                  append_assoc (messages_of plan.items) _ tail
                      ∙ ap (λ ms. messages_of plan.items ++ ms) later
                      ∙ here,
                ))
      ]

  -- The two tests pass.
  passed :
      (P : List MessagePackagePlan → Type 0) (next_remaining : List Message)
      (items : List PackageMediaItem) (plan : MessagePackagePlan) (plans : List MessagePackagePlan)
      → is_some (head? next_remaining) ≡ true
      → is_some (head? (messages_of items)) ≡ true
      → P (plan ∷ plans)
      → P (elim next_remaining [
        | [] ↦ []
        | n ∷ ns ↦ elim items [ [] ↦ [] | item ∷ items ↦ plan ∷ plans ]
      ])
  passed P [] items plan plans h k p = absurd (ground (arith, h))
  passed P (n ∷ ns) [] plan plans h k p = absurd (ground (arith, k))
  passed P (n ∷ ns) (item ∷ items) plan plans h k p = p

  -- A package over messages with media has items.
  plan_items :
      (messages : List Message) (start limit : ℕ) (m : Message)
      → length (candidates_from start messages) ≤ limit
      → head? (media_messages (candidates_from start messages)) ≡ some m
      → is_some (
          head?
            (messages_of (plan_of normalize size is_in message_name messages start limit).items))
        ≡ true
  plan_items messages start limit m fits first =
      let plan = plan_of normalize size is_in message_name messages start limit in
      let cut =
        plan_message_package-Cuts normalize size is_in message_name messages start limit fits in
      elim (Option-cases plan.next_package_message) [
        | inl e ↦
            let all =
              sym (append_none (messages_of plan.items))
              ∙ ap (λ ms. messages_of plan.items ++ ms) (sym (no_head cut.rest (cut.next_same ∙ e)))
              ∙ cut.whole_is in
            ap (λ ms. is_some (head? ms)) all ∙ ap is_some first
        | inr (n, e) ↦
            plan_message_package-HasItems normalize size is_in message_name messages start limit
              (ap is_some e)
      ]

  following_plans-IsWhole :
      (more : ℕ) (remaining rest : List Message) (limit : ℕ) (current : MessagePackagePlan)
      → length remaining ≤ limit
      → IsAscending remaining
      → (taken : List Message) → taken ++ rest ≡ media_messages remaining
      → head? rest ≡ current.next_package_message
      → IsWhole more rest
          (following_plans normalize size is_in message_name more remaining limit current)
  unfolding following_plans
  following_plans-IsWhole zero remaining rest limit current fits a taken e same =
      (rest, refl, inr refl)
  following_plans-IsWhole (suc more) remaining rest limit current fits a taken e same =
      elim (Option-cases current.next_package_message) [
        | inl n ↦ rw (n, following_plans) (rest, refl, inl (no_head rest (same ∙ n)))
        | inr (m, n) ↦
            let next_remaining = select (λ n. leb m.id n.id) remaining in
            let plan = plan_of normalize size is_in message_name next_remaining m.id limit in
            let first = media_messages-from taken rest remaining m a e (same ∙ n) in
            let again = candidates_from-select m.id remaining a in
            let from = ap media_messages again ∙ first in
            let shorter = length-select (λ n. leb m.id n.id) remaining in
            let fits_next : length (candidates_from m.id next_remaining) ≤ limit =
              subst (λ ms. length ms ≤ limit) (sym again) (omega (arith, shorter, fits)) in
            let cut =
              plan_message_package-Cuts normalize size is_in message_name next_remaining m.id limit
                fits_next in
            let here = cut.whole_is ∙ from in
            let (tail, later, done) =
              following_plans-IsWhole more remaining cut.rest limit plan fits a
                (taken ++ messages_of plan.items)
                (append_assoc taken (messages_of plan.items) cut.rest
                  ∙ ap (λ ms. taken ++ ms) here
                  ∙ e)
                cut.next_same in
            rw (n, following_plans)
              (passed (IsWhole (suc more) rest) next_remaining plan.items plan
                (following_plans normalize size is_in message_name more remaining limit plan)
                (media_head next_remaining
                  (ap (λ ms. is_some (head? ms)) first ∙ ap is_some (same ∙ n)))
                (plan_items next_remaining m.id limit m fits_next (ap head? from ∙ same ∙ n))
                (
                  tail,
                  append_assoc (messages_of plan.items) _ tail
                      ∙ ap (λ ms. messages_of plan.items ++ ms) later
                      ∙ here,
                  elim done [ inl t ↦ inl t | inr k ↦ inr (ap suc k) ],
                ))
      ]

  -- With distinct ids, the packages take the first of the media messages, in order.
  sequence_prefix :
      (messages : List Message) (start following_package_count limit : ℕ)
      → Distinct (map id_of messages)
      → IsPrefix (media_messages (candidates_from start messages)) (
          plan_message_package_sequence normalize size is_in message_name messages start
            following_package_count limit)
  unfolding plan_message_package_sequence
  sequence_prefix messages start count limit d =
      let remaining = candidates_from start messages in
      let primary = plan_of normalize size is_in message_name remaining start limit in
      let split =
        plan_message_package-Splits normalize size is_in message_name remaining start limit in
      let here = split.whole_is ∙ ap media_messages (candidates_from-again start messages d) in
      let (tail, later) =
        following_plans-prefix count remaining split.rest limit primary
          (candidates_from-IsAscending start messages d) (messages_of primary.items) here
          split.next_is in
      (
        tail,
        append_assoc (messages_of primary.items) _ tail
            ∙ ap (λ ms. messages_of primary.items ++ ms) later
            ∙ here,
      )

  sequence-IsWhole :
      (messages : List Message) (start count limit : ℕ)
      → Distinct (map id_of messages)
      → length (candidates_from start messages) ≤ limit
      → IsWhole (suc count) (media_messages (candidates_from start messages)) (
          plan_message_package_sequence normalize size is_in message_name messages start count
            limit)
  unfolding plan_message_package_sequence
  sequence-IsWhole messages start count limit d fits =
      let remaining = candidates_from start messages in
      let primary = plan_of normalize size is_in message_name remaining start limit in
      let again = candidates_from-again start messages d in
      let cut =
        plan_message_package-Cuts normalize size is_in message_name remaining start limit
          (subst (λ ms. length ms ≤ limit) (sym again) fits) in
      let here = cut.whole_is ∙ ap media_messages again in
      let (tail, later, done) =
        following_plans-IsWhole count remaining cut.rest limit primary fits
          (candidates_from-IsAscending start messages d) (messages_of primary.items) here
          cut.next_same in
      (
        tail,
        append_assoc (messages_of primary.items) _ tail
            ∙ ap (λ ms. messages_of primary.items ++ ms) later
            ∙ here,
        elim done [ inl t ↦ inl t | inr k ↦ inr (ap suc k) ],
      )

  -- When the ids of the messages are distinct, the packages of a sequence, one after the other, are the first
  -- of the media messages from the start on, in the order of their ids, so no package skips or repeats one;
  -- and unless there are more messages than the scan limit, they are all of these media messages, or there
  -- are as many packages as were asked for.
  pub plan_message_package_sequence-all :
      (messages : List Message) (start following_package_count limit : ℕ)
      → Distinct (map id_of messages)
      → (tail : List Message) × (package_messages (
              plan_message_package_sequence normalize size is_in message_name messages start
                following_package_count limit)
            ++ tail
          ≡ media_messages (candidates_from start messages))
        × ((limit < length (candidates_from start messages))
            ⊎ (tail ≡ [])
            ⊎ (length (
                  plan_message_package_sequence normalize size is_in message_name messages start
                    following_package_count limit)
                ≡ suc following_package_count))
  plan_message_package_sequence-all messages start count limit d =
      elim (Bool-cases (leb (length (candidates_from start messages)) limit)) [
        | inl e ↦
            let (tail, split, done) =
              sequence-IsWhole messages start count limit d (ground (arith, e)) in
            (tail, split, inr done)
        | inr e ↦
            let (tail, split) = sequence_prefix messages start count limit d in
            (tail, split, inl (ground (arith, e)))
      ]
