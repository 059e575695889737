-- ===== src/Planning/Prefixes.antt =====
-- The media messages that a package takes.
use telegram_media_downloade.Prelude.{
  ℕ, zero, suc, ◌≤◌, length, ◌≡◌, refl, sym, ap, ◌∙◌, subst, Bool, true, Option, some, String, List,
  [], ◌∷◌, ◌++◌, map, Bool-cases, Option-cases, inl, inr, leb, is_some, head?, or_else,
  if◌then◌else◌, if-cases, nat_key, arith,
}
use telegram_media_downloade.Dict.{Dict}
use telegram_media_downloade.Rows.{select}
use telegram_media_downloade.Planning.{
  Message, PackageMediaItem, MessagePackagePlan, Scanned, nothing_scanned, first_messages,
  group_captions, group_caption, candidates_from, is_boundary, is_unnamed, name_items, titled,
  add_message, scan_messages, next_message, plan_message_package,
}
use telegram_media_downloade.Planning.Order.{IsAscending, select-IsAscending, select-from}

abbrev pub message_of : PackageMediaItem → Message
message_of item = item.message

abbrev pub messages_of : List PackageMediaItem → List Message
messages_of items = map message_of items

unfoldable pub media_messages : List Message → List Message
media_messages ms = select (λ m. is_some m.media_type) ms

-- The messages of the packages, one package after the other.
abbrev pub package_messages : List MessagePackagePlan → List Message
package_messages [] = []
package_messages (plan ∷ plans) = messages_of plan.items ++ package_messages plans

pub append_assoc : (xs ys zs : List Message) → (xs ++ ys) ++ zs ≡ xs ++ (ys ++ zs)
append_assoc [] ys zs = refl
append_assoc (x ∷ xs) ys zs = ap (λ ms. x ∷ ms) (append_assoc xs ys zs)

messages_of-append :
    (xs : List PackageMediaItem) (y : PackageMediaItem)
    → messages_of (xs ++ y ∷ []) ≡ messages_of xs ++ y.message ∷ []
messages_of-append [] y = refl
messages_of-append (x ∷ xs) y = ap (λ ms. x.message ∷ ms) (messages_of-append xs y)

-- What a list splits into: a part that is taken, and a rest that begins with the next message.
pub record Cuts (taken whole : List Message) (next : Option Message) : Type 0 where
  pub rest : List Message
  pub whole_is : taken ++ rest ≡ whole
  pub next_same : head? rest ≡ next

-- The same where the list goes on beyond what was scanned.
pub record Splits (taken whole : List Message) (next : Option Message) : Type 0 where
  pub rest : List Message
  pub whole_is : taken ++ rest ≡ whole
  pub next_is : (m : Message) → next ≡ some m → head? rest ≡ some m

media_messages-append :
    (xs ys : List Message) → media_messages (xs ++ ys) ≡ media_messages xs ++ media_messages ys
unfolding media_messages select
media_messages-append [] ys = refl
media_messages-append (x ∷ xs) ys = elim (Bool-cases (is_some x.media_type)) [
  | inl e ↦ rw e (ap (λ ms. x ∷ ms) (media_messages-append xs ys))
  | inr e ↦ rw e (media_messages-append xs ys)
]

media_messages-cons :
    (m : Message) (ms : List Message)
    → is_some m.media_type ≡ true
    → media_messages (m ∷ ms) ≡ m ∷ media_messages ms
unfolding media_messages select
media_messages-cons m ms e = ground (arith, e)

-- `messages[:count]` and the messages beyond.
beyond : (n : ℕ) (ms : List Message) → (more : List Message) × (first_messages n ms ++ more ≡ ms)
unfolding first_messages
beyond zero ms = (ms, refl)
beyond (suc n) [] = ([], refl)
beyond (suc n) (m ∷ ms) = let (more, e) = beyond n ms in (more, ap (λ ns. m ∷ ns) e)

pub first_messages-all : (n : ℕ) (ms : List Message) → length ms ≤ n → first_messages n ms ≡ ms
unfolding first_messages
first_messages-all zero [] h = refl
first_messages-all zero (m ∷ ms) h = absurd (omega (arith, h))
first_messages-all (suc n) [] h = refl
first_messages-all (suc n) (m ∷ ms) h =
    ap (λ ns. m ∷ ns) (first_messages-all n ms (omega (arith, h)))

head-append : (xs ys : List Message) (m : Message) → head? xs ≡ some m → head? (xs ++ ys) ≡ some m
head-append [] ys m h = absurd (ground (arith, h))
head-append (x ∷ xs) ys m h = h

-- What packages take, one after the other, is a first part of a list.
abbrev pub IsPrefix : List Message → List MessagePackagePlan → Type 0
IsPrefix whole plans = (tail : List Message) × (package_messages plans ++ tail ≡ whole)

media_messages-select :
    (test : Message → Bool) (ms : List Message)
    → media_messages (select test ms) ≡ select test (media_messages ms)
unfolding media_messages select
media_messages-select test [] = refl
media_messages-select test (m ∷ ms) = ground (arith, media_messages-select test ms)

-- The media messages from the one on that heads the rest are the rest.
pub media_messages-from :
    (taken rest remaining : List Message) (m : Message)
    → IsAscending remaining
    → taken ++ rest ≡ media_messages remaining
    → head? rest ≡ some m
    → media_messages (select (λ n. leb m.id n.id) remaining) ≡ rest
unfolding media_messages
media_messages-from taken [] remaining m a e h = absurd (ground (arith, h))
media_messages-from taken (r ∷ rest) remaining m a e h =
    let same : r ≡ m = ground (arith, h) in
    let ordered : IsAscending (taken ++ r ∷ rest) =
      subst IsAscending (sym e) (select-IsAscending (λ m. is_some m.media_type) remaining a) in
    media_messages-select (λ n. leb m.id n.id) remaining
    ∙ ap (select (λ n. leb m.id n.id)) (sym e)
    ∙ subst (λ k. select (λ n. leb k.id n.id) (taken ++ r ∷ rest) ≡ r ∷ rest) same
        (select-from taken rest r ordered)

module _ (normalize : String → String) (size : String → ℕ) (is_in : String → String → Bool)
    (message_name : ℕ → String) where
  name_items-messages :
      (caption : String) (items : List PackageMediaItem)
      → messages_of (name_items normalize size is_in message_name caption items) ≡ messages_of items
  unfolding name_items
  name_items-messages caption [] = refl
  name_items-messages caption (item ∷ items) =
      elim (Bool-cases (is_unnamed normalize size is_in message_name item)) [
        | inl e ↦ rw e (ap (λ ms. item.message ∷ ms) (name_items-messages caption items))
        | inr e ↦ rw e (ap (λ ms. item.message ∷ ms) (name_items-messages caption items))
      ]

  titled-messages :
      (m : Message) (effective : Option String) (v : Scanned)
      → messages_of (titled normalize size is_in message_name m effective v).items
        ≡ messages_of v.items
  unfolding titled
  titled-messages m effective v = elim (Option-cases m.caption) [
    | inl e ↦ elim (Bool-cases (is_some v.current_caption)) [
      | inl c ↦ rw (e, titled, c) refl
      | inr c ↦ rw (e, titled, c) refl
    ]
    | inr (raw, e) ↦ elim (Bool-cases (is_some v.package_title)) [
      | inl t ↦ rw (e, titled, t) refl
      | inr t ↦ rw (e, titled, t) (name_items-messages raw v.items)
    ]
  ]

  add_message-messages :
      (groups : Dict String String) (m : Message) (media_type : String) (v : Scanned)
      → messages_of (add_message normalize size is_in message_name groups m media_type v).items
        ≡ messages_of v.items ++ m ∷ []
  unfolding add_message
  add_message-messages groups m media_type v =
      messages_of-append _ _ ∙ ap (λ ms. ms ++ m ∷ []) (titled-messages m _ _)

  abbrev scan :
      Dict String String → List Message → Scanned → Scanned × Option (Message × Option String)
  scan groups ms v = scan_messages normalize size is_in message_name groups ms v

  abbrev candidate : Dict String String → Message → Option String
  candidate groups m = or_else m.caption (group_caption groups m.media_group_id)

  abbrev ends_at : Dict String String → Message → Scanned → Bool
  ends_at groups m v =
      is_boundary normalize size is_in message_name v.items (candidate groups m) v.current_caption

  scan_messages-cons :
      (groups : Dict String String) (m : Message) (ms : List Message) (v : Scanned)
      (media_type : String)
      → m.media_type ≡ some media_type
      → scan groups (m ∷ ms) v ≡ (
          if ends_at groups m v
          then (v, some (m, candidate groups m))
          else scan groups ms (add_message normalize size is_in message_name groups m media_type v))
  unfolding scan_messages
  scan_messages-cons groups m ms v media_type e = simp (e, scan_messages) refl

  abbrev CutsScan : Scanned → List Message → Scanned × Option (Message × Option String) → Type 0
  CutsScan v ms r = Cuts (messages_of r.0.items) (messages_of v.items ++ ms) (next_message r.1)

  scan_messages-Cuts :
      (groups : Dict String String) (ms : List Message) (v : Scanned)
      → CutsScan v (media_messages ms) (scan groups ms v)
  unfolding scan_messages media_messages select
  scan_messages-Cuts groups [] v = record { rest = []; whole_is = refl; next_same = refl }
  scan_messages-Cuts groups (m ∷ ms) v = elim (Option-cases m.media_type) [
    | inl e ↦ rw (e, scan_messages) (scan_messages-Cuts groups ms v)
    | inr (media_type, e) ↦
        let added = add_message normalize size is_in message_name groups m media_type v in
        let next = scan_messages-Cuts groups ms added in
        subst (λ ns. CutsScan v ns (scan groups (m ∷ ms) v))
          (sym (media_messages-cons m ms (ap is_some e)))
          (subst (CutsScan v (m ∷ media_messages ms))
            (sym (scan_messages-cons groups m ms v media_type e))
            (if-cases (CutsScan v (m ∷ media_messages ms)) (ends_at groups m v) _ _
              (λ b. record { rest = m ∷ media_messages ms; whole_is = refl; next_same = refl })
              (λ b.
                subst
                  (λ ns.
                    Cuts (messages_of (scan groups ms added).0.items) ns
                      (next_message (scan groups ms added).1))
                  (ap (λ ns. ns ++ media_messages ms) (add_message-messages groups m media_type v)
                    ∙ append_assoc (messages_of v.items) (m ∷ []) (media_messages ms))
                  next)))
  ]

  abbrev pub plan_of : List Message → ℕ → ℕ → MessagePackagePlan
  plan_of ms start limit = plan_message_package normalize size is_in message_name ms start limit

  -- A package takes the first media messages from its start on, and the next one begins right behind it.
  pub plan_message_package-Splits :
      (messages : List Message) (start limit : ℕ)
      → Splits
          (messages_of (plan_of messages start limit).items)
          (media_messages (candidates_from start messages))
          (plan_of messages start limit).next_package_message
  unfolding plan_message_package
  plan_message_package-Splits messages start limit =
      let whole = candidates_from start messages in
      let scanned = first_messages limit whole in
      let (more, e) = beyond limit whole in
      let split = scan_messages-Cuts (group_captions scanned []) scanned nothing_scanned in
      record {
        rest = split.rest ++ media_messages more;
        whole_is =
            sym (append_assoc _ split.rest (media_messages more))
            ∙ ap (λ ns. ns ++ media_messages more) split.whole_is
            ∙ sym (media_messages-append scanned more)
            ∙ ap media_messages e;
        next_is = λ m h. head-append split.rest (media_messages more) m (split.next_same ∙ h);
      }

  -- A package that scans all the messages.
  pub plan_message_package-Cuts :
      (messages : List Message) (start limit : ℕ)
      → length (candidates_from start messages) ≤ limit
      → Cuts
          (messages_of (plan_of messages start limit).items)
          (media_messages (candidates_from start messages))
          (plan_of messages start limit).next_package_message
  unfolding plan_message_package
  plan_message_package-Cuts messages start limit fits =
      let whole = candidates_from start messages in
      let scanned = first_messages limit whole in
      let split = scan_messages-Cuts (group_captions scanned []) scanned nothing_scanned in
      record {
        rest = split.rest;
        whole_is = split.whole_is ∙ ap media_messages (first_messages-all limit whole fits);
        next_same = split.next_same;
      }

  boundary_items :
      (items : List PackageMediaItem) (next current : Option String)
      → is_boundary normalize size is_in message_name items next current ≡ true
      → is_some (head? (messages_of items)) ≡ true
  boundary_items [] next current b = absurd (ground (arith, b))
  boundary_items (item ∷ items) next current b = refl

  abbrev HasItems : Scanned × Option (Message × Option String) → Type 0
  HasItems r = is_some (next_message r.1) ≡ true → is_some (head? (messages_of r.0.items)) ≡ true

  -- A loop that breaks has taken a message.
  scan_messages-HasItems :
      (groups : Dict String String) (ms : List Message) (v : Scanned) → HasItems (scan groups ms v)
  unfolding scan_messages
  scan_messages-HasItems groups [] v = λ h. absurd (ground (arith, h))
  scan_messages-HasItems groups (m ∷ ms) v = elim (Option-cases m.media_type) [
    | inl e ↦ rw (e, scan_messages) (scan_messages-HasItems groups ms v)
    | inr (media_type, e) ↦ subst HasItems (sym (scan_messages-cons groups m ms v media_type e)) (
        if-cases HasItems (ends_at groups m v) _ _
          (λ b h. boundary_items v.items (candidate groups m) v.current_caption b)
          (λ b.
            scan_messages-HasItems groups ms
              (add_message normalize size is_in message_name groups m media_type v)))
  ]

  pub plan_message_package-HasItems :
      (messages : List Message) (start limit : ℕ)
      → is_some (plan_of messages start limit).next_package_message ≡ true
      → is_some (head? (messages_of (plan_of messages start limit).items)) ≡ true
  unfolding plan_message_package
  plan_message_package-HasItems messages start limit h =
      scan_messages-HasItems _ (first_messages limit (candidates_from start messages))
        nothing_scanned h
