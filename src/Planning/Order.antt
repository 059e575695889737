-- ===== src/Planning/Order.antt =====
-- Messages in ascending order of their ids.
use telegram_media_downloade.Prelude.{
  ℕ, ◌<◌, ◌≡◌, refl, ap, ◌∙◌, Bool, true, false, List, [], ◌∷◌, ◌++◌, map, All, Bool-cases, inl,
  inr, leb, nat_beq, nat_key, elem, Distinct, arith,
}
use telegram_media_downloade.Rows.{select}
use telegram_media_downloade.Rows.Laws.{map-All}
use telegram_media_downloade.Rows.Found.{select-All}
use telegram_media_downloade.Planning.{Message, insert_by_id, sort_by_id, candidates_from}

abbrev pub id_of : Message → ℕ
id_of m = m.id

abbrev pub IsAbove : ℕ → List Message → Type 0
IsAbove k ms = All (λ n. k < n.id) ms

abbrev pub IsAscending : List Message → Type 0
IsAscending [] = Unit
IsAscending (m ∷ ms) = IsAbove m.id ms × IsAscending ms

module _ {κ} (P : Message → Type κ) where
  insert_by_id-All : (m : Message) (ms : List Message) → P m → All P ms → All P (insert_by_id m ms)
  unfolding insert_by_id
  insert_by_id-All m [] p h = (p, tt)
  insert_by_id-All m (n ∷ ns) p h = elim (Bool-cases (leb m.id n.id)) [
    | inl e ↦ rw e (p, h)
    | inr e ↦ rw e (h.0, insert_by_id-All m ns p h.1)
  ]

  sort_by_id-All : (ms : List Message) → All P ms → All P (sort_by_id ms)
  unfolding sort_by_id
  sort_by_id-All [] h = tt
  sort_by_id-All (m ∷ ms) h = insert_by_id-All m (sort_by_id ms) h.0 (sort_by_id-All ms h.1)

-- The ids of the messages differ from one that is not among them.
abbrev IsOther : ℕ → Message → Type 0
IsOther k n = nat_beq n.id k ≡ false

others : (k : ℕ) (ms : List Message) → elem k (map id_of ms) ≡ false → All (IsOther k) ms
others k [] h = tt
others k (m ∷ ms) h = (ground (arith, h), others k ms (ground (arith, h)))

insert_by_id-IsAscending :
    (m : Message) (ms : List Message)
    → All (IsOther m.id) ms
    → IsAscending ms
    → IsAscending (insert_by_id m ms)
unfolding insert_by_id
insert_by_id-IsAscending m [] o a = (tt, tt)
insert_by_id-IsAscending m (n ∷ ns) o a = elim (Bool-cases (leb m.id n.id)) [
  | inl e ↦
      let first : m.id < n.id = ground (arith, e, o.0) in
      rw e ((first, map-All _ _ ns (λ k h. omega (arith, h, first)) a.0), a)
  | inr e ↦
      let last : n.id < m.id = ground (arith, e) in
      rw e
        (insert_by_id-All (λ k. n.id < k.id) m ns last a.0, insert_by_id-IsAscending m ns o.1 a.1)
]

pub sort_by_id-IsAscending :
    (ms : List Message) → Distinct (map id_of ms) → IsAscending (sort_by_id ms)
unfolding sort_by_id
sort_by_id-IsAscending [] d = tt
sort_by_id-IsAscending (m ∷ ms) d =
    insert_by_id-IsAscending m (sort_by_id ms)
      (sort_by_id-All (IsOther m.id) ms (others m.id ms d.0)) (sort_by_id-IsAscending ms d.1)

insert_by_id-first :
    (m : Message) (ms : List Message) → IsAbove m.id ms → insert_by_id m ms ≡ m ∷ ms
unfolding insert_by_id
insert_by_id-first m [] h = refl
insert_by_id-first m (n ∷ ns) h = let e : leb m.id n.id ≡ true = ground (arith, h.0) in rw e refl

sort_by_id-same : (ms : List Message) → IsAscending ms → sort_by_id ms ≡ ms
unfolding sort_by_id
sort_by_id-same [] a = refl
sort_by_id-same (m ∷ ms) a = rw (sort_by_id-same ms a.1) (insert_by_id-first m ms a.0)

pub select-IsAscending :
    (test : Message → Bool) (ms : List Message) → IsAscending ms → IsAscending (select test ms)
unfolding select
select-IsAscending test [] a = tt
select-IsAscending test (m ∷ ms) a = elim (Bool-cases (test m)) [
  | inl e ↦ rw e (select-All _ _ test ms (λ n t h. h) a.0, select-IsAscending test ms a.1)
  | inr e ↦ rw e (select-IsAscending test ms a.1)
]

elem-select :
    (k : ℕ) (test : Message → Bool) (ms : List Message)
    → elem k (map id_of ms) ≡ false
    → elem k (map id_of (select test ms)) ≡ false
unfolding select
elem-select k test [] h = h
elem-select k test (m ∷ ms) h = elim (Bool-cases (test m)) [
  | inl e ↦ rw e (ground (arith, h, elem-select k test ms))
  | inr e ↦ rw e (elem-select k test ms (ground (arith, h)))
]

select-Distinct :
    (test : Message → Bool) (ms : List Message)
    → Distinct (map id_of ms)
    → Distinct (map id_of (select test ms))
unfolding select
select-Distinct test [] d = tt
select-Distinct test (m ∷ ms) d = elim (Bool-cases (test m)) [
  | inl e ↦ rw e (elem-select m.id test ms d.0, select-Distinct test ms d.1)
  | inr e ↦ rw e (select-Distinct test ms d.1)
]

pub candidates_from-IsAscending :
    (start : ℕ) (ms : List Message)
    → Distinct (map id_of ms)
    → IsAscending (candidates_from start ms)
unfolding candidates_from
candidates_from-IsAscending start ms d =
    sort_by_id-IsAscending (select (λ m. leb start m.id) ms)
      (select-Distinct (λ m. leb start m.id) ms d)

select-every :
    (test : Message → Bool) (ms : List Message) → All (λ m. test m ≡ true) ms → select test ms ≡ ms
unfolding select
select-every test [] h = refl
select-every test (m ∷ ms) h = rw h.0 (ap (λ ns. m ∷ ns) (select-every test ms h.1))

every : (ms : List Message) → All (λ m. Unit {0}) ms
every [] = tt
every (m ∷ ms) = (tt, every ms)

-- The candidates are their own candidates.
pub candidates_from-again :
    (start : ℕ) (ms : List Message)
    → Distinct (map id_of ms)
    → candidates_from start (candidates_from start ms) ≡ candidates_from start ms
unfolding candidates_from
candidates_from-again start ms d =
    ap sort_by_id (
      select-every (λ m. leb start m.id) (candidates_from start ms)
        (sort_by_id-All (λ m. leb start m.id ≡ true) (select (λ m. leb start m.id) ms)
          (select-All (λ m. Unit {0}) _ (λ m. leb start m.id) ms (λ m e u. e) (every ms))))
    ∙ sort_by_id-same (candidates_from start ms) (candidates_from-IsAscending start ms d)

select-twice :
    (start : ℕ) (ms : List Message)
    → select (λ m. leb start m.id) (select (λ m. leb start m.id) ms)
      ≡ select (λ m. leb start m.id) ms
unfolding select
select-twice start [] = refl
select-twice start (m ∷ ms) = elim (Bool-cases (leb start m.id)) [
  | inl e ↦ rw (e, select, e) (ap (λ ns. m ∷ ns) (select-twice start ms))
  | inr e ↦ rw e (select-twice start ms)
]

-- The candidates among those that are left are these.
pub candidates_from-select :
    (start : ℕ) (ms : List Message)
    → IsAscending ms
    → candidates_from start (select (λ m. leb start m.id) ms) ≡ select (λ m. leb start m.id) ms
unfolding candidates_from
candidates_from-select start ms a = rw (select-twice start ms) (
    sort_by_id-same (select (λ m. leb start m.id) ms)
      (select-IsAscending (λ m. leb start m.id) ms a))

select_above : (k : ℕ) (ms : List Message) → IsAbove k ms → select (λ n. leb k n.id) ms ≡ ms
unfolding select
select_above k [] h = refl
select_above k (m ∷ ms) h =
    let e : leb k m.id ≡ true = ground (arith, h.0) in
    rw e (ap (λ ns. m ∷ ns) (select_above k ms h.1))

middle-All :
    (k : ℕ) (before after : List Message) (m : Message) → IsAbove k (before ++ m ∷ after) → k < m.id
middle-All k [] after m h = h.0
middle-All k (b ∷ before) after m h = middle-All k before after m h.1

-- The messages from one on, in ascending order.
pub select-from :
    (before after : List Message) (m : Message)
    → IsAscending (before ++ m ∷ after)
    → select (λ n. leb m.id n.id) (before ++ m ∷ after) ≡ m ∷ after
unfolding select
select-from [] after m a =
    let e : leb m.id m.id ≡ true = ground arith in
    rw e (ap (λ ns. m ∷ ns) (select_above m.id after a.0))
select-from (b ∷ before) after m a =
    let below = middle-All b.id before after m a.0 in
    let e : leb m.id b.id ≡ false = ground (arith, below) in rw e (select-from before after m a.1)
