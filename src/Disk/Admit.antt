-- ===== src/Disk/Admit.antt =====
-- What one round of `acquire` promises: space, order and progress, patience.
use telegram_media_downloade.Prelude.{
  ℕ, ◌+◌, ◌≤◌, ◌<◌, ◌≡◌, ◌↔◌, ◌⊎◌, inl, inr, refl, true, false, Option, none, some, String, List,
  [], ◌∷◌, string_key, elem, arith, Bool-cases, All, ◌++◌, ==_refl, ==_iff,
}
use telegram_media_downloade.Dict.{get, keys}
use telegram_media_downloade.Dict.Order.{total-put_new, elem-get-some, elem-keys}
use telegram_media_downloade.Disk.{
  Admission, can_admit, capacity_bytes, may_admit, requested, reserved_total, notify_all,
}
use telegram_media_downloade.Disk.Acquire.{
  Round, admitted, asleep, failed, admit, over_capacity, round, disk_capacity_exceeded,
}

-- A request that is admitted leaves the minimum free: all reserved bytes, its own included, and the
-- minimum together are at most the free bytes that the round read.
pub round-space :
    (key : String) (required free now : ℕ) (since : Option ℕ) (a : Admission)
    → get key a.reserved_bytes ≡ none
    → (round key required since free now a).0 ≡ admitted
    → a.minimum_free_bytes + reserved_total (round key required since free now a).1 ≤ free
unfolding round over_capacity may_admit can_admit admit reserved_total notify_all
round-space key required free now none a fresh h =
    ground (arith, total-put_new key required a.reserved_bytes)
round-space key required free now (some since) a fresh h =
    ground (arith, total-put_new key required a.reserved_bytes)

-- When does a waiter go first? A waiting request that fits the capacity is admitted in a round exactly
-- when it fits the free space and either stands at the head or the head does not fit.
round-order :
    (key head : String) (required free now : ℕ) (since : Option ℕ) (rest : List String)
    (a : Admission)
    → a.waiting ≡ head ∷ rest
    → elem key a.waiting ≡ true
    → required + a.minimum_free_bytes ≤ capacity_bytes a free
    → ((round key required since free now a).0 ≡ admitted) ↔ (
        (can_admit a required free ≡ true)
        × ((head ≡ key) ⊎ (can_admit a (requested a head) free ≡ false)))
unfolding round may_admit admit
round-order key head required free now since rest a w q c = ground (arith, ==_iff head key)

-- A request that fits the free space fits the capacity.
can_admit-capacity :
    (a : Admission) (n free : ℕ)
    → can_admit a n free ≡ true
    → n + a.minimum_free_bytes ≤ capacity_bytes a free
unfolding can_admit capacity_bytes
can_admit-capacity a n free h = ground arith

requested_lem :
    (a : Admission) (k : String) (m : ℕ) → get k a.requested_bytes ≡ some m → requested a k ≡ m
unfolding requested
requested_lem a k m h = rw (h, requested)

progress_from :
    (w : String) (n free now : ℕ) (since : Option ℕ) (a : Admission) (ws : List String)
    → a.waiting ≡ ws
    → a.waiting ≡ keys a.requested_bytes
    → get w a.requested_bytes ≡ some n
    → can_admit a n free ≡ true
    → (k : String) × (m : ℕ) × (get k a.requested_bytes ≡ some m)
      × ((round k m since free now a).0 ≡ admitted)
progress_from w n free now since a [] e q h fits =
    absurd (ground (arith, elem-keys w n a.requested_bytes))
progress_from w n free now since a (head ∷ rest) e q h fits =
    let there : elem w a.waiting ≡ true = rw q (elem-keys w n a.requested_bytes h) in
    let first : elem head a.waiting ≡ true = rw e (ground (arith, ==_refl head)) in
    let (m, hm) = elem-get-some head a.requested_bytes (rw (← q) first) in
    elim (Bool-cases (can_admit a m free)) [
      | inl goes ↦ (
        head,
        m,
        hm,
        (round-order head head m free now since rest a e first (can_admit-capacity a m free goes)).1
            (goes, inl refl),
      )
      | inr stuck ↦ (
        w,
        n,
        h,
        (round-order w head n free now since rest a e there (can_admit-capacity a n free fits)).1
            (fits, inr (rw (requested_lem a head m hm) stuck)),
      )
    ]

-- No deadlock: with queue and requests in step, whenever some waiting request fits the free space, there
-- is a waiting request whose next round is admitted.
pub round-progress :
    (w : String) (n free now : ℕ) (since : Option ℕ) (a : Admission)
    → a.waiting ≡ keys a.requested_bytes
    → get w a.requested_bytes ≡ some n
    → can_admit a n free ≡ true
    → (k : String) × (m : ℕ) × (get k a.requested_bytes ≡ some m)
      × ((round k m since free now a).0 ≡ admitted)
round-progress w n free now since a q h fits =
    progress_from w n free now since a a.waiting refl q h fits

-- The loop of one `acquire`, as it sees the admission, the free bytes and the clock in each round;
-- between rounds other coroutines run.
pub rounds : String → ℕ → Option ℕ → List (Admission × ℕ × ℕ) → Round
rounds key required since [] = asleep since
rounds key required since ((a, free, now) ∷ later) = elim (round key required since free now a).0 [
  | asleep since' ↦ rounds key required since' later
  | admitted ↦ admitted
  | failed e ↦ failed e
]

-- The request passes the capacity that the round sees.
abbrev pub IsOver : ℕ → (Admission × ℕ × ℕ) → Type 0
IsOver required (a, free, now) = capacity_bytes a free < required + a.minimum_free_bytes

rounds-wait :
    (key : String) (required start limit : ℕ) (seen : List (Admission × ℕ × ℕ))
    (last : Admission × ℕ × ℕ)
    → All (λ o. IsOver required o × (o.2 < start + limit) × (o.0.capacity_timeout_sec ≡ limit)) seen
    → IsOver required last
    → last.0.capacity_timeout_sec ≡ limit
    → start + limit ≤ last.2
    → rounds key required (some start) (seen ++ last ∷ [])
      ≡ failed (disk_capacity_exceeded key required (capacity_bytes last.0 last.1))
unfolding rounds round over_capacity
rounds-wait key required start limit [] (a, free, now) w o l t = ground arith
rounds-wait key required start limit ((b, f, n) ∷ seen) (a, free, now) w o l t =
    ground (arith, rounds-wait key required start limit seen (a, free, now) w.1)

-- A request that passes the capacity in every round sleeps through the grace period, counted from
-- its first round, and fails with the capacity error in the first round after it; it is not
-- admitted, whatever the other coroutines do.
pub rounds-patience :
    (key : String) (required limit : ℕ) (first last : Admission × ℕ × ℕ)
    (seen : List (Admission × ℕ × ℕ))
    → IsOver required first
    → All
        (λ o. IsOver required o × (o.2 < first.2 + limit) × (o.0.capacity_timeout_sec ≡ limit))
        seen
    → IsOver required last
    → last.0.capacity_timeout_sec ≡ limit
    → first.2 + limit ≤ last.2
    → rounds key required none (first ∷ seen ++ last ∷ [])
      ≡ failed (disk_capacity_exceeded key required (capacity_bytes last.0 last.1))
unfolding rounds round over_capacity
rounds-patience key required limit (a, free, now) last seen o w ol l t =
    ground (arith, rounds-wait key required now limit seen last w)
