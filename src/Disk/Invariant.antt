-- ===== src/Disk/Invariant.antt =====
-- The books stay in step with the coroutines and the reservation objects.
use telegram_media_downloade.Prelude.{
  ℕ, ◌≡◌, refl, sym, ap, ◌∙◌, true, false, Option, none, some, String, List, [], ◌∷◌, ◌++◌, inl,
  inr, string_key, ◌==◌, ==_iff, elem, erase, Distinct, arith, Bool-cases, Option-cases, subst,
  erase-Distinct, append-Distinct, erase-append_last, ==_refl,
}
use telegram_media_downloade.Prelude.Int.{ℤ, pos, negsuc}
use telegram_media_downloade.Dict.{get, put, pop, keys, has}
use telegram_media_downloade.Dict.Laws.{get-pop, get-put}
use telegram_media_downloade.Dict.Order.{
  pop_absent, elem-get, put_new, keys-put_new, keys-put_old, keys-pop, elem-keys, pop-put_new,
}
use telegram_media_downloade.Disk.{
  Admission, release, wait_for_change, resolve_waiter, notify_space_changed,
}
use telegram_media_downloade.Disk.Acquire.{
  Round, asleep, failed, begin_acquire, admit, over_capacity, round, abandon, AcquireError,
}
use telegram_media_downloade.Disk.System.{
  System, Acquirer, DiskReservation, Event, begin, runs, timer, cancel, gives_back, notify, step,
  run, after_round, give_back,
}
use telegram_media_downloade.Disk.Books.{
  sizes, book, keys-sizes, get_of_sizes, get-sizes-none, sizes-pop, sizes-put, sizes-put_same,
  book-append, GaveBack, nothing, entry, give_back-GaveBack,
}

pub record IsConsistent (s : System) : Type 0 where
  pub requests : s.admission.requested_bytes ≡ sizes s.acquirers
  pub queue : s.admission.waiting ≡ keys s.acquirers
  pub distinct : Distinct (keys s.acquirers)
  pub held : s.admission.reserved_bytes ≡ book s.reservations
  pub owners : Distinct (keys (book s.reservations))
  pub apart :
      (k : String) (q : Acquirer) → get k s.acquirers ≡ some q → get k (book s.reservations) ≡ none

-- The three ways in which a round ends.
round_cases :
    (P : Round × Admission → Type 0) (key : String) (required : ℕ) (since : Option ℕ) (free now : ℕ)
    (a : Admission)
    → (elem key a.waiting ≡ true → P (admit key required a))
    → ((since' : Option ℕ) → P (asleep since', wait_for_change key a))
    → ((e : AcquireError) → P (failed e, abandon key a))
    → elem key a.waiting ≡ true
    → P (round key required since free now a)
unfolding round over_capacity
round_cases P key required since free now a go sleep fail there = grind arith

-- A coroutine that leaves, by an exception or by cancellation, leaves nothing behind.
leave-IsConsistent :
    (key : String) (q : Acquirer) (s : System)
    → get key s.acquirers ≡ some q
    → IsConsistent s
    → IsConsistent
        (record s { admission = abandon key s.admission; acquirers = pop key s.acquirers })
leave-IsConsistent key q s h c = record {
  requests = unfold abandon in (ap (pop key) c.requests ∙ sym (sizes-pop key s.acquirers));
  queue = unfold abandon in (ap (erase key) c.queue ∙ sym (keys-pop key s.acquirers c.distinct));
  distinct =
      rw (keys-pop key s.acquirers c.distinct) (erase-Distinct key (keys s.acquirers) c.distinct);
  held =
      unfold abandon in
      (ap (pop key) c.held
        ∙ pop_absent key (book s.reservations) (elem-get key _ (c.apart key q h)));
  owners = c.owners;
  apart = λ k p e. c.apart k p (ground (arith, get-pop key k s.acquirers));
}

sleep-IsConsistent :
    (key : String) (q : Acquirer) (since : Option ℕ) (s : System)
    → get key s.acquirers ≡ some q
    → IsConsistent s
    → IsConsistent (after_round key q (asleep since, wait_for_change key s.admission) s)
unfolding after_round
sleep-IsConsistent key q since s h c = record {
  requests =
      unfold wait_for_change in (c.requests ∙ sym (sizes-put_same key q _ s.acquirers h refl));
  queue = unfold wait_for_change in (c.queue ∙ sym (keys-put_old key _ q s.acquirers h));
  distinct =
      rw (keys-put_old key (record q { over_capacity_since = since }) q s.acquirers h) c.distinct;
  held = unfold wait_for_change in c.held;
  owners = c.owners;
  apart = λ k p e. elim (Bool-cases (key == k)) [
    | inl same ↦
        subst (λ j. get j (book s.reservations) ≡ none) ((==_iff key k).0 same) (c.apart key q h)
    | inr other ↦
        c.apart k p
          (ground (arith, get-put key k (record q { over_capacity_since = since }) s.acquirers))
  ];
}

-- The reservation that an admitted coroutine is given.
abbrev granted : String → ℕ → DiskReservation
granted key n = record { reservation_id = key; size_bytes = n; released = false }

-- The books of a request move from the queue to the reservations.
admit-IsConsistent :
    (key : String) (q : Acquirer) (s : System)
    → get key s.acquirers ≡ some q
    → IsConsistent s
    → elem key s.admission.waiting ≡ true
    → IsConsistent (after_round key q (admit key q.required_bytes s.admission) s)
unfolding admit after_round
admit-IsConsistent key q s h c there = rw there (record {
  requests = ap (pop key) c.requests ∙ sym (sizes-pop key s.acquirers);
  queue = ap (erase key) c.queue ∙ sym (keys-pop key s.acquirers c.distinct);
  distinct =
      rw (keys-pop key s.acquirers c.distinct) (erase-Distinct key (keys s.acquirers) c.distinct);
  held =
      ap (put key q.required_bytes) c.held
      ∙ put_new key q.required_bytes (book s.reservations) fresh
      ∙ sym (book-append key q.required_bytes s.reservations);
  owners =
      rw
        (
          book-append key q.required_bytes s.reservations,
          ← put_new key q.required_bytes (book s.reservations) fresh,
          keys-put_new key q.required_bytes (book s.reservations) fresh,
        )
        (append-Distinct key _ (elem-get key _ fresh) c.owners);
  apart = λ k p e.
      rw
        (
          book-append key q.required_bytes s.reservations,
          ← put_new key q.required_bytes (book s.reservations) fresh,
        )
        (ground (
          arith,
          get-put key k q.required_bytes (book s.reservations),
          get-pop key k s.acquirers,
          c.apart k p,
        ));
})
  where
    fresh : get key (book s.reservations) ≡ none
    fresh = c.apart key q h

enqueue-IsConsistent :
    (key : String) (n : ℕ) (s : System)
    → get key s.admission.requested_bytes ≡ none
    → get key s.admission.reserved_bytes ≡ none
    → IsConsistent s
    → IsConsistent (record s {
      admission = record s.admission {
        waiting = s.admission.waiting ++ key ∷ [];
        requested_bytes = put key n s.admission.requested_bytes;
      };
      acquirers = put key (record { required_bytes = n; over_capacity_since = none }) s.acquirers;
    })
enqueue-IsConsistent key n s new free c = record {
  requests = ap (put key n) c.requests ∙ sym (sizes-put key _ s.acquirers);
  queue =
      ap (λ (t : List String). t ++ key ∷ []) c.queue
      ∙ sym (keys-put_new key _ s.acquirers unknown);
  distinct =
      rw (keys-put_new key fresh s.acquirers unknown)
        (append-Distinct key (keys s.acquirers) (elem-get key s.acquirers unknown) c.distinct);
  held = c.held;
  owners = c.owners;
  apart = λ k p e. elim (Bool-cases (key == k)) [
    | inl same ↦
        subst (λ j. get j (book s.reservations) ≡ none) ((==_iff key k).0 same) (rw c.held at free)
    | inr other ↦ c.apart k p (ground (arith, get-put key k fresh s.acquirers))
  ];
}
  where
    fresh : Acquirer
    fresh = record { required_bytes = n; over_capacity_since = none }

    unknown : get key s.acquirers ≡ none
    unknown = get_of_sizes key s.acquirers (rw c.requests at new)

begin-IsConsistent :
    (key : String) (size : ℤ) (s : System) → IsConsistent s → IsConsistent (step (begin key size) s)
unfolding step begin_acquire has
begin-IsConsistent key (negsuc n) s c = c
begin-IsConsistent key (pos n) s c = elim (Option-cases (get key s.admission.requested_bytes)) [
  | inr (m, e) ↦ rw (e, step, begin_acquire, has) c
  | inl new ↦ elim (Option-cases (get key s.admission.reserved_bytes)) [
    | inr (m, e) ↦ rw (new, e, step, begin_acquire, has) c
    | inl free ↦ rw (new, free, step, begin_acquire, has) (enqueue-IsConsistent key n s new free c)
  ]
]

runs-IsConsistent :
    (key : String) (free now : ℕ) (s : System)
    → IsConsistent s
    → IsConsistent (step (runs key free now) s)
unfolding step
runs-IsConsistent key free now s c = elim (Option-cases (get key s.acquirers)) [
  | inl none_here ↦ rw (none_here, step) c
  | inr (q, h) ↦ elim (Bool-cases (elem key s.admission.wakeup_waiters)) [
    | inl sleeps ↦ rw (h, step) (rw sleeps c)
    | inr awake ↦
        rw (h, step)
          (rw awake (
            round_cases (λ out. IsConsistent (after_round key q out s)) key q.required_bytes
              q.over_capacity_since free now s.admission (admit-IsConsistent key q s h c)
              (λ since. sleep-IsConsistent key q since s h c)
              (λ e. unfold after_round in leave-IsConsistent key q s h c)
              (rw c.queue (elem-keys key q s.acquirers h))))
  ]
]

cancel-IsConsistent :
    (key : String) (s : System) → IsConsistent s → IsConsistent (step (cancel key) s)
unfolding step
cancel-IsConsistent key s c = elim (Option-cases (get key s.acquirers)) [
  | inl none_here ↦ rw (none_here, step) c
  | inr (q, h) ↦ rw (h, step) (leave-IsConsistent key q s h c)
]

returned-IsConsistent :
    (s : System) (out : List DiskReservation × Admission)
    → IsConsistent s
    → GaveBack s.admission s.reservations out
    → IsConsistent (record s { admission = out.1; reservations = out.0 })
returned-IsConsistent s out c (nothing e) = rw e c
returned-IsConsistent s out c (entry k m e b) = rw e (
    unfold release in
    record {
      requests = c.requests;
      queue = c.queue;
      distinct = c.distinct;
      held = ap (pop k) c.held ∙ sym b;
      owners =
          rw (b, keys-pop k (book s.reservations) c.owners)
            (erase-Distinct k (keys (book s.reservations)) c.owners);
      apart = λ j p g. rw b (ground (arith, get-pop k j (book s.reservations), c.apart j p));
    })

step-IsConsistent : (e : Event) (s : System) → IsConsistent s → IsConsistent (step e s)
unfolding step
step-IsConsistent (begin key size) s c = begin-IsConsistent key size s c
step-IsConsistent (runs key free now) s c = runs-IsConsistent key free now s c
step-IsConsistent (timer key) s c =
    unfold resolve_waiter in
    record {
      requests = c.requests;
      queue = c.queue;
      distinct = c.distinct;
      held = c.held;
      owners = c.owners;
      apart = c.apart;
    }
step-IsConsistent (cancel key) s c = cancel-IsConsistent key s c
step-IsConsistent (gives_back i) s c =
    returned-IsConsistent s (give_back i s.reservations s.admission) c
      (give_back-GaveBack i s.admission s.reservations c.owners)
step-IsConsistent notify s c =
    unfold notify_space_changed in
    record {
      requests = c.requests;
      queue = c.queue;
      distinct = c.distinct;
      held = c.held;
      owners = c.owners;
      apart = c.apart;
    }

-- From books that are right, whatever calls, rounds, timers, cancellations and releases have
-- run, the books of the admission are those of the coroutines and objects that are left: the
-- requests and the queue are the running acquires in order, the reserved bytes are the
-- unreleased reservation objects, no key stands twice, and none both waits and holds.
pub run-IsConsistent : (es : List Event) (s : System) → IsConsistent s → IsConsistent (run es s)
unfolding run
run-IsConsistent [] s c = c
run-IsConsistent (e ∷ es) s c = run-IsConsistent es (step e s) (step-IsConsistent e s c)

-- A cancelled acquire leaves nothing: requesting and then cancelling gives back the system as it was,
-- but for the other sleepers, who are woken.
pub cancel-begin :
    (key : String) (n : ℕ) (s : System)
    → IsConsistent s
    → get key s.acquirers ≡ none
    → get key (book s.reservations) ≡ none
    → step (cancel key) (step (begin key (pos n)) s)
      ≡ record s { admission = record s.admission { wakeup_waiters = [] } }
unfolding step begin_acquire abandon has
cancel-begin key n s c new free = ground (
  arith,
  get-sizes-none key s.acquirers,
  get-put key key fresh s.acquirers,
  ==_refl key,
  pop-put_new key fresh s.acquirers,
  pop-put_new key n s.admission.requested_bytes,
  keys-sizes s.acquirers,
  elem-get key s.acquirers,
  elem-get key (book s.reservations),
  pop_absent key (book s.reservations),
  erase-append_last key s.admission.waiting,
)
  where
    fresh : Acquirer
    fresh = record { required_bytes = n; over_capacity_since = none }
