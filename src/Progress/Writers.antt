-- ===== src/Progress/Writers.antt =====
-- The writes of a file's progress that are under way.
use telegram_media_downloade.Prelude.{
  ℕ, zero, suc, ◌≡◌, inl, inr, refl, ◌∙◌, sym, Bool, true, false, Option, none, some, String, List,
  [], ◌∷◌, arith, if◌then◌else◌, ◌==◌, ==_iff, ==_refl, string_key, pair_key, Option-cases,
  Bool-cases, get_elem?, erase_idx,
}
use telegram_media_downloade.Dict.{get, put}
use telegram_media_downloade.Dict.Laws.{get-put, get-pop}
use telegram_media_downloade.Progress.{
  ProgressPersistence, Report, should_persist, suppressed, waits, begin_persist, leave, end_persist,
  clear_sample, Running, Event, reports, ends, cancels, orphan_ends, clears, started, step, run,
}

-- The event that the first writer of a file set, among the writes under way.
abbrev pub writer_of : String × String → List (Report × ℕ) → Option ℕ
writer_of key [] = none
writer_of key ((r, event) ∷ ws) = if r.key == key then some event else writer_of key ws

-- No two writes are for one file.
abbrev pub IsExclusive : List (Report × ℕ) → Type 0
IsExclusive [] = Unit
IsExclusive ((r, event) ∷ ws) = (writer_of r.key ws ≡ none) × IsExclusive ws

-- The table of writes in flight is that of the awaited writes, with at most one for a file.
pub record IsSound (s : Running) : Type 0 where
  pub exclusive : IsExclusive s.writers
  pub agrees : (key : String × String) → get key s.persistence.inflight ≡ writer_of key s.writers

module _ (r : Report) (event : ℕ) where
  writer_of-get :
      (ws : List (Report × ℕ)) (i : ℕ)
      → get_elem? ws i ≡ some (r, event)
      → IsExclusive ws
      → writer_of r.key ws ≡ some event
  writer_of-get [] i h x = ground arith
  writer_of-get ((q, e) ∷ ws) zero h x = ground (arith, ==_refl r.key)
  writer_of-get ((q, e) ∷ ws) (suc i) h x =
      ground (arith, writer_of-get ws i h x.1, ==_iff q.key r.key)

  writer_of-erase_idx :
      (ws : List (Report × ℕ)) (i : ℕ) (key : String × String)
      → get_elem? ws i ≡ some (r, event)
      → IsExclusive ws
      → writer_of key (erase_idx ws i) ≡ (if r.key == key then none else writer_of key ws)
  writer_of-erase_idx [] i key h x = ground arith
  writer_of-erase_idx ((q, e) ∷ ws) zero key h x = ground (arith, ==_iff r.key key)
  writer_of-erase_idx ((q, e) ∷ ws) (suc i) key h x = ground (
    arith,
    writer_of-erase_idx ws i key h x.1,
    writer_of-get ws i h x.1,
    ==_iff q.key key,
    ==_iff r.key key,
  )

  IsExclusive-erase_idx :
      (ws : List (Report × ℕ)) (i : ℕ)
      → get_elem? ws i ≡ some (r, event)
      → IsExclusive ws
      → IsExclusive (erase_idx ws i)
  IsExclusive-erase_idx [] i h x = tt
  IsExclusive-erase_idx ((q, e) ∷ ws) zero h x = x.1
  IsExclusive-erase_idx ((q, e) ∷ ws) (suc i) h x =
      ground (arith, IsExclusive-erase_idx ws i h x.1, writer_of-erase_idx ws i q.key h x.1)

leave-inflight :
    (key : String × String) (event : ℕ) (p : ProgressPersistence) (j : String × String)
    → get key p.inflight ≡ some event
    → get j (leave key event p).inflight ≡ (if key == j then none else get j p.inflight)
unfolding leave
leave-inflight key event p j h = rw (h, leave) (ground (arith, get-pop key j p.inflight))

end_persist-inflight :
    (r : Report) (event : ℕ) (done : Bool) (p : ProgressPersistence) (j : String × String)
    → get r.key p.inflight ≡ some event
    → get j (end_persist r event done p).inflight ≡ (if r.key == j then none else get j p.inflight)
unfolding end_persist
end_persist-inflight r event true p j h = leave-inflight r.key event _ j h
end_persist-inflight r event false p j h = leave-inflight r.key event p j h

-- A report that waits or is suppressed starts no write.
started_no_write :
    (b : Bool) (r : Report) (ws : List (Report × ℕ))
    → started r (if b then waits else suppressed) ws ≡ ws
unfolding started
started_no_write true r ws = refl
started_no_write false r ws = refl

new_writer-IsSound :
    (r : Report) (s : Running)
    → IsSound s
    → get r.key s.persistence.inflight ≡ none
    → IsSound (record s {
      persistence = record s.persistence {
        inflight = put r.key s.persistence.next_event s.persistence.inflight;
        next_event = suc s.persistence.next_event;
      };
      writers = (r, s.persistence.next_event) ∷ s.writers;
    })
new_writer-IsSound r s x free = record {
  exclusive = (sym (x.agrees r.key) ∙ free, x.exclusive);
  agrees = λ key.
      ground
        (arith, get-put r.key key s.persistence.next_event s.persistence.inflight, x.agrees key);
}

begin_persist-IsSound : (r : Report) (s : Running) → IsSound s → IsSound (step (reports r) s)
unfolding step begin_persist started
begin_persist-IsSound r s x = elim (Option-cases (get r.key s.persistence.inflight)) [
  | inr (event, e) ↦
      rw (e, begin_persist)
        (record {
          exclusive = rw (started_no_write r.force r s.writers) x.exclusive;
          agrees = λ key. rw (started_no_write r.force r s.writers) (x.agrees key);
        })
  | inl e ↦ elim (Bool-cases (should_persist r s.persistence)) [
    | inl yes_write ↦ rw (e, begin_persist) (rw yes_write (new_writer-IsSound r s x e))
    | inr no_write ↦ rw (e, begin_persist) (rw no_write x)
  ]
]

end_persist-IsSound :
    (r : Report) (event i : ℕ) (done : Bool) (orphans : List (Report × ℕ)) (s : Running)
    → get_elem? s.writers i ≡ some (r, event)
    → IsSound s
    → IsSound (record {
      persistence = end_persist r event done s.persistence;
      writers = erase_idx s.writers i;
      orphans = orphans;
    })
end_persist-IsSound r event i done orphans s h x = record {
  exclusive = IsExclusive-erase_idx r event s.writers i h x.exclusive;
  agrees = λ key. ground (
    arith,
    x.agrees key,
    end_persist-inflight r event done s.persistence key
        (x.agrees r.key ∙ writer_of-get r event s.writers i h x.exclusive),
    writer_of-erase_idx r event s.writers i key h x.exclusive,
  );
}

step-IsSound : (e : Event) (s : Running) → IsSound s → IsSound (step e s)
unfolding step clear_sample
step-IsSound (reports r) s x = begin_persist-IsSound r s x
step-IsSound (clears key) s x = record { exclusive = x.exclusive; agrees = x.agrees }
step-IsSound (ends i done) s x = elim (Option-cases (get_elem? s.writers i)) [
  | inl e ↦ rw (e, step) x
  | inr ((r, event), e) ↦ rw (e, step) (end_persist-IsSound r event i done s.orphans s e x)
]
step-IsSound (cancels i) s x = elim (Option-cases (get_elem? s.writers i)) [
  | inl e ↦ rw (e, step) x
  | inr ((r, event), e) ↦
      rw (e, step) (end_persist-IsSound r event i false ((r, event) ∷ s.orphans) s e x)
]
step-IsSound (orphan_ends i) s x = record { exclusive = x.exclusive; agrees = x.agrees }

-- From a state where this holds, whatever reports, ended or failed writes, cancelled reports and
-- clearings come: no two reports await a write for one file, and the table of writes in flight holds
-- exactly the awaited ones, so that neither a failed write nor a cancelled report leaves a file blocked.
-- The write of a cancelled report, which goes on in its thread, is not among them.
pub run-IsSound : (es : List Event) (s : Running) → IsSound s → IsSound (run es s)
unfolding run
run-IsSound [] s x = x
run-IsSound (e ∷ es) s x = run-IsSound es (step e s) (step-IsSound e s x)

-- When a report is cancelled while its write is under way, and another report for the same file comes
-- that is due, by its force, its time or its size, then two writes for that file are under way: the one
-- of the cancelled report, in its thread, and the new one.
pub cancels-overlaps :
    (i event : ℕ) (r q : Report) (s : Running)
    → IsSound s
    → get_elem? s.writers i ≡ some (r, event)
    → q.key ≡ r.key
    → should_persist q (step (cancels i) s).persistence ≡ true
    → ((step (reports q) (step (cancels i) s)).orphans ≡ (r, event) ∷ s.orphans)
      × ((step (reports q) (step (cancels i) s)).writers
          ≡ (q, (step (cancels i) s).persistence.next_event) ∷ erase_idx s.writers i)
unfolding step begin_persist started
cancels-overlaps i event r q s x h k f =
    let awaited : get r.key s.persistence.inflight ≡ some event =
      x.agrees r.key ∙ writer_of-get r event s.writers i h x.exclusive in
    let free : get q.key (end_persist r event false s.persistence).inflight ≡ none =
      end_persist-inflight r event false s.persistence q.key awaited ∙ rw (k, ==_refl r.key) refl in
    let due : should_persist q (end_persist r event false s.persistence) ≡ true =
      rw (h, step) at f in
    rw (h, step) (ground (arith, free, due))
