-- ===== src/Progress/Rate.antt =====
-- How many writes a run of reports for one file makes.
use telegram_media_downloade.Prelude.{
  ℕ, suc, ◌+◌, ◌*◌, ◌≤◌, ◌≡◌, ◌⊎◌, inl, inr, refl, ◌∙◌, true, false, none, some, String, List, [],
  ◌∷◌, arith, if◌then◌else◌, string_key, pair_key, Bool-cases, nat_beq_iff, subst, sym,
}
use telegram_media_downloade.Dict.{get, put, pop}
use telegram_media_downloade.Dict.Laws.{get-put_self, get-pop_self}
use telegram_media_downloade.Progress.{
  ProgressPersistence, Report, should_persist, begin_persist, leave, end_persist, finish_persist,
  persist_download,
}

-- The number of reports that are persisted, one after the other.
pub count_writes : List Report → ProgressPersistence → ℕ
count_writes [] p = 0
count_writes (r ∷ rs) p =
    let (written_now, q) = persist_download r p in
    let rest = count_writes rs q in if written_now then suc rest else rest

-- Reports for one file, none of them forced, whose times and sizes do not fall, from one time and size to
-- another.
abbrev pub IsGrowing : String × String → ℕ → ℕ → List Report → ℕ → ℕ → Type 0
IsGrowing key t b [] t_end b_end = (t ≤ t_end) × (b ≤ b_end)
IsGrowing key t b (r ∷ rs) t_end b_end =
    (r.key ≡ key)
    × (r.force ≡ false)
    × (t ≤ r.now)
    × (b ≤ r.downloaded_size)
    × IsGrowing key r.now r.downloaded_size rs t_end b_end

-- The file has a sample and no write under way.
pub record IsSampled (key : String × String) (t b : ℕ) (p : ProgressPersistence) : Type 0 where
  pub idle : get key p.inflight ≡ none
  pub sample : get key p.samples ≡ some (record { persisted_at = t; downloaded_size = b })

persist_suppressed :
    (r : Report) (t b : ℕ) (p : ProgressPersistence)
    → IsSampled r.key t b p
    → should_persist r p ≡ false
    → persist_download r p ≡ (false, p)
unfolding persist_download finish_persist begin_persist
persist_suppressed r t b p x h = rw (x.idle, begin_persist) (rw h refl)

-- The state after a report that is written.
abbrev written : Report → ProgressPersistence → ProgressPersistence
written r p =
    end_persist r p.next_event true
      (record p { inflight = put r.key p.next_event p.inflight; next_event = suc p.next_event })

persist_written :
    (r : Report) (t b : ℕ) (p : ProgressPersistence)
    → IsSampled r.key t b p
    → should_persist r p ≡ true
    → persist_download r p ≡ (true, written r p)
unfolding persist_download finish_persist begin_persist
persist_written r t b p x h = rw (x.idle, begin_persist) (rw h refl)

-- A write takes its own event out.
leave_own :
    (key : String × String) (event : ℕ) (p : ProgressPersistence)
    → get key p.inflight ≡ some event
    → leave key event p ≡ record p { inflight = pop key p.inflight }
unfolding leave
leave_own key event p h = rw (h, leave) (rw ((nat_beq_iff event event).1 refl) refl)

-- A write leaves its own sample, and nothing under way.
end_persist-IsSampled :
    (r : Report) (p : ProgressPersistence)
    → IsSampled r.key r.now r.downloaded_size (written r p)
      × ((written r p).min_interval_seconds ≡ p.min_interval_seconds)
      × ((written r p).min_byte_delta ≡ p.min_byte_delta)
unfolding end_persist
end_persist-IsSampled r p =
    rw
      (leave_own r.key p.next_event
        (record p {
          samples =
              put r.key (record { persisted_at = r.now; downloaded_size = r.downloaded_size })
                p.samples;
          inflight = put r.key p.next_event p.inflight;
          next_event = suc p.next_event;
        })
        (get-put_self r.key p.next_event p.inflight))
      (
        record {
          idle = get-pop_self r.key (put r.key p.next_event p.inflight);
          sample =
              get-put_self r.key
                (record { persisted_at = r.now; downloaded_size = r.downloaded_size }) p.samples;
        },
        refl,
        refl,
      )

-- An unforced report that is written is late enough, or large enough.
should_persist-gap :
    (r : Report) (t b : ℕ) (p : ProgressPersistence)
    → IsSampled r.key t b p
    → r.force ≡ false
    → b ≤ r.downloaded_size
    → should_persist r p ≡ true
    → (t + p.min_interval_seconds ≤ r.now) ⊎ (b + p.min_byte_delta ≤ r.downloaded_size)
unfolding should_persist
should_persist-gap r t b p x f grows h = ground (arith, x.sample)

-- The bound: writes that are paid by the time, and writes that are paid by the bytes.
abbrev pub IsPaid : ℕ → ℕ → ℕ → ℕ → ℕ → ℕ → ℕ → Type 0
IsPaid made interval delta t b t_end b_end =
    (by_time : ℕ) × (by_size : ℕ) × (made ≤ by_time + by_size)
    × (t + by_time * interval ≤ t_end)
    × (b + by_size * delta ≤ b_end)

IsPaid-more :
    (made interval delta t b t_end b_end now size : ℕ)
    → t ≤ now
    → b ≤ size
    → (t + interval ≤ now) ⊎ (b + delta ≤ size)
    → IsPaid made interval delta now size t_end b_end
    → IsPaid (suc made) interval delta t b t_end b_end
IsPaid-more made interval delta t b t_end b_end now size late large (inl gap) (k, l, h, i, j) =
    (suc k, l, omega (arith, h), ground (arith, i, gap), omega (arith, j, large))
IsPaid-more made interval delta t b t_end b_end now size late large (inr gap) (k, l, h, i, j) =
    (k, suc l, omega (arith, h), omega (arith, i, late), ground (arith, j, gap))

-- The induction, from the last sample.
module _ (key : String × String) (interval delta t_end b_end : ℕ) where
  count_writes-IsPaid :
      (rs : List Report) (s_at s_size t b : ℕ) (p : ProgressPersistence)
      → p.min_interval_seconds ≡ interval
      → p.min_byte_delta ≡ delta
      → s_at ≤ t
      → s_size ≤ b
      → IsSampled key s_at s_size p
      → IsGrowing key t b rs t_end b_end
      → IsPaid (count_writes rs p) interval delta s_at s_size t_end b_end
  unfolding count_writes
  count_writes-IsPaid [] s_at s_size t b p i d later larger x g =
      (0, 0, omega arith, omega (arith, later, g), omega (arith, larger, g))
  count_writes-IsPaid (r ∷ rs) s_at s_size t b p i d later larger x
        (same, unforced, late, large, g) =
      let here : IsSampled r.key s_at s_size p =
        subst (λ k. IsSampled k s_at s_size p) (sym same) x in
      let late_here : s_at ≤ r.now = omega (arith, later, late) in
      let large_here : s_size ≤ r.downloaded_size = omega (arith, larger, large) in
      elim (Bool-cases (should_persist r p)) [
        | inr no_write ↦ rw (persist_suppressed r s_at s_size p here no_write) (
            count_writes-IsPaid rs s_at s_size r.now r.downloaded_size p i d late_here large_here x
              g)
        | inl yes_write ↦
            let (after_write, same_interval, same_delta) = end_persist-IsSampled r p in
            let rest =
              count_writes-IsPaid rs r.now r.downloaded_size r.now r.downloaded_size (written r p)
                (same_interval ∙ i) (same_delta ∙ d) (omega arith) (omega arith)
                (subst (λ k. IsSampled k r.now r.downloaded_size (written r p)) same after_write)
                g in
            let gap = should_persist-gap r s_at s_size p here unforced large_here yes_write in
            rw (persist_written r s_at s_size p here yes_write) (
              IsPaid-more (count_writes rs (written r p)) interval delta s_at s_size t_end b_end
                r.now r.downloaded_size late_here large_here (rw (i, d) at gap) rest)
      ]

-- The rate limit: of unforced reports for one file whose times and sizes do not fall, one after
-- the other from a sample on, so many are written as can be paid by one interval of the time
-- that passes, or by one byte delta of the size that is added, for each write.
pub count_writes-bound :
    (key : String × String) (rs : List Report) (t b t_end b_end : ℕ) (p : ProgressPersistence)
    → IsSampled key t b p
    → IsGrowing key t b rs t_end b_end
    → IsPaid (count_writes rs p) p.min_interval_seconds p.min_byte_delta t b t_end b_end
count_writes-bound key rs t b t_end b_end p x g =
    count_writes-IsPaid key p.min_interval_seconds p.min_byte_delta t_end b_end rs t b t b p refl
      refl (omega arith) (omega arith) x g
