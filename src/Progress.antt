-- ===== src/Progress.antt =====
-- module/progress_persistence.py, `ProgressPersistence`, which thins out the progress reports that reach
-- the task store, and module/transfer_progress.py, `TransferProgressTracker`. A report runs up to
-- its write in a thread, and goes on when the write is over; the writes that are under way stand
-- beside the state. Times and sizes are numbers; keys are pairs of texts.
pub mod Writers
pub mod Rate
pub mod Transfer
pub mod Results
mod Tests
use telegram_media_downloade.Prelude.{
  ℕ, suc, ◌+◌, ◌-◌, Bool, true, false, not, ◌&&◌, ◌||◌, Option, none, some, String, List, [], ◌∷◌,
  ◌++◌, ltb, leb, nat_beq, if◌then◌else◌, string_key, pair_key, get_elem?, erase_idx,
}
use telegram_media_downloade.Dict.{Dict, get, put, pop}

-- `_ProgressSample`
pub record ProgressSample : Type 0 where
  pub persisted_at : ℕ
  pub downloaded_size : ℕ

-- `_inflight` holds events; an event is its number.
pub record ProgressPersistence : Type 0 where
  pub min_interval_seconds : ℕ
  pub min_byte_delta : ℕ
  pub samples : Dict (String × String) ProgressSample
  pub inflight : Dict (String × String) ℕ
  pub next_event : ℕ

-- The arguments of `persist_download` that decide, and the clock.
pub record Report : Type 0 where
  pub key : String × String
  pub force : Bool
  pub downloaded_size : ℕ
  pub now : ℕ

-- `abs(a - b)`
abbrev pub distance : ℕ → ℕ → ℕ
distance a b = (a - b) + (b - a)

unfoldable pub should_persist : Report → ProgressPersistence → Bool
should_persist r p = elim (get r.key p.samples) [
  | none ↦ true
  | some previous ↦
      r.force
      || leb (previous.persisted_at + p.min_interval_seconds) r.now
      || leb p.min_byte_delta (distance r.downloaded_size previous.downloaded_size)
]

-- How a report goes on when it has the lock: it returns False, it waits for the write under way, or
-- it starts a write with its event.
pub data Start : Type 0 where
  suppressed waits : Start
  writes : ℕ → Start

unfoldable pub begin_persist : Report → ProgressPersistence → Start × ProgressPersistence
unfolding should_persist
begin_persist r p = elim (get r.key p.inflight) [
  | some event ↦ (if r.force then waits else suppressed, p)
  | none ↦
      if should_persist r p
      then (
        writes p.next_event,
        record p { inflight = put r.key p.next_event p.inflight; next_event = suc p.next_event },
      )
      else (suppressed, p)
]

-- `if self._inflight.get(key) is completion: self._inflight.pop(key, None)`
unfoldable pub leave : String × String → ℕ → ProgressPersistence → ProgressPersistence
leave key event p = elim (get key p.inflight) [
  | none ↦ p
  | some current ↦ if nat_beq current event then record p { inflight = pop key p.inflight } else p
]

-- After the write of a report, which was done or raised, or whose report was cancelled.
unfoldable pub end_persist : Report → ℕ → Bool → ProgressPersistence → ProgressPersistence
unfolding leave
end_persist r event done p = leave r.key event (
    if done
    then record p {
      samples =
          put r.key (record { persisted_at = r.now; downloaded_size = r.downloaded_size })
            p.samples;
    }
    else p)

unfoldable pub clear_sample : String × String → ProgressPersistence → ProgressPersistence
clear_sample key p = record p { samples = pop key p.samples }

-- The persistence with the writes under way, each with its event: those that a report awaits, and those
-- whose report was cancelled, which go on in their threads.
pub record Running : Type 0 where
  pub persistence : ProgressPersistence
  pub writers : List (Report × ℕ)
  pub orphans : List (Report × ℕ)

pub data Event : Type 0 where
  reports : Report → Event
  -- the write at a position ends, done or raised
  ends : ℕ → Bool → Event
  -- the report that awaits the write at a position is cancelled
  cancels : ℕ → Event
  -- a write whose report was cancelled ends
  orphan_ends : ℕ → Event
  clears : String × String → Event

unfoldable pub started : Report → Start → List (Report × ℕ) → List (Report × ℕ)
started r (writes event) ws = (r, event) ∷ ws
started r _ ws = ws

unfoldable pub step : Event → Running → Running
unfolding begin_persist started
step (reports r) s =
    let (start, p) = begin_persist r s.persistence in
    record s { persistence = p; writers = started r start s.writers }
step (ends i done) s = elim (get_elem? s.writers i) [
  | none ↦ s
  | some (r, event) ↦ record s {
    persistence = end_persist r event done s.persistence;
    writers = erase_idx s.writers i;
  }
]
step (cancels i) s = elim (get_elem? s.writers i) [
  | none ↦ s
  | some (r, event) ↦ record {
    persistence = end_persist r event false s.persistence;
    writers = erase_idx s.writers i;
    orphans = (r, event) ∷ s.orphans;
  }
]
step (orphan_ends i) s = record s { orphans = erase_idx s.orphans i }
step (clears key) s = record s { persistence = clear_sample key s.persistence }

unfoldable pub run : List Event → Running → Running
run [] s = s
run (e ∷ es) s = run es (step e s)

-- What follows a report with nothing else under way: its write, which is done.
unfoldable pub finish_persist : Report → Start × ProgressPersistence → Bool × ProgressPersistence
finish_persist r (writes event, p) = (true, end_persist r event true p)
finish_persist r (_, p) = (false, p)

-- `persist_download` from start to end.
unfoldable pub persist_download : Report → ProgressPersistence → Bool × ProgressPersistence
unfolding begin_persist finish_persist
persist_download r p = finish_persist r (begin_persist r p)
