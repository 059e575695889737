-- ===== src/Progress/Transfer.antt =====
-- module/transfer_progress.py, `TransferProgressTracker`: the last progress of each active transfer, and
-- the transfers that the watchdog cancelled. A key stands for its three texts.
use telegram_media_downloade.Prelude.{
  ℕ, ◌≡◌, inl, inr, Bool, true, false, Option, none, some, String, List, [], ◌∷◌, arith, ltb,
  if◌then◌else◌, string_key, Bool-cases, ==_refl, elem, erase, Distinct, elem-erase_self,
}
use telegram_media_downloade.Dict.{Dict, get, put, pop}
use telegram_media_downloade.Dict.Laws.{get-put_self}

pub record TransferProgressTracker : Type 0 where
  pub last_progress_at : Dict String ℕ
  pub downloaded_size : Dict String ℕ
  pub stalled : List String

unfoldable pub start : String → ℕ → TransferProgressTracker → TransferProgressTracker
start key now t = record {
  last_progress_at = put key now t.last_progress_at;
  downloaded_size = put key 0 t.downloaded_size;
  stalled = erase key t.stalled;
}

-- `downloaded_size > self._downloaded_size.get(key, -1)`
abbrev pub is_more : ℕ → Option ℕ → Bool
is_more size none = true
is_more size (some previous_size) = ltb previous_size size

unfoldable pub observe : String → ℕ → ℕ → TransferProgressTracker → TransferProgressTracker
observe key size now t =
    if is_more size (get key t.downloaded_size)
    then record t {
      downloaded_size = put key size t.downloaded_size;
      last_progress_at = put key now t.last_progress_at;
    }
    else t

unfoldable pub mark_stalled : String → TransferProgressTracker → TransferProgressTracker
mark_stalled key t = if elem key t.stalled then t else record t { stalled = key ∷ t.stalled }

unfoldable pub consume_stalled : String → TransferProgressTracker → Bool × TransferProgressTracker
consume_stalled key t =
    if elem key t.stalled then (true, record t { stalled = erase key t.stalled }) else (false, t)

unfoldable pub clear_transfer : String → TransferProgressTracker → TransferProgressTracker
clear_transfer key t = record {
  last_progress_at = pop key t.last_progress_at;
  downloaded_size = pop key t.downloaded_size;
  stalled = erase key t.stalled;
}

-- The callbacks of one transfer, each with its size and its time.
unfoldable pub observe_all :
    String → List (ℕ × ℕ) → TransferProgressTracker → TransferProgressTracker
unfolding observe
observe_all key [] t = t
observe_all key ((size, now) ∷ os) t = observe_all key os (observe key size now t)

-- The largest size, and the time at which it was first seen.
abbrev pub peak : ℕ → ℕ → List (ℕ × ℕ) → ℕ × ℕ
peak size now [] = (size, now)
peak size now ((s, n) ∷ os) =
    peak (if ltb size s then s else size) (if ltb size s then n else now) os

module _ (key : String) where
  observe_one :
      (s n size now : ℕ) (t : TransferProgressTracker)
      → get key t.downloaded_size ≡ some size
      → get key t.last_progress_at ≡ some now
      → (get key (observe key s n t).downloaded_size ≡ some (if ltb size s then s else size))
        × (get key (observe key s n t).last_progress_at ≡ some (if ltb size s then n else now))
  unfolding observe
  observe_one s n size now t h i =
      rw (h, observe)
        (elim (Bool-cases (ltb size s)) [
          | inl more ↦
              rw more (get-put_self key s t.downloaded_size, get-put_self key n t.last_progress_at)
          | inr same ↦ rw same (h, i)
        ])

  observe_all-from :
      (os : List (ℕ × ℕ)) (size now : ℕ) (t : TransferProgressTracker)
      → get key t.downloaded_size ≡ some size
      → get key t.last_progress_at ≡ some now
      → (get key (observe_all key os t).downloaded_size ≡ some (peak size now os).0)
        × (get key (observe_all key os t).last_progress_at ≡ some (peak size now os).1)
  unfolding observe_all
  observe_all-from [] size now t h i = (h, i)
  observe_all-from ((s, n) ∷ os) size now t h i =
      let (size_next, now_next) = observe_one s n size now t h i in
      observe_all-from os _ _ (observe key s n t) size_next now_next

  -- From its start, a transfer shows the largest size that was observed, and as its last progress the
  -- time when that size was first observed: callbacks that repeat a size, or are late, do not
  -- count as progress for the watchdog.
  observe_all-start :
      (os : List (ℕ × ℕ)) (now : ℕ) (t : TransferProgressTracker)
      → (get key (observe_all key os (start key now t)).downloaded_size ≡ some (peak 0 now os).0)
        × (get key (observe_all key os (start key now t)).last_progress_at ≡ some (peak 0 now os).1)
  unfolding start
  observe_all-start os now t =
      observe_all-from os 0 now (start key now t) (get-put_self key 0 t.downloaded_size)
        (get-put_self key now t.last_progress_at)

  -- A stall is consumed once: where no transfer is marked twice, the first question for a marked
  -- transfer says yes and the next one no, and after a new start or a clearing the answer is no,
  -- whatever was marked before.
  pub consume_stalled-once :
      (now : ℕ) (t : TransferProgressTracker)
      → Distinct t.stalled
      → ((consume_stalled key (mark_stalled key t)).0 ≡ true)
        × ((consume_stalled key (consume_stalled key (mark_stalled key t)).1).0 ≡ false)
        × ((consume_stalled key (start key now t)).0 ≡ false)
        × ((consume_stalled key (clear_transfer key t)).0 ≡ false)
  unfolding consume_stalled mark_stalled start clear_transfer
  consume_stalled-once now t d = ground (arith, elem-erase_self key t.stalled d, ==_refl key)
