-- ===== src/Gate.antt =====
-- module/telegram_activity.py: `TelegramActivityGate`, which lets downloads run together and a scan only
-- alone. Everything runs on one event loop; a function is what runs between two awaits. The gate
-- is given with the intents and permits it handed out, by position, and with the release tasks that
-- `create_task` has scheduled and that have not run yet.
pub mod Steps
pub mod Runs
mod Tests
use telegram_media_downloade.Prelude.{
  ℕ, zero, suc, ◌+◌, ◌-◌, Bool, true, false, not, ◌&&◌, ◌||◌, Option, none, some, List, [], ◌∷◌,
  ◌++◌, nat_beq, ltb, if◌then◌else◌, get_elem?, set, erase_idx,
}

pub data IntentState : Type 0 where
  waiting active released : IntentState

-- `DownloadIntent`, with whether its `_release_complete` is resolved.
pub record DownloadIntent : Type 0 where
  pub state : IntentState
  pub release_complete : Bool

-- A scheduled `release_download` with the state that it releases, or `release_scan`.
pub data ReleaseTask : Type 0 where
  release_download : ℕ → IntentState → ReleaseTask
  release_scan : ReleaseTask

pub record TelegramActivityGate : Type 0 where
  pub waiting_downloads : ℕ
  pub active_downloads : ℕ
  pub scan_active : Bool
  pub intents : List DownloadIntent
  -- `ActivityPermit._released` of each permit
  pub permits : List Bool
  pub scheduled : List ReleaseTask

abbrev pub new_gate : TelegramActivityGate
new_gate = record {
  waiting_downloads = 0;
  active_downloads = 0;
  scan_active = false;
  intents = [];
  permits = [];
  scheduled = [];
}

unfoldable pub register_download_intent : TelegramActivityGate → TelegramActivityGate
register_download_intent g = record g {
  waiting_downloads = g.waiting_downloads + 1;
  intents = g.intents ++ record { state = waiting; release_complete = false } ∷ [];
}

-- How `activate()` goes on when it has the lock.
pub data Activation : Type 0 where
  activated asleep refused : Activation

unfoldable pub activate_intent :
    ℕ → DownloadIntent → TelegramActivityGate → Activation × TelegramActivityGate
activate_intent i intent g = elim intent.state [
  | active ↦ (activated, g)
  | released ↦ (refused, g)
  | waiting ↦ if g.scan_active then (asleep, g) else (
    activated,
    record g {
      waiting_downloads = g.waiting_downloads - 1;
      active_downloads = g.active_downloads + 1;
      intents = set g.intents i (record intent { state = active });
    },
  )
]

-- `_activate_download`, each time that it is let run: first, and whenever the condition is notified.
unfoldable pub activate_download : ℕ → TelegramActivityGate → Activation × TelegramActivityGate
unfolding activate_intent
activate_download i g = elim (get_elem? g.intents i) [
  | none ↦ (refused, g)
  | some intent ↦ activate_intent i intent g
]

unfoldable pub interrupt_intent : ℕ → DownloadIntent → TelegramActivityGate → TelegramActivityGate
interrupt_intent i intent g = elim intent.state [
  | waiting ↦ record g {
    waiting_downloads = g.waiting_downloads - 1;
    intents = set g.intents i (record { state = released; release_complete = true });
  }
  | _ ↦ g
]

-- The `except BaseException` of the wait in `_activate_download`.
unfoldable pub interrupt_activation : ℕ → TelegramActivityGate → TelegramActivityGate
unfolding interrupt_intent
interrupt_activation i g = elim (get_elem? g.intents i) [
  | none ↦ g
  | some intent ↦ interrupt_intent i intent g
]

unfoldable pub release_intent : ℕ → DownloadIntent → TelegramActivityGate → TelegramActivityGate
release_intent i intent g = elim intent.state [
  | released ↦ g
  | state ↦ record g {
    intents = set g.intents i (record intent { state = released });
    scheduled = g.scheduled ++ release_download i state ∷ [];
  }
]

-- `_release_download`, for `cancel()` and `release()` alike.
unfoldable pub release_intent_at : ℕ → TelegramActivityGate → TelegramActivityGate
unfolding release_intent
release_intent_at i g = elim (get_elem? g.intents i) [
  | none ↦ g
  | some intent ↦ release_intent i intent g
]

unfoldable pub scan_is_free : TelegramActivityGate → Bool
scan_is_free g =
    not g.scan_active && (nat_beq g.waiting_downloads 0 && nat_beq g.active_downloads 0)

-- `acquire_scan`, each time that it is let run: the permit, or it goes on sleeping.
unfoldable pub acquire_scan : TelegramActivityGate → Bool × TelegramActivityGate
unfolding scan_is_free
acquire_scan g =
    if scan_is_free g
    then (true, record g { scan_active = true; permits = g.permits ++ false ∷ [] })
    else (false, g)

-- `ActivityPermit.release` and `_release_scan`
unfoldable pub release_permit : ℕ → TelegramActivityGate → TelegramActivityGate
release_permit i g = elim (get_elem? g.permits i) [
  | none ↦ g
  | some true ↦ g
  | some false ↦
      let marked = record g { permits = set g.permits i true } in
      if g.scan_active
      then record marked { scheduled = g.scheduled ++ release_scan ∷ [] }
      else marked
]

-- `_release_complete.set_result(None)`
abbrev pub complete_release : ℕ → List DownloadIntent → List DownloadIntent
complete_release i intents = elim (get_elem? intents i) [
  | none ↦ intents
  | some intent ↦ set intents i (record intent { release_complete = true })
]

unfoldable pub run_release : ReleaseTask → TelegramActivityGate → TelegramActivityGate
run_release (release_download i waiting) g = record g {
  waiting_downloads = g.waiting_downloads - 1;
  intents = complete_release i g.intents;
}
run_release (release_download i active) g = record g {
  active_downloads = g.active_downloads - 1;
  intents = complete_release i g.intents;
}
run_release (release_download i released) g = record g { intents = complete_release i g.intents }
run_release release_scan g = record g { scan_active = false }

-- The loop runs one of the scheduled releases.
unfoldable pub run_scheduled : ℕ → TelegramActivityGate → TelegramActivityGate
unfolding run_release
run_scheduled j g = elim (get_elem? g.scheduled j) [
  | none ↦ g
  | some task ↦ run_release task (record g { scheduled = erase_idx g.scheduled j })
]

unfoldable pub has_download_activity : TelegramActivityGate → Bool
has_download_activity g = ltb 0 g.waiting_downloads || ltb 0 g.active_downloads

pub data Event : Type 0 where
  registers : Event
  activates interrupts releases : ℕ → Event
  scans : Event
  ends_scan : ℕ → Event
  runs_release : ℕ → Event

unfoldable pub step : Event → TelegramActivityGate → TelegramActivityGate
step registers g = register_download_intent g
step (activates i) g = (activate_download i g).1
step (interrupts i) g = interrupt_activation i g
step (releases i) g = release_intent_at i g
step scans g = (acquire_scan g).1
step (ends_scan i) g = release_permit i g
step (runs_release j) g = run_scheduled j g

unfoldable pub run : List Event → TelegramActivityGate → TelegramActivityGate
run [] g = g
run (e ∷ es) g = run es (step e g)
