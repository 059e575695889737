-- ===== src/Gate/Tests.antt =====
-- Runs of the gate at concrete events.
use telegram_media_downloade.Prelude.{◌≡◌, refl, false, true, List, [], ◌∷◌, arith}
use telegram_media_downloade.Gate.{
  Event, registers, activates, releases, scans, ends_scan, runs_release, waiting, run, new_gate,
  acquire_scan, activate_download, register_download_intent, activated, step, activate_intent,
  release_intent_at, release_intent, run_scheduled, run_release, scan_is_free, release_permit,
}
use telegram_media_downloade.Gate.Steps.{IsExact, run-new_gate}
use telegram_media_downloade.Gate.Runs.{quiet-admits, acquire_scan_waits}

-- Two downloads, a scan that has to wait, and a release that has not run yet.
abbrev busy : List Event
busy = registers ∷ activates 0 ∷ registers ∷ scans ∷ releases 0 ∷ []

run-new_gate_example : IsExact (run busy new_gate)
run-new_gate_example = run-new_gate busy

-- A download and a scan, from start to end.
abbrev served : List Event
served =
    registers
    ∷ activates 0
    ∷ releases 0
    ∷ runs_release 0
    ∷ scans
    ∷ ends_scan 0
    ∷ runs_release 0
    ∷ []

quiet-admits_example :
    ((acquire_scan (run served new_gate)).0 ≡ true)
    × ((activate_download 1 (register_download_intent (run served new_gate))).0 ≡ activated)
unfolding run step activate_download activate_intent register_download_intent release_intent_at
    release_intent run_scheduled run_release acquire_scan scan_is_free release_permit
quiet-admits_example =
    quiet-admits served
      (record { no_waiting = refl; no_active = refl; no_permit = refl; no_release = refl })

acquire_scan_waits_example : acquire_scan (run busy new_gate) ≡ (false, run busy new_gate)
unfolding run step activate_download activate_intent register_download_intent release_intent_at
    release_intent run_scheduled run_release acquire_scan scan_is_free release_permit
acquire_scan_waits_example =
    acquire_scan_waits busy 1 (record { state = waiting; release_complete = false }) refl
      (λ e. ground arith)
