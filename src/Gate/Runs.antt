-- ===== src/Gate/Runs.antt =====
-- Which activations and scans a gate admits after any events.
use telegram_media_downloade.Prelude.{
  ℕ, ◌≡◌, ◌≢◌, true, false, not, some, List, [], count, ap, arith, get_elem?, get_elem?-append_last,
  count-set, length,
}
use telegram_media_downloade.Gate.{
  waiting, released, DownloadIntent, TelegramActivityGate, new_gate, register_download_intent,
  activate_intent, activate_download, acquire_scan, scan_is_free, activated, Event, run,
}
use telegram_media_downloade.Gate.Steps.{
  IsExact, is_waiting, is_active, frees_waiting, frees_active, frees_scan, run-new_gate,
}

-- Everyone is done: no intent waits or is active, no permit is held, and no release is scheduled.
pub record IsQuiet (g : TelegramActivityGate) : Type 0 where
  pub no_waiting : count is_waiting g.intents ≡ 0
  pub no_active : count is_active g.intents ≡ 0
  pub no_permit : count not g.permits ≡ 0
  pub no_release : g.scheduled ≡ []

quiet_counters :
    (g : TelegramActivityGate)
    → IsExact g
    → IsQuiet g
    → (g.waiting_downloads ≡ 0) × (g.active_downloads ≡ 0) × (g.scan_active ≡ false)
quiet_counters g x q = ground (
  arith,
  x,
  q,
  ap (count frees_waiting) q.no_release,
  ap (count frees_active) q.no_release,
  ap (count frees_scan) q.no_release,
)

-- Whatever has happened before, once everyone is done (no intent waits or is active, no permit is
-- held, no release is scheduled) the gate is free: a scan gets its permit at once, and a download
-- that registers is activated at its first attempt.
pub quiet-admits :
    (es : List Event)
    → IsQuiet (run es new_gate)
    → ((acquire_scan (run es new_gate)).0 ≡ true)
      × ((activate_download
            (length (run es new_gate).intents)
            (register_download_intent (run es new_gate))).0
          ≡ activated)
unfolding acquire_scan scan_is_free activate_download activate_intent register_download_intent
quiet-admits es q =
    let free = quiet_counters (run es new_gate) (run-new_gate es) q in
    ground (
      arith,
      free,
      get_elem?-append_last (run es new_gate).intents
          (record { state = waiting; release_complete = false }),
    )

-- After any events, while some registered download has not been released, no scan starts, and the
-- attempt changes nothing.
pub acquire_scan_waits :
    (es : List Event) (i : ℕ) (d : DownloadIntent)
    → get_elem? (run es new_gate).intents i ≡ some d
    → d.state ≢ released
    → acquire_scan (run es new_gate) ≡ (false, run es new_gate)
unfolding acquire_scan scan_is_free
acquire_scan_waits es i d h n =
    let x = run-new_gate es in
    let g = run es new_gate in
    ground (
      arith,
      x,
      count-set is_waiting g.intents i d (record d { state = released }) h,
      count-set is_active g.intents i d (record d { state = released }) h,
    )
