-- ===== src/Gate/Steps.antt =====
-- The counters of the gate are exact, and a scan excludes active downloads.
use telegram_media_downloade.Prelude.{
  ℕ, ◌+◌, ◌≡◌, inl, inr, refl, Bool, true, false, not, some, List, [], ◌∷◌, count, to_nat, ap,
  arith, Option-cases, get_elem?, erase_idx, count-set, count-erase_idx, count-append_one,
}
use telegram_media_downloade.Gate.{
  waiting, active, released, DownloadIntent, ReleaseTask, release_download, release_scan,
  TelegramActivityGate, new_gate, register_download_intent, activate_intent, activate_download,
  interrupt_intent, interrupt_activation, release_intent, release_intent_at, acquire_scan,
  release_permit, complete_release, run_release, run_scheduled, scan_is_free, Event, registers,
  activates, interrupts, releases, scans, ends_scan, runs_release, step, run,
}

abbrev pub is_waiting : DownloadIntent → Bool
is_waiting d = elim d.state [ waiting ↦ true | _ ↦ false ]

abbrev pub is_active : DownloadIntent → Bool
is_active d = elim d.state [ active ↦ true | _ ↦ false ]

abbrev pub frees_waiting : ReleaseTask → Bool
frees_waiting (release_download i waiting) = true
frees_waiting _ = false

abbrev pub frees_active : ReleaseTask → Bool
frees_active (release_download i active) = true
frees_active _ = false

abbrev pub frees_scan : ReleaseTask → Bool
frees_scan release_scan = true
frees_scan _ = false

-- Each counter is the number of intents in that state and of their releases that have not run; the
-- scan flag is the number of permits that are held, or whose release has not run; and no download is
-- active beside a scan.
pub record IsExact (g : TelegramActivityGate) : Type 0 where
  pub waits : g.waiting_downloads ≡ count is_waiting g.intents + count frees_waiting g.scheduled
  pub runs : g.active_downloads ≡ count is_active g.intents + count frees_active g.scheduled
  pub scanning : to_nat g.scan_active ≡ count not g.permits + count frees_scan g.scheduled
  pub exclusive : g.scan_active ≡ true → g.active_downloads ≡ 0

register-IsExact : (g : TelegramActivityGate) → IsExact g → IsExact (register_download_intent g)
unfolding register_download_intent
register-IsExact g x = ground (
  arith,
  count-append_one is_waiting g.intents (record { state = waiting; release_complete = false }),
  count-append_one is_active g.intents (record { state = waiting; release_complete = false }),
  x.exclusive,
)

module _ (i : ℕ) (intent : DownloadIntent) (g : TelegramActivityGate)
    (h : get_elem? g.intents i ≡ some intent) (x : IsExact g) where
  activate_intent-IsExact : IsExact (activate_intent i intent g).1
  unfolding activate_intent
  activate_intent-IsExact = ground (
    arith,
    count-set is_waiting g.intents i intent (record intent { state = active }),
    count-set is_active g.intents i intent (record intent { state = active }),
    x.exclusive,
  )

  interrupt_intent-IsExact : IsExact (interrupt_intent i intent g)
  unfolding interrupt_intent
  interrupt_intent-IsExact = ground (
    arith,
    count-set is_waiting g.intents i intent (record { state = released; release_complete = true }),
    count-set is_active g.intents i intent (record { state = released; release_complete = true }),
    x.exclusive,
  )

  release_intent-IsExact : IsExact (release_intent i intent g)
  unfolding release_intent
  release_intent-IsExact = ground (
    arith,
    count-set is_waiting g.intents i intent (record intent { state = released }),
    count-set is_active g.intents i intent (record intent { state = released }),
    count-append_one frees_waiting g.scheduled (release_download i intent.state),
    count-append_one frees_active g.scheduled (release_download i intent.state),
    count-append_one frees_scan g.scheduled (release_download i intent.state),
    x.exclusive,
  )

module _ (i : ℕ) (g : TelegramActivityGate) (x : IsExact g) where
  activate_download-IsExact : IsExact (activate_download i g).1
  unfolding activate_download
  activate_download-IsExact = elim (Option-cases (get_elem? g.intents i)) [
    | inl e ↦ rw (e, activate_download) x
    | inr (d, e) ↦ rw (e, activate_download) (activate_intent-IsExact i d g e x)
  ]

  interrupt_activation-IsExact : IsExact (interrupt_activation i g)
  unfolding interrupt_activation
  interrupt_activation-IsExact = elim (Option-cases (get_elem? g.intents i)) [
    | inl e ↦ rw (e, interrupt_activation) x
    | inr (d, e) ↦ rw (e, interrupt_activation) (interrupt_intent-IsExact i d g e x)
  ]

  release_intent_at-IsExact : IsExact (release_intent_at i g)
  unfolding release_intent_at
  release_intent_at-IsExact = elim (Option-cases (get_elem? g.intents i)) [
    | inl e ↦ rw (e, release_intent_at) x
    | inr (d, e) ↦ rw (e, release_intent_at) (release_intent-IsExact i d g e x)
  ]

  release_permit-IsExact : IsExact (release_permit i g)
  unfolding release_permit
  release_permit-IsExact = ground (
    arith,
    count-set not g.permits i false true,
    count-append_one frees_waiting g.scheduled release_scan,
    count-append_one frees_active g.scheduled release_scan,
    count-append_one frees_scan g.scheduled release_scan,
    x.exclusive,
  )

acquire_scan-IsExact : (g : TelegramActivityGate) → IsExact g → IsExact (acquire_scan g).1
unfolding acquire_scan scan_is_free
acquire_scan-IsExact g x = ground (arith, count-append_one not g.permits false, x.exclusive)

-- A release that completes leaves every state as it is.
count-complete_release :
    (p : DownloadIntent → Bool) (i : ℕ) (ds : List DownloadIntent)
    → ((d : DownloadIntent) → p (record d { release_complete = true }) ≡ p d)
    → count p (complete_release i ds) ≡ count p ds
count-complete_release p i ds same = elim (Option-cases (get_elem? ds i)) [
  | inl e ↦ rw (e, complete_release) refl
  | inr (d, e) ↦
      rw (e, complete_release)
        (omega
          (arith, count-set p ds i d (record d { release_complete = true }) e, ap to_nat (same d)))
]

waiting-complete_release :
    (i : ℕ) (ds : List DownloadIntent)
    → count is_waiting (complete_release i ds) ≡ count is_waiting ds
waiting-complete_release i ds = count-complete_release is_waiting i ds (λ d. refl)

active-complete_release :
    (i : ℕ) (ds : List DownloadIntent)
    → count is_active (complete_release i ds) ≡ count is_active ds
active-complete_release i ds = count-complete_release is_active i ds (λ d. refl)

run_release-IsExact :
    (j : ℕ) (task : ReleaseTask) (g : TelegramActivityGate)
    → get_elem? g.scheduled j ≡ some task
    → IsExact g
    → IsExact (run_release task (record g { scheduled = erase_idx g.scheduled j }))
unfolding run_release
run_release-IsExact j (release_download i state) g h x = ground (
  arith,
  count-erase_idx frees_waiting g.scheduled j (release_download i state) h,
  count-erase_idx frees_active g.scheduled j (release_download i state) h,
  count-erase_idx frees_scan g.scheduled j (release_download i state) h,
  waiting-complete_release i g.intents,
  active-complete_release i g.intents,
  x.exclusive,
)
run_release-IsExact j release_scan g h x = ground (
  arith,
  count-erase_idx frees_waiting g.scheduled j release_scan h,
  count-erase_idx frees_active g.scheduled j release_scan h,
  count-erase_idx frees_scan g.scheduled j release_scan h,
  x.exclusive,
)

module _ (j : ℕ) (g : TelegramActivityGate) (x : IsExact g) where
  run_scheduled-IsExact : IsExact (run_scheduled j g)
  unfolding run_scheduled
  run_scheduled-IsExact = elim (Option-cases (get_elem? g.scheduled j)) [
    | inl e ↦ rw (e, run_scheduled) x
    | inr (t, e) ↦ rw (e, run_scheduled) (run_release-IsExact j t g e x)
  ]

step-IsExact : (e : Event) (g : TelegramActivityGate) → IsExact g → IsExact (step e g)
unfolding step
step-IsExact registers g x = register-IsExact g x
step-IsExact (activates i) g x = activate_download-IsExact i g x
step-IsExact (interrupts i) g x = interrupt_activation-IsExact i g x
step-IsExact (releases i) g x = release_intent_at-IsExact i g x
step-IsExact scans g x = acquire_scan-IsExact g x
step-IsExact (ends_scan i) g x = release_permit-IsExact i g x
step-IsExact (runs_release j) g x = run_scheduled-IsExact j g x

run-IsExact : (es : List Event) (g : TelegramActivityGate) → IsExact g → IsExact (run es g)
unfolding run
run-IsExact [] g x = x
run-IsExact (e ∷ es) g x = run-IsExact es (step e g) (step-IsExact e g x)

new_gate-IsExact : IsExact new_gate
new_gate-IsExact = record { waits = refl; runs = refl; scanning = refl; exclusive = λ h. refl }

-- After any events, in any order, the waiting and the active counter are exactly the intents in that
-- state and those whose release has not run yet, the scan flag is exactly the one permit that is
-- held or whose release has not run yet, and while a scan is active no download is active.
pub run-new_gate : (es : List Event) → IsExact (run es new_gate)
run-new_gate es = run-IsExact es new_gate new_gate-IsExact
