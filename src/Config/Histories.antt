-- ===== src/Config/Histories.antt =====
-- Writes and recoveries of a pair of files, one after the other, each of them with its own failures and deaths.
use telegram_media_downloade.Prelude.{
  ◌≡◌, ◌≢◌, refl, Bool, true, none, some, String, string_key, subst, sym, List, [], ◌∷◌, ◌⊎◌, inl,
  inr, All,
}
use telegram_media_downloade.Config.Names.{IsDrawn}
use telegram_media_downloade.Config.{
  Paths, Disk, Fate, World, PairError, Outcome, returns, recover_yaml_pair, atomic_write_yaml_pair,
}
use telegram_media_downloade.Config.Rules.{IsAhead, Ensures, on_return, on_raise, on_death}
use telegram_media_downloade.Config.Views.{Contents, texts, on_disk, IsSettled, Shows, settled}
use telegram_media_downloade.Config.Recovery.{recover_yaml_pair-Shows}
use telegram_media_downloade.Config.Writes.{generation, atomic_write_yaml_pair-IsOldOrNew}

-- The stage and the text of each file, or a recovery at the start of the application.
pub data Attempt : Type 0 where
  writes : String → String → String → String → List Fate → Attempt
  recovers : List Fate → Attempt

abbrev pub on : Disk → List Fate → World
on d fates = record { disk = d; fates = fates; syncs = true }

-- One of the writes has these texts.
pub data IsWritten (c : Contents) : List Attempt → Type 0 where
  here :
      (a text_a b text_b : String) (fates : List Fate) (attempts : List Attempt)
      → c ≡ record { first = some text_a; second = some text_b }
      → IsWritten c (writes a text_a b text_b fates ∷ attempts)
  later :
      (x : Attempt) (attempts : List Attempt) → IsWritten c attempts → IsWritten c (x ∷ attempts)

module _ {A : Type 0} {Calm : Type 0} {Q : A → Disk → Type 0} {E : PairError → Disk → Type 0}
    {D : Disk → Type 0} where
  Ensures-end :
      (P : Disk → Type 0) (r : Outcome A × World)
      → Ensures Calm Q E D r
      → ((a : A) (d : Disk) → Q a d → P d)
      → ((e : PairError) (d : Disk) → E e d → P d)
      → ((d : Disk) → D d → P d)
      → P r.1.disk
  Ensures-end P r (on_return a w c q) f g h = f a w.disk q
  Ensures-end P r (on_raise e w c n q) f g h = g e w.disk q
  Ensures-end P r (on_death w n q) f g h = h w.disk q

module _ (hash : String → String) (paths : Paths) where
  unfoldable pub after : Attempt → Disk → Disk
  after (writes a text_a b text_b fates) d =
      (atomic_write_yaml_pair hash paths a text_a b text_b (on d fates)).1.disk
  after (recovers fates) d = (recover_yaml_pair hash paths (on d fates)).1.disk

  unfoldable pub run : List Attempt → Disk → Disk
  run [] d = d
  run (x ∷ attempts) d = run attempts (after x d)

  -- The stages of a write have the names of two files that mkstemp makes.
  abbrev pub IsNamed : Attempt → Type 0
  IsNamed (writes a text_a b text_b fates) =
      IsDrawn paths.pathlib paths.first a × IsDrawn paths.pathlib paths.second b × (a ≢ b)
  IsNamed (recovers fates) = Unit

  ahead : (d : Disk) (fates : List Fate) → IsAhead (fates ≡ []) (on d fates)
  ahead d fates = record { calm = λ e. e; syncs = refl }

  after-Shows :
      (x : Attempt) (c : Contents) (d : Disk)
      → IsNamed x
      → Shows hash paths c d
      → Shows hash paths c (after x d)
        ⊎ ((k : Contents) × IsWritten k (x ∷ []) × Shows hash paths k (after x d))
  unfolding after
  after-Shows (writes a text_a b text_b fates) c d (p, q, n) s =
      let new : Contents = texts (generation hash a text_a b text_b) in
      let found : IsWritten new (writes a text_a b text_b fates ∷ []) =
        here a text_a b text_b fates [] refl in
      Ensures-end
        (λ e.
          Shows hash paths c e
          ⊎ ((k : Contents) × IsWritten k (writes a text_a b text_b fates ∷ [])
              × Shows hash paths k e))
        (atomic_write_yaml_pair hash paths a text_a b text_b (on d fates))
        (atomic_write_yaml_pair-IsOldOrNew hash paths c a text_a b text_b (on d fates)
          (ahead d fates) p q n s)
        (λ _ _ t. inr (new, found, settled t))
        (λ _ _ t. elim t [
          | inl x ↦ inl (settled x.1)
          | inr x ↦ elim x.1 [ inl old ↦ inl old | inr r ↦ inr (new, found, r) ]
        ])
        (λ _ t. elim t [ inl old ↦ inl old | inr r ↦ inr (new, found, r) ])
  after-Shows (recovers fates) c d n s = inl (
      Ensures-end (Shows hash paths c) (recover_yaml_pair hash paths (on d fates))
        (recover_yaml_pair-Shows hash paths c (on d fates) (ahead d fates) s) (λ _ _ t. settled t)
        (λ _ _ t. t.1) (λ _ t. t))

  first_write :
      (k : Contents) (x : Attempt) (attempts : List Attempt)
      → IsWritten k (x ∷ [])
      → IsWritten k (x ∷ attempts)
  first_write k x attempts (here a text_a b text_b fates _ e) =
      here a text_a b text_b fates attempts e
  first_write k x attempts (later _ _ w) = elim w [ ]

  -- What the disk stands for after the attempts.
  pub run-Shows :
      (attempts : List Attempt) (c : Contents) (d : Disk)
      → All IsNamed attempts
      → Shows hash paths c d
      → (k : Contents) × ((k ≡ c) ⊎ IsWritten k attempts) × Shows hash paths k (run attempts d)
  unfolding run
  run-Shows [] c d n s = (c, inl refl, s)
  run-Shows (x ∷ attempts) c d (n, ns) s = elim (after-Shows x c d n s) [
    | inl t ↦
        let (k, from, shown) = run-Shows attempts c (after x d) ns t in
        (k, elim from [ inl e ↦ inl e | inr w ↦ inr (later x attempts w) ], shown)
    | inr t ↦
        let (k, from, shown) = run-Shows attempts t.0 (after x d) ns t.2 in
        (
          k,
          elim from [
            | inl e ↦
                inr
                  (subst (λ z. IsWritten z (x ∷ attempts)) (sym e) (first_write t.0 x attempts t.1))
            | inr w ↦ inr (later x attempts w)
          ],
          shown,
        )
  ]

  -- A recovery that returned, with these contents in the targets, and no journal.
  pub record IsRecovered (c : Contents) (r : Outcome Bool × World) : Type 0 where
    pub result : (found : Bool) × (r.0 ≡ returns found)
    pub disk : IsSettled c r.1.disk

  quiet_recovery :
      {Q : Bool → Disk → Type 0} {E : PairError → Disk → Type 0} {D : Disk → Type 0} (c : Contents)
      (r : Outcome Bool × World)
      → Ensures (◌≡◌ {A = List Fate} [] []) Q E D r
      → ((found : Bool) (d : Disk) → Q found d → IsSettled c d)
      → IsRecovered c r
  quiet_recovery c r (on_return found w a q) f = record {
    result = (found, refl);
    disk = f found w.disk q;
  }
  quiet_recovery c r (on_raise e w a n q) f = elim (n refl) [ ]
  quiet_recovery c r (on_death w n q) f = elim (n refl) [ ]

  -- From a disk with no journal, any writes and recoveries are attempted, each with any failures and
  -- any death of the process, where the stages of a write are two files that mkstemp makes beside the
  -- targets, and nothing raises between a journal's os.replace and the end of the sync of its directory.
  -- Then a recovery in which nothing fails returns, leaves no journal, and leaves in the two targets the
  -- pair that was there at first, or the pair of one of the writes: never parts of two.
  pub run-IsRecovered :
      (attempts : List Attempt) (d : Disk)
      → All IsNamed attempts
      → d.journal ≡ none
      → (k : Contents) × ((k ≡ on_disk d) ⊎ IsWritten k attempts)
        × IsRecovered k (recover_yaml_pair hash paths (on (run attempts d) []))
  run-IsRecovered attempts d n j =
      let (k, from, shown) =
        run-Shows attempts (on_disk d) d n (settled (record { journal = j; targets = refl })) in
      (
        k,
        from,
        quiet_recovery k (recover_yaml_pair hash paths (on (run attempts d) []))
            (recover_yaml_pair-Shows hash paths k (on (run attempts d) [])
              (ahead (run attempts d) []) shown)
            (λ _ _ q. q),
      )
