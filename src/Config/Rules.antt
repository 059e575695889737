-- ===== src/Config/Rules.antt =====
-- What holds of the disk where a run may end, and one rule for each way to build a run. `Calm` says that no
-- effect of the run fails or dies.
use telegram_media_downloade.Prelude.{◌≡◌, ◌≢◌, refl, Bool, true, List, [], ◌∷◌}
use telegram_media_downloade.Config.{
  Disk, Fate, works, fails, dies, World, PairError, Outcome, returns, raises, died, Run, follow,
  rescue, perform,
}

-- No failure is ahead of a calm run, and the journal's directory is synced.
pub record IsAhead (Calm : Type 0) (w : World) : Type 0 where
  pub calm : Calm → w.fates ≡ []
  pub syncs : w.syncs ≡ true

-- `Q` of the result and the disk where the run returns, `E` where it raises, and `D` where the process dies;
-- a calm run returns, with no failure ahead.
pub data Ensures {A : Type 0} (Calm : Type 0) (Q : A → Disk → Type 0)
    (E : PairError → Disk → Type 0) (D : Disk → Type 0) : Outcome A × World → Type 0 where
  on_return : (a : A) (w : World) → IsAhead Calm w → Q a w.disk → Ensures Calm Q E D (returns a, w)
  on_raise :
      (e : PairError) (w : World)
      → IsAhead Calm w
      → ¬ Calm
      → E e w.disk
      → Ensures Calm Q E D (raises e, w)
  on_death : (w : World) → ¬ Calm → D w.disk → Ensures Calm Q E D (died, w)

module _ {A B : Type 0} {Calm : Type 0} {Q : A → Disk → Type 0} {R : B → Disk → Type 0}
    {E : PairError → Disk → Type 0} {D : Disk → Type 0} where
  pub Ensures-follow :
      (r : Outcome A × World) (next : A → Run B)
      → Ensures Calm Q E D r
      → ((a : A) (w : World) → IsAhead Calm w → Q a w.disk → Ensures Calm R E D (next a w))
      → Ensures Calm R E D (follow r next)
  unfolding follow
  Ensures-follow r next (on_return a w c q) h = h a w c q
  Ensures-follow r next (on_raise e w c n q) h = on_raise e w c n q
  Ensures-follow r next (on_death w c q) h = on_death w c q

module _ {A : Type 0} {Calm : Type 0} {Q : A → Disk → Type 0} {E F : PairError → Disk → Type 0}
    {D : Disk → Type 0} where
  pub Ensures-rescue :
      (r : Outcome A × World) (handler : PairError → Run A)
      → Ensures Calm Q E D r
      → ((e : PairError) (w : World)
          → IsAhead Calm w
          → ¬ Calm
          → E e w.disk
          → Ensures Calm Q F D (handler e w))
      → Ensures Calm Q F D (rescue r handler)
  unfolding rescue
  Ensures-rescue r handler (on_return a w c q) h = on_return a w c q
  Ensures-rescue r handler (on_raise e w c n q) h = h e w c n q
  Ensures-rescue r handler (on_death w c q) h = on_death w c q

module _ {A : Type 0} {Calm : Type 0} {Q R : A → Disk → Type 0} {E F : PairError → Disk → Type 0}
    {D C : Disk → Type 0} where
  pub Ensures-weaken :
      (r : Outcome A × World)
      → Ensures Calm Q E D r
      → ((a : A) (d : Disk) → Q a d → R a d)
      → ((e : PairError) (d : Disk) → E e d → F e d)
      → ((d : Disk) → D d → C d)
      → Ensures Calm R F C r
  Ensures-weaken r (on_return a w c q) f g h = on_return a w c (f a w.disk q)
  Ensures-weaken r (on_raise e w c n q) f g h = on_raise e w c n (g e w.disk q)
  Ensures-weaken r (on_death w c q) f g h = on_death w c (h w.disk q)

no_fate : (fate : Fate) (rest : List Fate) → ◌≢◌ {A = List Fate} (fate ∷ rest) []
no_fate fate rest e = cc

module _ {Calm : Type 0} {Q : Bool → Disk → Type 0} {E : PairError → Disk → Type 0}
    {D : Disk → Type 0} where
  pub Ensures-perform :
      (error : PairError) (change : Disk → Disk) (w : World)
      → IsAhead Calm w
      → Q true (change w.disk)
      → E error w.disk
      → D w.disk
      → Ensures Calm Q E D (perform error change w)
  unfolding perform
  Ensures-perform error change w h q e c = perform_cases w.fates h.calm
    where
      perform_cases :
          (fates : List Fate)
          → (Calm → fates ≡ [])
          → Ensures Calm Q E D (perform error change (record w { fates = fates }))
      perform_cases [] k =
          on_return true (record w { disk = change w.disk; fates = [] })
            (record { calm = λ _. refl; syncs = h.syncs }) q
      perform_cases (works ∷ rest) k =
          on_return true (record w { disk = change w.disk; fates = rest })
            (record { calm = λ c. elim (no_fate works rest (k c)) [ ]; syncs = h.syncs }) q
      perform_cases (fails ∷ rest) k =
          on_raise error (record w { fates = rest })
            (record { calm = λ c. elim (no_fate fails rest (k c)) [ ]; syncs = h.syncs })
            (λ c. no_fate fails rest (k c)) e
      perform_cases (dies ∷ rest) k =
          on_death (record w { fates = rest }) (λ c. no_fate dies rest (k c)) c
