-- ===== src/Config/Recovery.antt =====
-- The run of `recover_yaml_pair`, whatever happens to its effects.
use telegram_media_downloade.Prelude.{
  ◌≡◌, refl, sym, subst, true, false, none, some, String, ◌==◌, string_key, arith,
}
use telegram_media_downloade.Dict.{get}
use telegram_media_downloade.Config.{
  Paths, Entry, Disk, World, PairError, io_error, returns, follow, perform, unchanged, set_journal,
  replace_pair_entry, unlink_journal, finish_pair, recover_entry, recover_yaml_pair,
}
use telegram_media_downloade.Config.Rules.{
  IsAhead, Ensures, on_return, Ensures-follow, Ensures-weaken, Ensures-perform,
}
use telegram_media_downloade.Config.Views.{
  Contents, Generation, texts, on_disk, Has, in_stage, in_target, IsPending, Shows, settled,
  pending, IsSettled, moved, IsPending-moved_first, IsPending-moved_second, IsDone, IsDone-moved,
  IsDone-moved_ne, targets_differ,
}

module _ (hash : String → String) where
  replace_pair_entry-staged :
      (e : Entry) (text : String) (w : World)
      → get e.staged w.disk.staged ≡ some text
      → (hash text == e.sha256) ≡ true
      → replace_pair_entry hash e w
        ≡ follow (perform io_error (moved e text) w) (λ _ v. perform io_error unchanged v)
  unfolding replace_pair_entry
  replace_pair_entry-staged e text w p h = ground arith

  replace_pair_entry-done :
      (e : Entry) (text : String) (w : World)
      → IsDone e text w.disk
      → (hash text == e.sha256) ≡ true
      → replace_pair_entry hash e w ≡ perform io_error unchanged w
  unfolding replace_pair_entry
  replace_pair_entry-done e text w i h = ground (arith, i.stage, i.target)

module _ (hash : String → String) {Calm : Type 0} where
  pub replace_pair_entry-Has :
      (I : Disk → Type 0) (e : Entry) (text : String) (w : World)
      → IsAhead Calm w
      → (hash text == e.sha256) ≡ true
      → Has e text w.disk
      → I w.disk
      → I (moved e text w.disk)
      → Ensures Calm
          (λ _ d. I d × IsDone e text d)
          (λ err d. (err ≡ io_error) × I d)
          I
          (replace_pair_entry hash e w)
  replace_pair_entry-Has I e text w calm h (in_stage p) i j =
      rw (replace_pair_entry-staged hash e text w p h) (
        Ensures-follow (perform io_error (moved e text) w) (λ _ v. perform io_error unchanged v)
          (Ensures-perform {Q = λ _ d. I d × IsDone e text d} io_error (moved e text) w calm
            (j, IsDone-moved e text w.disk) (refl, i) i)
          (λ _ v c q. Ensures-perform io_error unchanged v c q (refl, q.0) q.0))
  replace_pair_entry-Has I e text w calm h (in_target p q) i j =
      let done : IsDone e text w.disk = record { stage = p; target = q } in
      rw (replace_pair_entry-done hash e text w done h)
        (Ensures-perform io_error unchanged w calm (i, done) (refl, i) i)

module _ (hash : String → String) (paths : Paths) where
  -- A run that raised, or died, has not lost the contents.
  abbrev pub Unfinished : Contents → PairError → Disk → Type 0
  Unfinished c e d = (e ≡ io_error) × Shows hash paths c d

  on_disk-done :
      (g : Generation) (d : Disk)
      → IsPending hash paths g d
      → IsDone g.first g.first_text d
      → IsDone g.second g.second_text d
      → on_disk d ≡ texts g
  on_disk-done g d h i j =
      ground (arith, h.generation.first_target, h.generation.second_target, i.target, j.target)

  recover_yaml_pair-pending :
      (g : Generation) (w : World)
      → IsPending hash paths g w.disk
      → recover_yaml_pair hash paths w ≡ finish_pair hash g.first g.second w
  unfolding recover_yaml_pair recover_entry finish_pair
  recover_yaml_pair-pending g w h = ground (
    arith, h.journal, h.generation.first_target, h.generation.second_target,
    h.generation.first_stage, h.generation.second_stage,
  )

  recover_yaml_pair-none :
      (w : World) → w.disk.journal ≡ none → recover_yaml_pair hash paths w ≡ (returns false, w)
  unfolding recover_yaml_pair
  recover_yaml_pair-none w h = ground arith

  abbrev IsHalf : Generation → Disk → Type 0
  IsHalf g d = IsPending hash paths g d × IsDone g.first g.first_text d

  first_stays :
      (g : Generation) (d : Disk)
      → IsHalf g d
      → IsDone g.first g.first_text (moved g.second g.second_text d)
  first_stays g d (h, i) =
      IsDone-moved_ne g.second g.first g.second_text g.first_text d
        (λ e. h.generation.distinct (sym e)) (λ e. targets_differ hash paths g h.generation (sym e))
        i

module _ (hash : String → String) (paths : Paths) {Calm : Type 0} where
  unlink_journal-done :
      (g : Generation) (w : World)
      → IsAhead Calm w
      → IsPending hash paths g w.disk
      → on_disk w.disk ≡ texts g
      → Ensures Calm
          (λ _ d. IsSettled (texts g) d)
          (Unfinished hash paths (texts g))
          (Shows hash paths (texts g))
          (unlink_journal w)
  unfolding unlink_journal
  unlink_journal-done g w calm h e =
      let shown = pending g h refl in
      Ensures-follow (perform io_error (set_journal none) w) (λ _ v. perform io_error unchanged v)
        (Ensures-perform {Q = λ _ d. IsSettled (texts g) d} io_error (set_journal none) w calm
          (record { journal = refl; targets = e }) (refl, shown) shown)
        (λ _ v c q. Ensures-perform io_error unchanged v c q (refl, settled q) (settled q))

  replace_pair_entry-IsPending :
      (g : Generation) (I : Disk → Type 0) (e : Entry) (text : String) (w : World)
      → ((d : Disk) → I d → IsPending hash paths g d)
      → Ensures Calm
          (λ _ d. I d × IsDone e text d)
          (λ err d. (err ≡ io_error) × I d)
          I
          (replace_pair_entry hash e w)
      → Ensures Calm
          (λ _ d. I d × IsDone e text d)
          (Unfinished hash paths (texts g))
          (Shows hash paths (texts g))
          (replace_pair_entry hash e w)
  replace_pair_entry-IsPending g I e text w f h =
      Ensures-weaken (replace_pair_entry hash e w) h (λ _ d q. q)
        (λ _ d q. (q.0, pending g (f d q.1) refl)) (λ d q. pending g (f d q) refl)

  pub finish_pair-IsSettled :
      (g : Generation) (w : World)
      → IsAhead Calm w
      → IsPending hash paths g w.disk
      → Ensures Calm
          (λ _ d. IsSettled (texts g) d)
          (Unfinished hash paths (texts g))
          (Shows hash paths (texts g))
          (finish_pair hash g.first g.second w)
  unfolding finish_pair
  finish_pair-IsSettled g w calm h =
      Ensures-follow (replace_pair_entry hash g.first w)
        (λ _ v. follow (replace_pair_entry hash g.second v) (λ _ u. unlink_journal u))
        (replace_pair_entry-IsPending g (IsPending hash paths g) g.first g.first_text w (λ _ k. k)
          (replace_pair_entry-Has hash (IsPending hash paths g) g.first g.first_text w calm
            h.generation.first_hash h.first h (IsPending-moved_first hash paths g w.disk h)))
        (λ _ v c q.
          Ensures-follow (replace_pair_entry hash g.second v) (λ _ u. unlink_journal u)
            (replace_pair_entry-IsPending g (IsHalf hash paths g) g.second g.second_text v
              (λ _ k. k.0)
              (replace_pair_entry-Has hash (IsHalf hash paths g) g.second g.second_text v c
                q.0.generation.second_hash q.0.second q
                (
                  IsPending-moved_second hash paths g v.disk q.0,
                  first_stays hash paths g v.disk q,
                )))
            (λ _ u k r.
              unlink_journal-done g u k r.0.0 (on_disk-done hash paths g u.disk r.0.0 r.0.1 r.1)))

  -- A recovery on a disk that stands for some contents, whatever happens to its effects, keeps these
  -- contents, and raises an error of the file system at most; where it returns, they are the contents
  -- of the targets, and the journal is gone; it returns when no effect fails or dies. (A recovery syncs
  -- no journal; that such a sync would raise nothing is asked for all the same.)
  pub recover_yaml_pair-Shows :
      (c : Contents) (w : World)
      → IsAhead Calm w
      → Shows hash paths c w.disk
      → Ensures Calm
          (λ _ d. IsSettled c d)
          (Unfinished hash paths c)
          (Shows hash paths c)
          (recover_yaml_pair hash paths w)
  unfolding recover_yaml_pair
  recover_yaml_pair-Shows c w calm (settled s) =
      subst (Ensures Calm (λ _ d. IsSettled c d) (Unfinished hash paths c) (Shows hash paths c))
        (sym (recover_yaml_pair-none hash paths w s.journal)) (on_return false w calm s)
  recover_yaml_pair-Shows c w calm (pending g h e) =
      rw (recover_yaml_pair-pending hash paths g w h) (
        subst
          (λ k.
            Ensures Calm (λ _ d. IsSettled k d) (Unfinished hash paths k) (Shows hash paths k)
              (finish_pair hash g.first g.second w))
          e (finish_pair-IsSettled g w calm h))
