-- ===== src/Config/Staging.antt =====
-- The steps of `atomic_write_yaml_pair` before its journal is in its place.
use telegram_media_downloade.Prelude.{
  ◌≡◌, ◌⊎◌, inl, inr, refl, Bool, true, some, String, List, [], ◌∷◌, string_key,
}
use telegram_media_downloade.Dict.{get}
use telegram_media_downloade.Dict.Laws.{get-put_self}
use telegram_media_downloade.Config.{
  Disk, World, PairError, io_error, writer_error, returns, raises, Run, follow, rescue, perform,
  unchanged, stage, unstage, sync_journal, remove_stages, serialize_stage,
}
use telegram_media_downloade.Config.Rules.{
  IsAhead, Ensures, on_return, on_raise, Ensures-follow, Ensures-rescue, Ensures-perform,
}

-- An error of the file system, or of the writer.
abbrev pub IsStageError : PairError → Type 0
IsStageError e = (e ≡ io_error) ⊎ (e ≡ writer_error)

module _ {Calm : Type 0} where
  pub remove_stages-keeps :
      {Q : Bool → Disk → Type 0} (I : Disk → Type 0) (names : List String) (e : PairError)
      (w : World)
      → IsAhead Calm w
      → ¬ Calm
      → IsStageError e
      → I w.disk
      → ((name : String) (d : Disk) → I d → I (unstage name d))
      → Ensures Calm Q (λ e d. IsStageError e × I d) I (remove_stages names e w)
  unfolding remove_stages
  remove_stages-keeps I [] e w h n x i k = on_raise e w h n (x, i)
  remove_stages-keeps {Q = Q} I (name ∷ names) e w h n x i k =
      Ensures-follow (perform io_error (unstage name) w) (λ _ v. remove_stages names e v)
        (Ensures-perform {Q = λ _ d. I d} io_error (unstage name) w h (k name w.disk i)
          (inl refl, i) i)
        (λ _ v c j. remove_stages-keeps {Q = Q} I names e v c n x j k)

  pub sync_journal-keeps :
      {E : PairError → Disk → Type 0} (I : Disk → Type 0) (w : World)
      → IsAhead Calm w
      → I w.disk
      → Ensures Calm (λ _ d. I d) E I (sync_journal w)
  unfolding sync_journal
  sync_journal-keeps {E = E} I w h i = simp (h.syncs) (
      Ensures-rescue (perform io_error unchanged w) (λ _ v. (returns true, v))
        (Ensures-perform {Q = λ _ d. I d} {E = λ _ d. I d} io_error unchanged w h i i i)
        (λ _ v c n j. on_return true v c j))

module _ (hash : String → String) {Calm : Type 0} where
  pub serialize_stage-keeps :
      (I : Disk → Type 0) (name text : String) (w : World)
      → IsAhead Calm w
      → I w.disk
      → ((t : String) (d : Disk) → I d → I (stage name t d))
      → ((d : Disk) → I d → I (unstage name d))
      → Ensures Calm
          (λ sha d. I d × (sha ≡ hash text) × (get name d.staged ≡ some text))
          (λ e d. IsStageError e × I d)
          I
          (serialize_stage hash name text w)
  unfolding serialize_stage
  serialize_stage-keeps I name text w h i k l =
      Ensures-follow (perform io_error (stage name "") w) (λ _ v. rescue (write v) (remove))
        (Ensures-perform {Q = λ _ d. I d} io_error (stage name "") w h (k "" w.disk i) (inl refl, i)
          i)
        (λ _ v c j.
          Ensures-rescue {E = λ e d. IsStageError e × I d} (write v) remove
            (Ensures-follow (perform writer_error (stage name text) v)
              (λ _ u. follow (perform io_error unchanged u) (λ _ t. (returns (hash text), t)))
              (Ensures-perform {Q = λ _ d. Staged d} writer_error (stage name text) v c
                (k text v.disk j, get-put_self name text v.disk.staged) (inr refl, j) j)
              (λ _ u p q.
                Ensures-follow (perform io_error unchanged u) (λ _ t. (returns (hash text), t))
                  (Ensures-perform {Q = λ _ d. Staged d} io_error unchanged u p q (inl refl, q.0)
                    q.0)
                  (λ _ t r x. on_return (hash text) t r (x.0, refl, x.1))))
            (λ e u p n q.
              Ensures-follow (perform io_error (unstage name) u) (λ _ t. (raises e, t))
                (Ensures-perform {Q = λ _ d. I d} io_error (unstage name) u p (l u.disk q.1)
                  (inl refl, q.1) q.1)
                (λ _ t r x. on_raise e t r n (q.0, x))))
    where
      Staged : Disk → Type 0
      Staged d = I d × (get name d.staged ≡ some text)

      write : Run String
      write v =
          follow (perform writer_error (stage name text) v)
            (λ _ u. follow (perform io_error unchanged u) (λ _ t. (returns (hash text), t)))

      remove : PairError → Run String
      remove e u = follow (perform io_error (unstage name) u) (λ _ t. (raises e, t))
