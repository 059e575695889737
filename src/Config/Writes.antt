-- ===== src/Config/Writes.antt =====
-- The run of `atomic_write_yaml_pair`, whatever happens to its effects.
use telegram_media_downloade.Prelude.{
  ◌≡◌, ◌≢◌, ◌∙◌, refl, sym, ==_refl, Bool, some, String, List, [], ◌∷◌, string_key, ◌⊎◌, inl, inr,
}
use telegram_media_downloade.Dict.{get}
use telegram_media_downloade.Dict.Laws.{get-put_ne, get-pop_ne}
use telegram_media_downloade.Config.Names.{IsDrawn, IsDrawn-is_stage}
use telegram_media_downloade.Config.{
  Paths, Target, entry, entries, Disk, World, PairError, io_error, writer_error, returns, raises,
  follow, rescue, perform, unchanged, stage, unstage, set_journal, sync_journal, write_pair_journal,
  remove_stages, journal_pair, serialize_stage, stage_pair, finish_pair, recover_yaml_pair,
  atomic_write_yaml_pair,
}
use telegram_media_downloade.Config.Rules.{
  IsAhead, Ensures, on_return, Ensures-follow, Ensures-rescue, Ensures-weaken, Ensures-perform,
}
use telegram_media_downloade.Config.Views.{
  Contents, Generation, texts, in_stage, IsGeneration, IsPending, IsSettled, Shows, settled,
  pending,
}
use telegram_media_downloade.Config.Recovery.{finish_pair-IsSettled, recover_yaml_pair-Shows}
use telegram_media_downloade.Config.Staging.{
  IsStageError, remove_stages-keeps, sync_journal-keeps, serialize_stage-keeps,
}

-- The generation that a write puts into the journal.
abbrev pub generation : (String → String) → String → String → String → String → Generation
generation hash a text_a b text_b = record {
  first = entry Target.first a (hash text_a);
  second = entry Target.second b (hash text_b);
  first_text = text_a;
  second_text = text_b;
}

module _ (hash : String → String) (paths : Paths) where
  pub named-IsGeneration :
      (a text_a b text_b : String)
      → IsDrawn paths.pathlib paths.first a
      → IsDrawn paths.pathlib paths.second b
      → a ≢ b
      → IsGeneration hash paths (generation hash a text_a b text_b)
  named-IsGeneration a text_a b text_b p q n = record {
    first_target = refl;
    second_target = refl;
    first_stage = IsDrawn-is_stage paths.pathlib paths.first a p;
    second_stage = IsDrawn-is_stage paths.pathlib paths.second b q;
    first_hash = ==_refl (hash text_a);
    second_hash = ==_refl (hash text_b);
    distinct = n;
  }

module _ (hash : String → String) (paths : Paths) (c : Contents) (a text_a b text_b : String) where
  -- Both files are staged, and nothing is journaled.
  pub record IsStaged (d : Disk) : Type 0 where
    settled : IsSettled c d
    first : get a d.staged ≡ some text_a
    second : get b d.staged ≡ some text_b

  abbrev pub IsOldOrNew : Disk → Type 0
  IsOldOrNew d =
      Shows hash paths c d ⊎ Shows hash paths (texts (generation hash a text_a b text_b)) d

  IsStaged-IsPending :
      (d : Disk)
      → IsGeneration hash paths (generation hash a text_a b text_b)
      → IsStaged d
      → IsPending hash paths (generation hash a text_a b text_b) (
          set_journal
            (some (
              entries
                (entry Target.first a (hash text_a) ∷ entry Target.second b (hash text_b) ∷ [])))
            d)
  IsStaged-IsPending d h s = record {
    generation = h;
    journal = refl;
    first = in_stage s.first;
    second = in_stage s.second;
  }

  write_pair_journal-IsPending :
      {Calm : Type 0} (w : World)
      → IsAhead Calm w
      → IsGeneration hash paths (generation hash a text_a b text_b)
      → IsStaged w.disk
      → Ensures Calm
          (λ _ d. IsPending hash paths (generation hash a text_a b text_b) d)
          (λ e d. IsStageError e × IsSettled c d)
          IsOldOrNew
          (write_pair_journal
            (entries
              (entry Target.first a (hash text_a) ∷ entry Target.second b (hash text_b) ∷ []))
            w)
  unfolding write_pair_journal
  write_pair_journal-IsPending w h g s =
      let journal =
        entries (entry Target.first a (hash text_a) ∷ entry Target.second b (hash text_b) ∷ []) in
      Ensures-follow (perform io_error unchanged w)
        (λ _ v. follow (perform io_error (set_journal (some journal)) v) (λ _ u. sync_journal u))
        (Ensures-perform {Q = λ _ d. IsStaged d} io_error unchanged w h s (inl refl, s.settled)
          (inl (settled s.settled)))
        (λ _ v i t.
          Ensures-follow (perform io_error (set_journal (some journal)) v) (λ _ u. sync_journal u)
            (Ensures-perform {Q = λ _ d. IsPending hash paths (generation hash a text_a b text_b) d}
              io_error (set_journal (some journal)) v i (IsStaged-IsPending v.disk g t)
              (inl refl, t.settled) (inl (settled t.settled)))
            (λ _ u j p.
              Ensures-weaken (sync_journal u)
                (sync_journal-keeps {E = λ _ _. ⊥}
                  (IsPending hash paths (generation hash a text_a b text_b)) u j p)
                (λ _ _ q. q) (λ _ _ q. elim q [ ])
                (λ _ q. inr (pending (generation hash a text_a b text_b) q refl))))

  IsSettled-unstage : (name : String) (d : Disk) → IsSettled c d → IsSettled c (unstage name d)
  IsSettled-unstage name d s = record { journal = s.journal; targets = s.targets }

  IsSettled-stage :
      (name text : String) (d : Disk) → IsSettled c d → IsSettled c (stage name text d)
  IsSettled-stage name text d s = record { journal = s.journal; targets = s.targets }

  stage_first :
      {Calm : Type 0} (w : World)
      → IsAhead Calm w
      → IsSettled c w.disk
      → Ensures Calm
          (λ sha d. (sha ≡ hash text_a) × IsSettled c d × (get a d.staged ≡ some text_a))
          (λ e d. IsStageError e × IsSettled c d)
          IsOldOrNew
          (serialize_stage hash a text_a w)
  stage_first w h s =
      Ensures-weaken (serialize_stage hash a text_a w)
        (serialize_stage-keeps hash (IsSettled c) a text_a w h s (λ t d. IsSettled-stage a t d)
          (λ d. IsSettled-unstage a d))
        (λ _ _ q. (q.1, q.0, q.2)) (λ _ _ q. q) (λ _ q. inl (settled q))

  remove_stages-IsSettled :
      {Calm : Type 0} {Q : Bool → Disk → Type 0} (names : List String) (e : PairError) (w : World)
      → IsAhead Calm w
      → ¬ Calm
      → IsStageError e × IsSettled c w.disk
      → Ensures Calm Q (λ e d. IsStageError e × IsSettled c d) IsOldOrNew (remove_stages names e w)
  remove_stages-IsSettled {Q = Q} names e w h n (p, s) =
      Ensures-weaken {Q = Q} (remove_stages names e w)
        (remove_stages-keeps (IsSettled c) names e w h n p s IsSettled-unstage) (λ _ _ q. q)
        (λ _ _ q. q) (λ _ q. inl (settled q))

  journal_staged :
      {Calm : Type 0} (w : World)
      → IsAhead Calm w
      → IsGeneration hash paths (generation hash a text_a b text_b)
      → IsStaged w.disk
      → Ensures Calm
          (λ pair d.
            (pair ≡ (entry Target.first a (hash text_a), entry Target.second b (hash text_b)))
            × IsPending hash paths (generation hash a text_a b text_b) d)
          (λ e d. IsStageError e × IsSettled c d)
          IsOldOrNew
          (journal_pair a (hash text_a) b (hash text_b) w)
  unfolding journal_pair
  journal_staged w h g s =
      let x = entry Target.first a (hash text_a) in
      let y = entry Target.second b (hash text_b) in
      Ensures-follow
        (rescue (write_pair_journal (entries (x ∷ y ∷ [])) w)
          (λ e v. remove_stages (a ∷ b ∷ []) e v))
        (λ _ v. (returns (x, y), v))
        (Ensures-rescue (write_pair_journal (entries (x ∷ y ∷ [])) w)
          (λ e v. remove_stages (a ∷ b ∷ []) e v) (write_pair_journal-IsPending w h g s)
          (λ e v i n q. remove_stages-IsSettled (a ∷ b ∷ []) e v i n q))
        (λ _ v i q. on_return (x, y) v i (refl, q))

  abbrev HasFirst : Disk → Type 0
  HasFirst d = IsSettled c d × (get a d.staged ≡ some text_a)

  stage_second :
      {Calm : Type 0} (w : World)
      → IsAhead Calm w
      → a ≢ b
      → HasFirst w.disk
      → Ensures Calm
          (λ sha d. (sha ≡ hash text_b) × IsStaged d)
          (λ e d. IsStageError e × IsSettled c d)
          IsOldOrNew
          (rescue
            (serialize_stage hash b text_b w)
            (λ e u. follow (remove_stages (a ∷ []) e u) (λ _ t. (raises e, t))))
  stage_second {Calm = Calm} w h n s =
      Ensures-rescue {E = λ e d. IsStageError e × HasFirst d} (serialize_stage hash b text_b w)
        (λ e u. follow (remove_stages (a ∷ []) e u) (λ _ t. (raises e, t)))
        (Ensures-weaken (serialize_stage hash b text_b w)
          (serialize_stage-keeps hash HasFirst b text_b w h s
            (λ t d q. (IsSettled-stage b t d q.0, get-put_ne b a t d.staged (λ e. n (sym e)) ∙ q.1))
            (λ d q. (IsSettled-unstage b d q.0, get-pop_ne b a d.staged (λ e. n (sym e)) ∙ q.1)))
          (λ _ _ q. (q.1, record { settled = q.0.0; first = q.0.1; second = q.2 })) (λ _ _ q. q)
          (λ _ q. inl (settled q.0)))
        (λ e u p m q.
          Ensures-follow (remove_stages (a ∷ []) e u) (λ _ t. (raises e, t))
            (remove_stages-IsSettled {Q = λ _ _. ⊥} (a ∷ []) e u p m (q.0, q.1.0))
            (λ _ t r x. elim x [ ]))

  pub stage_pair-IsPending :
      {Calm : Type 0} (w : World)
      → IsAhead Calm w
      → IsGeneration hash paths (generation hash a text_a b text_b)
      → IsSettled c w.disk
      → Ensures Calm
          (λ pair d.
            (pair ≡ (entry Target.first a (hash text_a), entry Target.second b (hash text_b)))
            × IsPending hash paths (generation hash a text_a b text_b) d)
          (λ e d. IsStageError e × IsSettled c d)
          IsOldOrNew
          (stage_pair hash a text_a b text_b w)
  unfolding stage_pair
  stage_pair-IsPending w h g s =
      Ensures-follow (serialize_stage hash a text_a w)
        (λ sha_a v.
          follow
            (rescue (serialize_stage hash b text_b v)
              (λ e u. follow (remove_stages (a ∷ []) e u) (λ _ t. (raises e, t))))
            (λ sha_b u. journal_pair a sha_a b sha_b u))
        (stage_first w h s)
        (λ sha_a v i q.
          Ensures-follow
            (rescue (serialize_stage hash b text_b v)
              (λ e u. follow (remove_stages (a ∷ []) e u) (λ _ t. (raises e, t))))
            (λ sha_b u. journal_pair a sha_a b sha_b u) (stage_second v i g.distinct (q.1, q.2))
            (λ sha_b u j r. rw (q.0, r.0) (journal_staged u j g r.1)))

  -- A write of a pair on a disk that stands for some contents, with two stages that mkstemp makes
  -- beside the targets, where nothing raises between the journal's os.replace and the end of the sync
  -- of its directory, whatever else happens to its effects. Where it returns, the texts are the
  -- contents of the targets, and the journal is gone. Where it raises, either the exception is one of
  -- the writer of the texts, the targets have the old contents, and there is no journal; or it is one
  -- of the file system, and the disk stands for the old contents or for the new texts, as it does
  -- where the process dies. It returns when no effect fails or dies.
  pub atomic_write_yaml_pair-IsOldOrNew :
      {Calm : Type 0} (w : World)
      → IsAhead Calm w
      → IsDrawn paths.pathlib paths.first a
      → IsDrawn paths.pathlib paths.second b
      → a ≢ b
      → Shows hash paths c w.disk
      → Ensures Calm
          (λ _ d. IsSettled (texts (generation hash a text_a b text_b)) d)
          (λ e d. ((e ≡ writer_error) × IsSettled c d) ⊎ ((e ≡ io_error) × IsOldOrNew d))
          IsOldOrNew
          (atomic_write_yaml_pair hash paths a text_a b text_b w)
  unfolding atomic_write_yaml_pair
  atomic_write_yaml_pair-IsOldOrNew w h p n m s =
      let g = named-IsGeneration hash paths a text_a b text_b p n m in
      Ensures-follow (recover_yaml_pair hash paths w)
        (λ _ v.
          follow (stage_pair hash a text_a b text_b v) (λ pair u. finish_pair hash pair.0 pair.1 u))
        (Ensures-weaken (recover_yaml_pair hash paths w)
          (recover_yaml_pair-Shows hash paths c w h s) (λ _ _ q. q) (λ _ _ q. inr (q.0, inl q.1))
          (λ _ q. inl q))
        (λ _ v i q.
          Ensures-follow (stage_pair hash a text_a b text_b v)
            (λ pair u. finish_pair hash pair.0 pair.1 u)
            (Ensures-weaken (stage_pair hash a text_a b text_b v) (stage_pair-IsPending v i g q)
              (λ _ _ r. r)
              (λ _ _ r. elim r.0 [ inl x ↦ inr (x, inl (settled r.1)) | inr x ↦ inl (x, r.1) ])
              (λ _ r. r))
            (λ pair u j r. rw r.0 (
              Ensures-weaken
                (finish_pair hash (entry Target.first a (hash text_a))
                  (entry Target.second b (hash text_b)) u)
                (finish_pair-IsSettled hash paths (generation hash a text_a b text_b) u j r.1)
                (λ _ _ t. t) (λ _ _ t. inr (t.0, inr t.1)) (λ _ t. inr t))))
