-- ===== src/Config/Single.antt =====
-- The run of `atomic_write_yaml`, whatever happens to its effects.
use telegram_media_downloade.Prelude.{
  ◌≡◌, ◌≢◌, ◌∙◌, refl, Bool, Option, some, String, ◌⊎◌, inl, inr,
}
use telegram_media_downloade.Config.{
  Target, Disk, World, PairError, io_error, writer_error, raises, Run, follow, rescue, perform,
  unchanged, content, stage, unstage, replace, atomic_write_yaml,
}
use telegram_media_downloade.Config.Rules.{
  IsAhead, Ensures, on_raise, Ensures-follow, Ensures-rescue, Ensures-perform,
}
use telegram_media_downloade.Config.Views.{content-set, content-moved}

abbrev other : Target → Target
other Target.first = Target.second
other Target.second = Target.first

-- This text in the target; the other target and the journal as on the first disk.
record Is (before : Disk) (target : Target) (text : Option String) (d : Disk) : Type 0 where
  pub target_text : content target d ≡ text
  pub other_text : content (other target) d ≡ content (other target) before
  pub same_journal : d.journal ≡ before.journal

content-stage :
    (t : Target) (name text : String) (d : Disk) → content t (stage name text d) ≡ content t d
content-stage Target.first name text d = refl
content-stage Target.second name text d = refl

content-unstage : (t : Target) (name : String) (d : Disk) → content t (unstage name d) ≡ content t d
content-unstage Target.first name d = refl
content-unstage Target.second name d = refl

differs : (t : Target) → t ≢ other t
differs Target.first e = cc
differs Target.second e = cc

journal-replace :
    (t : Target) (name text : String) (d : Disk) → (replace name text t d).journal ≡ d.journal
journal-replace Target.first name text d = refl
journal-replace Target.second name text d = refl

module _ (before : Disk) (target : Target) (name : String) where
  Is-stage :
      (text : String) (old : Option String) (d : Disk)
      → Is before target old d
      → Is before target old (stage name text d)
  Is-stage text old d h = record {
    target_text = content-stage target name text d ∙ h.target_text;
    other_text = content-stage (other target) name text d ∙ h.other_text;
    same_journal = h.same_journal;
  }

  Is-unstage :
      (old : Option String) (d : Disk)
      → Is before target old d
      → Is before target old (unstage name d)
  Is-unstage old d h = record {
    target_text = content-unstage target name d ∙ h.target_text;
    other_text = content-unstage (other target) name d ∙ h.other_text;
    same_journal = h.same_journal;
  }

  Is-replace :
      (text : String) (old : Option String) (d : Disk)
      → Is before target old d
      → Is before target (some text) (replace name text target d)
  Is-replace text old d h = record {
    target_text = content-set target name text d;
    other_text = content-moved target (other target) name text d (differs target) ∙ h.other_text;
    same_journal = journal-replace target name text d ∙ h.same_journal;
  }

module _ (before : Disk) (target : Target) (name text : String) where
  -- The target has its old contents, or the text.
  abbrev IsEither : Disk → Type 0
  IsEither d = Is before target (content target before) d ⊎ Is before target (some text) d

  IsEither-unstage : (d : Disk) → IsEither d → IsEither (unstage name d)
  IsEither-unstage d (inl h) = inl (Is-unstage before target name (content target before) d h)
  IsEither-unstage d (inr h) = inr (Is-unstage before target name (some text) d h)

  atomic_write_yaml-from :
      {Calm : Type 0} (w : World)
      → IsAhead Calm w
      → Is before target (content target before) w.disk
      → Ensures Calm
          (λ _ d. Is before target (some text) d)
          (λ _ d. IsEither d)
          IsEither
          (atomic_write_yaml name target text w)
  unfolding atomic_write_yaml
  atomic_write_yaml-from w h i =
      let old : Option String = content target before in
      let write : Run Bool = λ v. follow (perform writer_error (stage name text) v) (λ _ u.
        follow (perform io_error (replace name text target) u)
          (λ _ t. perform io_error unchanged t)) in
      let remove : PairError → Run Bool =
        λ e u. follow (perform io_error (unstage name) u) (λ _ t. (raises e, t)) in
      Ensures-follow (perform io_error (stage name "") w) (λ _ v. rescue (write v) remove)
        (Ensures-perform {Q = λ _ d. Is before target old d} io_error (stage name "") w h
          (Is-stage before target name "" old w.disk i) (inl i) (inl i))
        (λ _ v j x.
          Ensures-rescue {E = λ _ d. IsEither d} (write v) remove
            (Ensures-follow (perform writer_error (stage name text) v)
              (λ _ u.
                follow (perform io_error (replace name text target) u)
                  (λ _ t. perform io_error unchanged t))
              (Ensures-perform {Q = λ _ d. Is before target old d} writer_error (stage name text) v
                j (Is-stage before target name text old v.disk x) (inl x) (inl x))
              (λ _ u k y.
                Ensures-follow (perform io_error (replace name text target) u)
                  (λ _ t. perform io_error unchanged t)
                  (Ensures-perform {Q = λ _ d. Is before target (some text) d} io_error
                    (replace name text target) u k (Is-replace before target name text old u.disk y)
                    (inl y) (inl y))
                  (λ _ t l z. Ensures-perform io_error unchanged t l z (inr z) (inr z))))
            (λ e u k n y.
              Ensures-follow (perform io_error (unstage name) u) (λ _ t. (raises e, t))
                (Ensures-perform {Q = λ _ d. IsEither d} io_error (unstage name) u k
                  (IsEither-unstage u.disk y) y y)
                (λ _ t l z. on_raise e t l n z)))

-- A write of one file, whatever happens to its effects, leaves the other file and the journal, and
-- the target with its old contents or with the text: with the text where it returns, and it returns
-- when no effect fails or dies.
atomic_write_yaml-IsEither :
    {Calm : Type 0} (target : Target) (name text : String) (w : World)
    → IsAhead Calm w
    → Ensures Calm
        (λ _ d. Is w.disk target (some text) d)
        (λ _ d. IsEither w.disk target name text d)
        (IsEither w.disk target name text)
        (atomic_write_yaml name target text w)
atomic_write_yaml-IsEither target name text w h =
    atomic_write_yaml-from w.disk target name text w h
      (record { target_text = refl; other_text = refl; same_journal = refl })
