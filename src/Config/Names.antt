-- ===== src/Config/Names.antt =====
-- The names of staged files: what `_serialize_yaml_stage` asks of mkstemp, and what `recover_yaml_pair` tests.
-- What pathlib says of a path, its parent and its name, is a parameter.
use Prim.Native.String.{◌++◌, len, slice}
use text.Mathlib.Text.{starts_with}
use text.Mathlib.TextPositions.{starts_with-append, slice-append_right, len-append}
use text.Mathlib.TextLemmas.{append_assoc}
use telegram_media_downloade.Prelude.{
  ◌≡◌, ◌∙◌, refl, sym, ap, Bool, true, ◌&&◌, String, string_key, ◌==◌, ==_refl, leb, ◌+◌, ◌-◌,
  arith,
}

pub record Pathlib : Type 0 where
  pub parent : String → String
  pub name : String → String

-- `str.endswith`
abbrev ends_with : String → String → Bool
ends_with s t = leb (len t) (len s) && slice s (len s - len t) (len s) == t

-- mkstemp makes the file beside the target, and its name of a prefix, a text that it draws, and a suffix.
pub record IsDrawn (p : Pathlib) (target staged : String) : Type 0 where
  pub draw : String
  pub beside : p.parent staged ≡ p.parent target
  pub made : p.name staged ≡ ("." ++ p.name target ++ ".") ++ (draw ++ ".stage")

unfoldable pub is_stage : Pathlib → String → String → Bool
is_stage p target staged =
    p.parent staged == p.parent target
    && starts_with (p.name staged) ("." ++ p.name target ++ ".")
    && ends_with (p.name staged) ".stage"

ends_with-append : (s t : String) → ends_with (s ++ t) t ≡ true
ends_with-append s t =
    let fits : leb (len t) (len (s ++ t)) ≡ true = ground (arith, len-append s t) in
    let from : len s + len t - len t ≡ len s = omega arith in
    let end : slice (s ++ t) (len (s ++ t) - len t) (len (s ++ t)) ≡ t =
      ap (λ k. slice (s ++ t) (k - len t) k) (len-append s t)
      ∙ ap (λ k. slice (s ++ t) k (len s + len t)) from
      ∙ slice-append_right s t in
    rw (fits, end) (==_refl t)

-- The test accepts every name that mkstemp makes.
pub IsDrawn-is_stage :
    (p : Pathlib) (target staged : String)
    → IsDrawn p target staged
    → is_stage p target staged ≡ true
unfolding is_stage
IsDrawn-is_stage p target staged h =
    let prefix = "." ++ p.name target ++ "." in
    let starts : starts_with (p.name staged) prefix ≡ true =
      ap (λ n. starts_with n prefix) h.made ∙ starts_with-append prefix (h.draw ++ ".stage") in
    let ends : ends_with (p.name staged) ".stage" ≡ true =
      ap (λ n. ends_with n ".stage") (h.made ∙ sym (append_assoc prefix h.draw ".stage"))
      ∙ ends_with-append (prefix ++ h.draw) ".stage" in
    rw (h.beside, starts, ends) (rw (==_refl {K = String} (p.parent target)) refl)
