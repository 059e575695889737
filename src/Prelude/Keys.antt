-- ===== src/Prelude/Keys.antt =====
-- Keys: types whose values are compared by a Boolean test, as an interface that dictionaries, sets
-- and queues take.
use Prim.Native.Nat.{ℕ}
use Prim.Native.String.{String}
use mathlib.Core.Path.{◌≡◌, refl}
use mathlib.Core.Logic.{◌≢◌, ◌↔◌}
use mathlib.Core.Bool.{Bool, true, false, ◌&&◌}
use native.Mathlib.Omega.{arith}
use text.Mathlib.Text.{◌==◌ as same_text}
use text.Mathlib.TextEquality.{eq_iff}
use telegram_media_downloade.Prelude.Tests.{nat_beq, nat_beq_iff}

pub record Key {ℓ} (K : Type ℓ) : Type ℓ where
  pub same : K → K → Bool
  pub same_iff : (j k : K) → (same j k ≡ true) ↔ (j ≡ k)

-- Task ids, message ids, file names.
instance abbrev pub string_key : Key String
string_key = record { same_iff = eq_iff; same = same_text }

instance abbrev pub nat_key : Key ℕ
nat_key = record { same_iff = nat_beq_iff; same = nat_beq }

pub same_pair_iff {ℓ κ} :
    {J : Type ℓ} {K : Type κ} (d : Key J) (e : Key K) (p q : J × K)
    → ((d.same p.0 q.0 && e.same p.1 q.1) ≡ true) ↔ (p ≡ q)
same_pair_iff d e (a, b) (c, f) = ground (arith, d.same_iff a c, e.same_iff b f)

-- Composite keys, such as the primary key of a table.
instance abbrev pub pair_key {ℓ κ} : {J : Type ℓ} {K : Type κ} ⦃d : Key J⦄ ⦃e : Key K⦄ → Key (J × K)
pair_key ⦃d⦄ ⦃e⦄ = record {
  same = λ p q. d.same p.0 q.0 && e.same p.1 q.1;
  same_iff = same_pair_iff d e;
}

module _ {ℓ} {K : Type ℓ} ⦃e : Key K⦄ where
  infix 50 ◌==◌
  abbrev pub ◌==◌ : K → K → Bool
  j == k = e.same j k

  pub ==_iff : (j k : K) → ((j == k) ≡ true) ↔ (j ≡ k)
  ==_iff j k = e.same_iff j k

  pub ==_refl : (k : K) → (k == k) ≡ true
  ==_refl k = (e.same_iff k k).1 refl

  pub ==_ne : (j k : K) → j ≢ k → (j == k) ≡ false
  ==_ne j k h = ground (arith, e.same_iff j k)
