-- ===== src/Base/Eq.antt =====
-- Go's `==` on comparable values, as an interface: strings, numbers and the keys of maps.
use topia.Base.Tests.{◌=?◌, =?_iff}
use mathlib.Core.Bool.{true, Bool}
use mathlib.Core.Logic.{◌↔◌}
use mathlib.Core.Path.{refl, ◌≡◌}
use Prim.Native.String.{String}
use Prim.Native.Nat.{ℕ}
use text.Mathlib.TextEquality
use text.Mathlib.Text.{◌==◌ as equal_text}

pub record Comparable {ℓ} (K : Type ℓ) : Type ℓ where
  pub equal : K → K → Bool
  pub equal_iff : (x y : K) → (equal x y ≡ true) ↔ (x ≡ y)

module _ {ℓ} {K : Type ℓ} ⦃c : Comparable K⦄ where
  infix 50 ◌==◌
  abbrev pub ◌==◌ : K → K → Bool
  x == y = c.equal x y

  pub ==_iff : (x y : K) → ((x == y) ≡ true) ↔ (x ≡ y)
  ==_iff x y = c.equal_iff x y

  pub ==_refl : (x : K) → (x == x) ≡ true
  ==_refl x = (==_iff x x).1 refl

instance abbrev pub string_eq : Comparable String
string_eq = record { equal_iff = TextEquality.eq_iff; equal = equal_text }

instance abbrev pub nat_eq : Comparable ℕ
nat_eq = record { equal_iff = =?_iff; equal = ◌=?◌ }
