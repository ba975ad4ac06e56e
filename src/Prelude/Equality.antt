-- ===== src/Prelude/Equality.antt =====
-- `PartialEq` as an interface: a Boolean test that agrees with equality.
use Prim.Native.Nat.{ℕ}
use Prim.Native.String.{String}
use mathlib.Core.Path.{◌≡◌}
use mathlib.Core.Bool.{Bool, true, false}
use mathlib.Core.Logic.{◌↔◌, ◌≢◌}
use native.Mathlib.Omega.{arith}
use text.Mathlib.Text.{◌==◌ as str_eq}
use text.Mathlib.TextEquality.{eq_iff}
use azcoin_stratum_pool.Prelude.Tests.{◌==◌ as nat_beq, ==_iff}

pub record PartialEq {ℓ} (A : Type ℓ) : Type ℓ where
  pub test : A → A → Bool
  pub test_iff : (a b : A) → (test a b ≡ true) ↔ (a ≡ b)

instance abbrev pub string_eq : PartialEq String
string_eq = record { test_iff = eq_iff; test = str_eq }

instance abbrev pub nat_eq : PartialEq ℕ
nat_eq = record { test_iff = ==_iff; test = nat_beq }

module _ {ℓ} {A : Type ℓ} ⦃e : PartialEq A⦄ where
  infix 50 ◌==◌
  abbrev pub ◌==◌ : A → A → Bool
  a == b = e.test a b

  pub test-ne : (a b : A) → a ≢ b → e.test a b ≡ false
  test-ne a b h = ground (arith, e.test_iff a b)
