-- ===== src/Prelude/Bits.antt =====
-- `&`, `|` and `!` of unsigned words, bit by bit.
use Prim.Native.Nat.{
  ℕ, zero, suc, ◌+◌, ◌-◌, ◌*◌, ◌/◌, ◌%◌, ◌^◌, ◌≤◌, ◌<◌, min, max, digits, bit_and, bit_or,
  bit_and-bitwise, bit_or-bitwise,
}
use mathlib.Core.Path.{◌≡◌, refl, ◌∙◌, sym, ap}
use native.Mathlib.Omega.{arith}
use native.Mathlib.Nat.{pow-suc, one-le-pow}

-- The `k`-th bit of `x`, counted from the lowest.
unfoldable pub bit : ℕ → ℕ → ℕ
bit zero x = x % 2
bit (suc k) x = bit k (x / 2)

-- The operation on digits does not depend on its count once that covers the number.
module _ (z : ℕ → ℕ) (f : ℕ → ℕ → ℕ) where
  digits-zero : (n b : ℕ) → digits z f n 0 b ≡ z b
  digits-zero zero b = refl
  digits-zero (suc n) b = refl

  digits_cover : (n m a b : ℕ) → a ≤ n → a ≤ m → digits z f n a b ≡ digits z f m a b
  digits_cover n m zero b p q = digits-zero n b ∙ sym (digits-zero m b)
  digits_cover zero m (suc a) b p q = absurd (omega arith)
  digits_cover (suc n) zero (suc a) b p q = absurd (omega arith)
  digits_cover (suc n) (suc m) (suc a) b p q =
      ap (λ (t : ℕ). t * 2 + f (suc a % 2) (b % 2))
        (digits_cover n m (suc a / 2) (b / 2) (omega arith) (omega arith))

pub bit_and_halves : (a b : ℕ) → bit_and a b ≡ bit_and (a / 2) (b / 2) * 2 + min (a % 2) (b % 2)
bit_and_halves zero b = omega (arith, bit_and-bitwise 0 b, bit_and-bitwise 0 (b / 2))
bit_and_halves (suc a) b = omega (
  arith,
  bit_and-bitwise (suc a) b,
  bit_and-bitwise (suc a / 2) (b / 2),
  digits_cover (λ b. zero) min a (suc a / 2) (suc a / 2) (b / 2) (omega arith) (omega arith),
)

pub bit_or_halves : (a b : ℕ) → bit_or a b ≡ bit_or (a / 2) (b / 2) * 2 + max (a % 2) (b % 2)
bit_or_halves zero b = omega (arith, bit_or-bitwise 0 b, bit_or-bitwise 0 (b / 2))
bit_or_halves (suc a) b = omega (
  arith,
  bit_or-bitwise (suc a) b,
  bit_or-bitwise (suc a / 2) (b / 2),
  digits_cover (λ b. b) max a (suc a / 2) (suc a / 2) (b / 2) (omega arith) (omega arith),
)

-- A word is the sum of its halves, so its bits are those of `a / 2` above `a % 2`.
pub bit-and : (k a b : ℕ) → bit k (bit_and a b) ≡ min (bit k a) (bit k b)
unfolding bit
bit-and zero a b = omega (arith, bit_and_halves a b)
bit-and (suc k) a b = ap (bit k) (omega (arith, bit_and_halves a b)) ∙ bit-and k (a / 2) (b / 2)

pub bit-or : (k a b : ℕ) → bit k (bit_or a b) ≡ max (bit k a) (bit k b)
unfolding bit
bit-or zero a b = omega (arith, bit_or_halves a b)
bit-or (suc k) a b = ap (bit k) (omega (arith, bit_or_halves a b)) ∙ bit-or k (a / 2) (b / 2)

-- `!m` of a `w`-bit word.
abbrev pub complement : ℕ → ℕ → ℕ
complement w m = 2 ^ w - 1 - m

pub bit_lt_two : (k x : ℕ) → bit k x < 2
unfolding bit
bit_lt_two zero x = omega arith
bit_lt_two (suc k) x = bit_lt_two k (x / 2)

pub bit-complement : (w k m : ℕ) → k < w → m < 2 ^ w → bit k (complement w m) ≡ 1 - bit k m
unfolding bit
bit-complement zero k m h p = absurd (omega arith)
bit-complement (suc w) zero m h p = omega (arith, pow-suc 2 w, one-le-pow w 2)
bit-complement (suc w) (suc k) m h p =
    ap (bit k) (omega (arith, pow-suc 2 w, one-le-pow w 2))
    ∙ bit-complement w k (m / 2) (omega arith) (omega (arith, pow-suc 2 w))

pub bit-zero : (k : ℕ) → bit k 0 ≡ 0
unfolding bit
bit-zero zero = refl
bit-zero (suc k) = bit-zero k
