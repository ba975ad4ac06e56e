-- ===== src/Prelude/Words.antt =====
-- Unsigned words as bytes, in either order, and the numbers that byte strings stand for.
use Prim.Native.Nat.{ℕ, zero, suc, ◌+◌, ◌-◌, ◌*◌, ◌/◌, ◌%◌, ◌^◌, ◌≤◌, ◌<◌, bit_or}
use mathlib.Core.Path.{◌≡◌, refl, ◌∙◌, ap}
use mathlib.Core.List.{List, [], ◌∷◌}
use native.Mathlib.Omega.{arith}
use native.Mathlib.Nat.{pow-suc}
use azcoin_stratum_pool.Prelude.Lists.{length, set, length-set, get_or, replicate, All}
use azcoin_stratum_pool.Prelude.Bits.{bit_or_halves}

abbrev pub IsByte : ℕ → Type 0
IsByte b = b < 256

-- The number of a big-endian byte string.
unfoldable pub be_value : List ℕ → ℕ
be_value [] = 0
be_value (b ∷ bs) = b * 256 ^ length bs + be_value bs

-- The number of a little-endian byte string.
unfoldable pub le_value : List ℕ → ℕ
le_value [] = 0
le_value (b ∷ bs) = b + 256 * le_value bs

-- `to_le_bytes` of a word of `k` bytes.
unfoldable pub le_bytes : ℕ → ℕ → List ℕ
le_bytes zero n = []
le_bytes (suc k) n = n % 256 ∷ le_bytes k (n / 256)

-- `wrapping_sub` of a 64-bit word.
abbrev pub sub64 : ℕ → ℕ → ℕ
sub64 a b = (a + 2 ^ 64 - b) % 2 ^ 64

pub length-le_bytes : (k n : ℕ) → length (le_bytes k n) ≡ k
unfolding le_bytes
length-le_bytes zero n = refl
length-le_bytes (suc k) n = ap suc (length-le_bytes k (n / 256))

pub le_bytes-IsByte : (k n : ℕ) → All IsByte (le_bytes k n)
unfolding le_bytes
le_bytes-IsByte zero n = tt
le_bytes-IsByte (suc k) n = (omega arith, le_bytes-IsByte k (n / 256))

pub le_value-le_bytes : (k n : ℕ) → n < 256 ^ k → le_value (le_bytes k n) ≡ n
unfolding le_bytes le_value
le_value-le_bytes zero n h = omega arith
le_value-le_bytes (suc k) n h =
    omega (arith, pow-suc 256 k, le_value-le_bytes k (n / 256) (omega (arith, pow-suc 256 k)))

pub be_value-lt : (bs : List ℕ) → All IsByte bs → be_value bs < 256 ^ length bs
unfolding be_value
be_value-lt [] h = omega arith
be_value-lt (b ∷ bs) h =
    let step : (b + 1) * 256 ^ length bs ≤ 256 * 256 ^ length bs = grind (arith, h.0) in
    omega (arith, step, be_value-lt bs h.1, pow-suc 256 (length bs))

pub be_value-zeros : (n : ℕ) → be_value (replicate n 0) ≡ 0
unfolding be_value
be_value-zeros zero = refl
be_value-zeros (suc n) = omega (arith, be_value-zeros n)

-- A write of `v` at index `i` adds `v` at its place, where a zero was.
pub be_value-set :
    (bs : List ℕ) (i k v : ℕ)
    → i + suc k ≡ length bs
    → get_or bs i 0 ≡ 0
    → be_value (set bs i v) ≡ be_value bs + v * 256 ^ k
unfolding be_value
be_value-set [] i k v h z = absurd (omega arith)
be_value-set (b ∷ bs) zero k v h z =
    let k_eq : length bs ≡ k = omega arith in ground (arith, z, ap (λ (n : ℕ). v * 256 ^ n) k_eq)
be_value-set (b ∷ bs) (suc i) k v h z =
    rw (length-set bs i v) (omega (arith, be_value-set bs i k v (omega arith) z))

-- `(q << k) | r` where `r` has `k` bits.
bit_or-zero : (n a : ℕ) → a ≤ n → bit_or a 0 ≡ a
bit_or-zero n zero h = refl
bit_or-zero zero (suc a) h = absurd (omega arith)
bit_or-zero (suc n) (suc a) h =
    omega (arith, bit_or_halves (suc a) 0, bit_or-zero n (suc a / 2) (omega arith))

pub or_shifted : (k q r : ℕ) → r < 2 ^ k → bit_or (q * 2 ^ k) r ≡ q * 2 ^ k + r
or_shifted zero q r h =
    let no_bits : r ≡ 0 = omega arith in
    rw no_bits (bit_or-zero (q * 2 ^ 0) (q * 2 ^ 0) (omega arith) ∙ omega arith)
or_shifted (suc k) q r h =
    let twice : q * 2 ^ suc k ≡ 2 * (q * 2 ^ k) =
      omega (arith, ap (λ (t : ℕ). q * t) (pow-suc 2 k)) in
    let half : q * 2 ^ suc k / 2 ≡ q * 2 ^ k = omega (arith, twice) in
    let halves = bit_or_halves (q * 2 ^ suc k) r in
    let rest = or_shifted k q (r / 2) (omega (arith, pow-suc 2 k)) in
    omega (arith, rw half at halves, twice, rest)
