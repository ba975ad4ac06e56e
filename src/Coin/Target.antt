-- ===== src/Coin/Target.antt =====
-- crates/coin_azcoin/src/share_validator.rs: targets as 32 big-endian bytes.
-- The arithmetic is that of a release build, where `usize` wraps around; a build with overflow checks
-- panics for an exponent above 32.
pub mod Shape
pub mod Value
use azcoin_stratum_pool.Prelude.{
  ℕ, zero, suc, ◌+◌, ◌-◌, ◌*◌, ◌/◌, ◌%◌, ◌^◌, Bool, true, false, List, [], ◌∷◌, ltb, leb, length,
  set, replicate, bit_or, if◌then◌else◌,
}
use azcoin_stratum_pool.Prelude.Words.{sub64}
use azcoin_stratum_pool.PoolCore.Types.{Bytes}

abbrev pub diff1_nbits : ℕ
diff1_nbits = 0x1d00ffff

abbrev pub exponent_of : ℕ → ℕ
exponent_of nbits = nbits / 2 ^ 24

-- `nbits & 0xffffff`
abbrev pub mantissa_of : ℕ → ℕ
mantissa_of nbits = nbits % 2 ^ 24

abbrev byte : ℕ → ℕ
byte n = n % 256

-- The branch `exponent <= 3`: `v` is a `u64`, and its low four bytes are stored.
unfoldable pub small_target : ℕ → ℕ → Bytes
small_target exponent mantissa =
    let v = mantissa * 2 ^ (8 * (3 - exponent)) % 2 ^ 64 in
    set
      (set (set (set (replicate 32 0) 28 (byte (v / 2 ^ 24))) 29 (byte (v / 2 ^ 16))) 30
        (byte (v / 2 ^ 8)))
      31 (byte v)

unfoldable pub large_target : ℕ → ℕ → Bytes
large_target exponent mantissa =
    let target = replicate 32 0 in
    let shift = exponent - 3 in
    let byte_offset = sub64 (sub64 32 shift) 3 in
    if ltb byte_offset 32
    then (let high = set target byte_offset (byte (mantissa / 2 ^ 16)) in
        let middle =
          if ltb (byte_offset + 1) 32
          then set high (byte_offset + 1) (byte (mantissa / 2 ^ 8))
          else high in
        if ltb (byte_offset + 2) 32 then set middle (byte_offset + 2) (byte mantissa) else middle)
    else target

unfoldable pub nbits_to_target : ℕ → Bytes
nbits_to_target nbits =
    if leb (exponent_of nbits) 3
    then small_target (exponent_of nbits) (mantissa_of nbits)
    else large_target (exponent_of nbits) (mantissa_of nbits)

unfoldable pub diff1_target : Bytes
unfolding nbits_to_target large_target
diff1_target = nbits_to_target diff1_nbits

-- The long division, over the bytes that are left: `value` and `remainder` are `u64`.
unfoldable pub div_loop : ℕ → ℕ → Bytes → Bytes
div_loop divisor remainder [] = []
div_loop divisor remainder (b ∷ rest) =
    let value = bit_or (remainder * 2 ^ 8 % 2 ^ 64) b in
    byte (value / divisor) ∷ div_loop divisor (value % divisor) rest

unfoldable pub div_target_by_difficulty : Bytes → ℕ → Bytes
div_target_by_difficulty target difficulty =
    if leb difficulty 1 then target else div_loop difficulty 0 target

-- The two arrays are walked together.
unfoldable pub leq_be : Bytes → Bytes → Bool
leq_be [] b = true
leq_be (x ∷ a) [] = true
leq_be (x ∷ a) (y ∷ b) = if ltb x y then true else if ltb y x then false else leq_be a b
